-- ===== src/Protocol/Consensus/Cast.antt =====
-- codebase/protocol/peer_consensus.py: a voter that the tally counts cast one of the votes, and cast no
-- other countable one.
use mathlib.Core.List.{Memᴰ}
use veri_swarm_flight.Base.{
  ◌≡◌, ◌⊎◌, refl, sym, ◌∙◌, ap, subst, inl, inr, Bool, true, false, Option, none, some, List, [],
  ◌∷◌, String, string_eq, arith, ◌==◌, eq_iff, ℕ, Bool-cases, Option-cases,
}
use veri_swarm_flight.Base.Sets.{member, distinct, of_list}
use veri_swarm_flight.Base.Dict.{
  Dict, keys, get, set_item, delete, get-set_item, get-delete_ne, get-delete_self,
}
use veri_swarm_flight.Base.Floats.{Floats}
use veri_swarm_flight.Protocol.Json.{Library}
use veri_swarm_flight.Protocol.Receipt.{Receipt, receipt_digest}
use veri_swarm_flight.Protocol.Vote.{SignedVote, peer_vote_eq, verify_vote}
use veri_swarm_flight.Protocol.Consensus.{
  Ballots, no_ballots, register_vote, voters_where, peers_of, outside_roster,
}
use veri_swarm_flight.Protocol.Consensus.Tally.{Terms, counts, collect, terms_of}
use veri_swarm_flight.Protocol.Consensus.Count.{
  IsTidy, votes-IsTidy, member-voters_where, voters_where-peers, register_vote-IsTidy,
  no_ballots-IsTidy,
}
use veri_swarm_flight.Protocol.Consensus.Agreement.{ballots_of}
use veri_swarm_flight.Protocol.Consensus.Ballot.{
  silent, voted, concerns, summary, status, collect-status-summary,
}
use veri_swarm_flight.Protocol.Consensus.Sole.{summary-only}

-- A kept vote is one of those that were registered.
register_vote-kept :
    (b : Ballots) (s x : SignedVote) (v : String)
    → distinct (keys b.valid_by_voter) ≡ true
    → get v (register_vote b s).valid_by_voter ≡ some x
    → (s ≡ x) ⊎ (get v b.valid_by_voter ≡ some x)
unfolding register_vote
register_vote-kept b s x v once h =
    let m = b.valid_by_voter in
    let w = s.vote.voter_id in
    elim (Bool-cases (member w b.equivocators)) [
      | inl double ↦ inr (sym (rw double refl) ∙ h)
      | inr single ↦ elim (Option-cases (get w m)) [
        | inl absent ↦
            let found : get v (set_item w s m) ≡ some x = sym (rw (single, absent) refl) ∙ h in
            elim (Bool-cases (v == w)) [
              | inl same ↦ inl (given (sym (get-set_item w v s m ∙ rw same refl) ∙ found))
              | inr apart ↦ inr (sym (get-set_item w v s m ∙ rw apart refl) ∙ found)
            ]
        | inr (previous, there) ↦ elim (Bool-cases (previous.vote == s.vote)) [
          | inl same ↦ inr (sym (rw (single, there, same) refl) ∙ h)
          | inr differ ↦
              let found : get v (delete w m) ≡ some x = sym (rw (single, there, differ) refl) ∙ h in
              elim (Bool-cases (v == w)) [
                | inl same ↦
                    let clash : ◌≡◌ {A = Option SignedVote} none (some x) =
                      sym (get-delete_self w m once)
                      ∙ ap (λ k. get k (delete w m)) (sym ((eq_iff v w).0 same))
                      ∙ found in
                    cc
                | inr apart ↦ inr (ground (arith, found, eq_iff v w, get-delete_ne w v m))
              ]
        ]
      ]
    ]
  where
    given : {a b : SignedVote} → ◌≡◌ {A = Option SignedVote} (some a) (some b) → a ≡ b
    given h = cc

module _ {F B : Type 0} (lib : Library F B) (t : Terms) where
  collect-kept :
      (b : Ballots) (votes : List SignedVote) (x : SignedVote) (v : String)
      → IsTidy lib t b
      → get v (collect lib t b votes).valid_by_voter ≡ some x
      → Memᴰ x votes ⊎ (get v b.valid_by_voter ≡ some x)
  unfolding collect
  collect-kept b [] x v tidy h = inr h
  collect-kept b (s ∷ votes) x v tidy h = elim (Bool-cases (counts lib t s)) [
    | inr out ↦
        let same : collect lib t b (s ∷ votes) ≡ collect lib t b votes = rw (out, collect) refl in
        elim (collect-kept b votes x v tidy (sym (ap (λ y. get v y.valid_by_voter) same) ∙ h)) [
          | inl m ↦ inl (Memᴰ.tail m)
          | inr before ↦ inr before
        ]
    | inl counted ↦
        let tidier = register_vote-IsTidy lib t b s counted tidy in
        let same : collect lib t b (s ∷ votes) ≡ collect lib t (register_vote b s) votes =
          rw (counted, collect) refl in
        elim (collect-kept (register_vote b s) votes x v tidier
          (sym (ap (λ y. get v y.valid_by_voter) same) ∙ h)) [
            | inl m ↦ inl (Memᴰ.tail m)
            | inr now ↦ elim (register_vote-kept b s x v tidy.once now) [
              | inl same ↦ inl (Memᴰ.head (sym same))
              | inr before ↦ inr before
            ]
          ]
  ]

  status-voted :
      (b : Ballots) (v : String) (s : SignedVote)
      → IsTidy lib t b
      → get v b.valid_by_voter ≡ some s
      → status b v ≡ voted s.vote
  unfolding status
  status-voted b v s tidy found = elim (Bool-cases (member v b.equivocators)) [
    | inl double ↦
        let clash : ◌≡◌ {A = Option SignedVote} none (some s) = sym (tidy.apart v double) ∙ found in
        cc
    | inr single ↦ rw (single, found) refl
  ]

module _ {F B : Type 0} (lib : Library F B) ⦃fl : Floats F⦄ where
  -- The vote of a voter that the tally counts: one of the votes, signed over the receipt by a peer on
  -- the roster, every vote of whom that is signed over this receipt says the same.
  pub record Cast (r : Receipt F) (votes : List SignedVote) (keys : Dict String (List ℕ))
      (ids : List String) (v : String) (s : SignedVote) : Type 0 where
    pub voter : s.vote.voter_id ≡ v
    pub cast : Memᴰ s votes
    pub target : s.vote.target_receipt_hash ≡ receipt_digest lib r
    pub signed : verify_vote lib keys s ≡ true
    pub peer : member v (peers_of (of_list ids) r.drone_id) ≡ true
    pub only :
        (x : SignedVote)
        → Memᴰ x votes
        → x.vote.voter_id ≡ v
        → x.vote.target_receipt_hash ≡ receipt_digest lib r
        → verify_vote lib keys x ≡ true
        → x.vote ≡ s.vote

  -- Another vote of a voter who has a countable one is countable if it is signed over the receipt.
  concerns_too :
      (t : Terms) (v : String) (s x : SignedVote)
      → s.vote.voter_id ≡ v
      → counts lib t s ≡ true
      → x.vote.voter_id ≡ v
      → x.vote.target_receipt_hash ≡ t.target
      → verify_vote lib t.keys x ≡ true
      → concerns lib t v x ≡ true
  unfolding counts
  concerns_too t v s x who counted own target signed =
      let aimed : (x.vote.target_receipt_hash == t.target) ≡ true = (eq_iff _ _).1 target in
      let moved : s.vote.voter_id ≡ x.vote.voter_id = who ∙ sym own in
      let enrolled : outside_roster t.roster x.vote.voter_id ≡ false =
        subst (λ y. outside_roster t.roster y ≡ false) moved (ground arith) in
      let apart : (x.vote.voter_id == t.originator) ≡ false =
        subst (λ y. (y == t.originator) ≡ false) moved (ground arith) in
      let mine : (v == x.vote.voter_id) ≡ true = (eq_iff _ _).1 (sym own) in ground arith

  counts-parts :
      (t : Terms) (s : SignedVote)
      → counts lib t s ≡ true
      → (s.vote.target_receipt_hash ≡ t.target) × (verify_vote lib t.keys s ≡ true)
  unfolding counts
  counts-parts t s h = (ground (arith, eq_iff s.vote.target_receipt_hash t.target), ground arith)

  pub voter_cast :
      (r : Receipt F) (votes : List SignedVote) (keys : Dict String (List ℕ)) (ids : List String)
      (p : SignedVote → Bool) (v : String)
      → member v (voters_where p (ballots_of lib r keys (some ids) votes).valid_by_voter) ≡ true
      → (s : SignedVote) × (p s ≡ true) × Cast r votes keys ids v s
  unfolding terms_of get
  voter_cast r votes keys ids p v m =
      let t = terms_of lib r keys (some ids) in
      let b = ballots_of lib r keys (some ids) votes in
      let tidy = votes-IsTidy lib t votes in
      elim (Option-cases (get v b.valid_by_voter)) [
        | inl absent ↦ absurd (ground (arith, member-voters_where p b.valid_by_voter v tidy.once))
        | inr (s, found) ↦
            let (who, counted) = tidy.entry v s found in
            let sole : summary lib t v silent votes ≡ voted s.vote =
              sym (collect-status-summary lib t votes v) ∙ status-voted lib t b v s tidy found in
            (
              s,
              ground (arith, member-voters_where p b.valid_by_voter v tidy.once),
              record {
                voter = who;
                cast =
                    elim (collect-kept lib t no_ballots votes s v (no_ballots-IsTidy lib t) found) [
                      | inl x ↦ x
                      | inr before ↦ cc
                    ];
                target = (counts-parts t s counted).0;
                signed = (counts-parts t s counted).1;
                peer = voters_where-peers lib t b tidy p (of_list ids) refl v m;
                only = λ x mx own target signed.
                    summary-only lib t v votes silent s.vote x sole mx
                      (concerns_too t v s x who counted own target signed);
              },
            )
      ]
