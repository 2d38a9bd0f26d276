-- ===== src/Protocol/Consensus/Count.antt =====
-- codebase/protocol/peer_consensus.py: the sets of voters that the tally counts.
use veri_swarm_flight.Base.{
  ◌+◌, ◌≤◌, ◌≡◌, refl, subst, inl, inr, Bool, true, false, Option, none, some, List, [], ◌∷◌,
  String, string_eq, arith, Bool-cases, Option-cases, eq_iff, length,
}
use veri_swarm_flight.Base.Sets.{
  member, distinct, disjoint, member-add, distinct-add, member-discard, disjoint_of_members,
  length-add-le_of_disjoint,
}
use veri_swarm_flight.Base.Dict.{
  Dict, keys, get, get-set_item, get-delete_ne, get-delete_self, distinct-set_item, distinct-delete,
  has_key-member, has_key-get,
}
use veri_swarm_flight.Protocol.Json.{Library}
use veri_swarm_flight.Protocol.Vote.{SignedVote, peer_vote_eq}
use veri_swarm_flight.Protocol.Consensus.{
  Ballots, no_ballots, register_vote, voters_where, is_ack, is_dispute, peers_of,
}
use veri_swarm_flight.Protocol.Consensus.Tally.{Terms, counts, collect}

-- The test on the kept vote of a voter.
abbrev pub passes_at : (SignedVote → Bool) → Option SignedVote → Bool
passes_at p none = false
passes_at p (some s) = p s

pub member-voters_where :
    (p : SignedVote → Bool) (m : Dict String SignedVote) (v : String)
    → distinct (keys m) ≡ true
    → member v (voters_where p m) ≡ passes_at p (get v m)
unfolding voters_where distinct get member
member-voters_where p [] v d = refl
member-voters_where p ((k, s) ∷ m) v d = ground (
  arith,
  eq_iff v k,
  member-voters_where p m v,
  member-add k v (voters_where p m),
  has_key-member k m,
  has_key-get k m,
)

pub distinct-voters_where :
    (p : SignedVote → Bool) (m : Dict String SignedVote) → distinct (voters_where p m) ≡ true
unfolding voters_where
distinct-voters_where p [] = unfold distinct in refl
distinct-voters_where p ((k, s) ∷ m) =
    ground (arith, distinct-voters_where p m, distinct-add k (voters_where p m))

pub ack_xor_dispute : (s : SignedVote) → is_ack s ≡ true → is_dispute s ≡ false
ack_xor_dispute s h = ground arith

module _ {F B : Type 0} (lib : Library F B) (t : Terms) where
  -- What the loop maintains.
  pub record IsTidy (b : Ballots) : Type 0 where
    pub once : distinct (keys b.valid_by_voter) ≡ true
    pub apart : (v : String) → member v b.equivocators ≡ true → get v b.valid_by_voter ≡ none
    pub entry :
        (v : String) (s : SignedVote)
        → get v b.valid_by_voter ≡ some s
        → (s.vote.voter_id ≡ v) × (counts lib t s ≡ true)

  pub register_vote-IsTidy :
      (b : Ballots) (s : SignedVote) → counts lib t s ≡ true → IsTidy b → IsTidy (register_vote b s)
  unfolding register_vote
  register_vote-IsTidy b s c i = record {
    once = ground (arith, distinct-set_item x s m i.once, distinct-delete x m i.once);
    apart = λ v h. ground (
      arith,
      eq_iff v x,
      member-add x v b.equivocators,
      i.apart v,
      get-set_item x v s m,
      get-delete_ne x v m,
      get-delete_self x m i.once,
    );
    entry = λ v s' h. (
      ground (
        arith,
        eq_iff v x,
        get-set_item x v s m,
        get-delete_ne x v m,
        get-delete_self x m i.once,
        i.entry v s',
      ),
      ground (
        arith,
        c,
        eq_iff v x,
        get-set_item x v s m,
        get-delete_ne x v m,
        get-delete_self x m i.once,
        i.entry v s',
      ),
    );
  }
    where
      x : String
      x = s.vote.voter_id

      m : Dict String SignedVote
      m = b.valid_by_voter

  collect-IsTidy :
      (b : Ballots) (votes : List SignedVote) → IsTidy b → IsTidy (collect lib t b votes)
  unfolding collect
  collect-IsTidy b [] i = i
  collect-IsTidy b (s ∷ votes) i = elim (Bool-cases (counts lib t s)) [
    | inl counted ↦
        rw counted (collect-IsTidy (register_vote b s) votes (register_vote-IsTidy b s counted i))
    | inr other ↦ rw other (collect-IsTidy b votes i)
  ]

  pub no_ballots-IsTidy : IsTidy no_ballots
  unfolding distinct member get
  no_ballots-IsTidy = record { once = refl; apart = λ v h. refl; entry = λ v s h. cc }

  -- After the loop the counted votes are one to a voter, and no equivocator's is among them.
  pub votes-IsTidy : (votes : List SignedVote) → IsTidy (collect lib t no_ballots votes)
  votes-IsTidy votes = collect-IsTidy no_ballots votes no_ballots-IsTidy

  -- A counted vote is of a peer: on the roster, if there is one, and not the originator.
  counts-peer :
      (roster : List String) (s : SignedVote)
      → t.roster ≡ some roster
      → counts lib t s ≡ true
      → member s.vote.voter_id (peers_of roster t.originator) ≡ true
  unfolding counts
  counts-peer roster s e c = ground (
    arith,
    member-discard t.originator s.vote.voter_id roster,
    eq_iff t.originator s.vote.voter_id,
    eq_iff s.vote.voter_id t.originator,
  )

  module _ (b : Ballots) (tidy : IsTidy b) where
    -- A voter counted for any test is a peer.
    pub voters_where-peers :
        (p : SignedVote → Bool) (roster : List String)
        → t.roster ≡ some roster
        → (v : String) → member v (voters_where p b.valid_by_voter) ≡ true
        → member v (peers_of roster t.originator) ≡ true
    voters_where-peers p roster e v h = elim (Option-cases (get v b.valid_by_voter)) [
      | inl absent ↦ absurd (ground (arith, member-voters_where p b.valid_by_voter v tidy.once))
      | inr (s, found) ↦
          let (same, counted) = tidy.entry v s found in
          subst (λ x. member x (peers_of roster t.originator) ≡ true) same
            (counts-peer roster s e counted)
    ]

    -- Two tests that no vote passes both count no voter twice.
    pub voters_where-disjoint :
        (p q : SignedVote → Bool)
        → ((s : SignedVote) → p s ≡ true → q s ≡ false)
        → disjoint (voters_where p b.valid_by_voter) (voters_where q b.valid_by_voter) ≡ true
    voters_where-disjoint p q apart = disjoint_of_members _ _ (λ v h.
        elim (Option-cases (get v b.valid_by_voter)) [
          | inl absent ↦ ground (arith, member-voters_where q b.valid_by_voter v tidy.once)
          | inr (s, found) ↦ ground (
            arith,
            apart s,
            member-voters_where p b.valid_by_voter v tidy.once,
            member-voters_where q b.valid_by_voter v tidy.once,
          )
        ])

    pub voters_where-subset :
        (p q : SignedVote → Bool)
        → ((s : SignedVote) → p s ≡ true → q s ≡ true)
        → (v : String) → member v (voters_where p b.valid_by_voter) ≡ true
        → member v (voters_where q b.valid_by_voter) ≡ true
    voters_where-subset p q sub v h = elim (Option-cases (get v b.valid_by_voter)) [
      | inl absent ↦ absurd (ground (arith, member-voters_where p b.valid_by_voter v tidy.once))
      | inr (s, found) ↦ ground (
        arith,
        sub s,
        member-voters_where p b.valid_by_voter v tidy.once,
        member-voters_where q b.valid_by_voter v tidy.once,
      )
    ]

    -- No equivocator is counted.
    pub equivocators-disjoint :
        (p : SignedVote → Bool) → disjoint b.equivocators (voters_where p b.valid_by_voter) ≡ true
    equivocators-disjoint p =
        disjoint_of_members _ _ (λ v h.
          ground (arith, tidy.apart v h, member-voters_where p b.valid_by_voter v tidy.once))

    -- Acknowledging and disputing voters together are no more than the peers.
    pub counted-le-peers :
        (roster : List String)
        → t.roster ≡ some roster
        → length (voters_where is_ack b.valid_by_voter)
            + length (voters_where is_dispute b.valid_by_voter)
          ≤ length (peers_of roster t.originator)
    counted-le-peers roster e =
        length-add-le_of_disjoint _ _ _ (distinct-voters_where is_ack b.valid_by_voter)
          (distinct-voters_where is_dispute b.valid_by_voter)
          (voters_where-disjoint is_ack is_dispute ack_xor_dispute)
          (voters_where-peers is_ack roster e) (voters_where-peers is_dispute roster e)
