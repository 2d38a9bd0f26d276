-- ===== src/Protocol/Consensus/Sole.antt =====
-- codebase/protocol/peer_consensus.py: a voter with one standing vote has no other countable one.
use mathlib.Core.List.{Memᴰ}
use veri_swarm_flight.Base.{
  ◌≡◌, ◌⊎◌, refl, sym, ◌∙◌, ap, subst, inl, inr, true, List, [], ◌∷◌, String, string_eq, ◌==◌,
  Bool-cases, if◌then◌else◌,
}
use veri_swarm_flight.Protocol.Json.{Library}
use veri_swarm_flight.Protocol.Vote.{PeerVote, SignedVote, peer_vote_eq, peer_vote_beq_iff}
use veri_swarm_flight.Protocol.Consensus.Tally.{Terms}
use veri_swarm_flight.Protocol.Consensus.Ballot.{
  Status, silent, equivocal, voted, note_vote, concerns, summary,
}

voted_inj : {p q : PeerVote} → ◌≡◌ {A = Status} (voted p) (voted q) → p ≡ q
voted_inj h = cc

-- One more vote agrees with the standing, or makes it equivocal.
note_vote-new :
    (st : Status) (p : PeerVote) → (note_vote st p ≡ voted p) ⊎ (note_vote st p ≡ equivocal)
unfolding note_vote
note_vote-new silent p = inl refl
note_vote-new equivocal p = inr refl
note_vote-new (voted q) p = elim (Bool-cases (q == p)) [
  | inl same ↦ inl (rw same (ap voted ((peer_vote_beq_iff q p).0 same)))
  | inr differ ↦ inr (rw differ refl)
]

note_vote-old :
    (q p : PeerVote) → (note_vote (voted q) p ≡ voted q) ⊎ (note_vote (voted q) p ≡ equivocal)
unfolding note_vote
note_vote-old q p = elim (Bool-cases (q == p)) [
  | inl same ↦ inl (rw same refl)
  | inr differ ↦ inr (rw differ refl)
]

module _ {F B : Type 0} (lib : Library F B) (t : Terms) (voter : String) where
  summary-equivocal : (votes : List SignedVote) → summary lib t voter equivocal votes ≡ equivocal
  unfolding summary note_vote
  summary-equivocal [] = refl
  summary-equivocal (s ∷ votes) = elim (Bool-cases (concerns lib t voter s)) [
    | inl own ↦ rw own (summary-equivocal votes)
    | inr foreign ↦ rw foreign (summary-equivocal votes)
  ]

  never_voted :
      {A : Type 0} (st : Status) (votes : List SignedVote) (p : PeerVote)
      → summary lib t voter st votes ≡ voted p
      → st ≡ equivocal
      → A
  never_voted st votes p h e =
      let clash : equivocal ≡ voted p =
        sym (summary-equivocal votes) ∙ ap (λ x. summary lib t voter x votes) (sym e) ∙ h in
      cc

  -- Who has one vote had no other one, and has no other one among the votes.
  summary-kept :
      (st : Status) (votes : List SignedVote) (p q : PeerVote)
      → summary lib t voter st votes ≡ voted p
      → st ≡ voted q
      → q ≡ p
  unfolding summary
  summary-kept st [] p q h e = voted_inj (sym e ∙ h)
  summary-kept st (s ∷ votes) p q h e = elim (Bool-cases (concerns lib t voter s)) [
    | inr foreign ↦ summary-kept st votes p q (sym (rw foreign refl) ∙ h) e
    | inl own ↦
        let next : summary lib t voter (note_vote (voted q) s.vote) votes ≡ voted p =
          subst (λ x. summary lib t voter (note_vote x s.vote) votes ≡ voted p) e
            (sym (rw own refl) ∙ h) in
        elim (note_vote-old q s.vote) [
          | inl same ↦ summary-kept (note_vote (voted q) s.vote) votes p q next same
          | inr double ↦ never_voted (note_vote (voted q) s.vote) votes p next double
        ]
  ]

  pub summary-only :
      (votes : List SignedVote) (st : Status) (p : PeerVote) (x : SignedVote)
      → summary lib t voter st votes ≡ voted p
      → Memᴰ x votes
      → concerns lib t voter x ≡ true
      → x.vote ≡ p
  unfolding summary
  summary-only [] st p x h m own = elim m [ ]
  summary-only (s ∷ votes) st p x h (Memᴰ.head e) own =
      let mine : concerns lib t voter s ≡ true = subst (λ y. concerns lib t voter y ≡ true) e own in
      let next : summary lib t voter (note_vote st s.vote) votes ≡ voted p =
        sym (rw mine refl) ∙ h in
      elim (note_vote-new st s.vote) [
        | inl same ↦
            ap (λ y. y.vote) e ∙ summary-kept (note_vote st s.vote) votes p s.vote next same
        | inr double ↦ never_voted (note_vote st s.vote) votes p next double
      ]
  summary-only (s ∷ votes) st p x h (Memᴰ.tail m) own =
      summary-only votes (if concerns lib t voter s then note_vote st s.vote else st) p x h m own
