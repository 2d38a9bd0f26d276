-- ===== src/Perception/Supervisor/Quorum.antt =====
-- From signed votes to a released command: the tally of peer_consensus.py feeding the gate of
-- safety_supervisor.py.
use veri_swarm_flight.Base.{
  ℕ, ◌≤◌, ◌≡◌, ap, inl, inr, true, Option, some, List, String, string_eq, arith, eq_iff, ok, length,
}
use veri_swarm_flight.Base.Int.{ℤ}
use veri_swarm_flight.Base.Sets.{member, distinct}
use veri_swarm_flight.Base.Dict.{Dict}
use veri_swarm_flight.Base.Floats.{Floats}
use veri_swarm_flight.Protocol.Json.{Library}
use veri_swarm_flight.Protocol.Receipt.{Receipt, receipt_digest}
use veri_swarm_flight.Protocol.Vote.{ack, SignedVote, reason_ok}
use veri_swarm_flight.Protocol.Consensus.{
  ConsensusResult, ack_quorum, Engine, init_engine, ReputationStore, voters_where, is_semantic,
}
use veri_swarm_flight.Protocol.Consensus.Tally.{tally, terms_of, conclude, summarise}
use veri_swarm_flight.Protocol.Consensus.Count.{distinct-voters_where}
use veri_swarm_flight.Protocol.Consensus.Cast.{Cast, voter_cast}
use veri_swarm_flight.Protocol.Consensus.Agreement.{init_engine-eq-ok, ballots_of, tally-eq-ok}
use veri_swarm_flight.Perception.Supervisor.{Health, authorize}
use veri_swarm_flight.Perception.Supervisor.Laws.{authorize-IsJustified}

module _ {F B : Type 0} ⦃fl : Floats F⦄ (lib : Library F B) where
  -- Among the votes is a signed statement of this peer that it compared its own observation with the
  -- receipt's, and nothing else that it signed over this receipt.
  pub record CrossCheck (r evidence : Receipt F) (votes : List SignedVote)
      (keys : Dict String (List ℕ)) (ids : List String) (v : String) : Type 0 where
    pub statement : SignedVote
    pub cast : Cast lib r votes keys ids v statement
    pub decision : statement.vote.decision ≡ ack
    pub reason : statement.vote.reason ≡ reason_ok
    pub target : statement.vote.target_receipt_hash ≡ receipt_digest lib evidence

  result_semantic :
      (eng : Engine) (r : Receipt F) (votes : List SignedVote) (keys : Dict String (List ℕ))
      (ids : List String) (rep : Option (ReputationStore F)) (res : ConsensusResult)
      → tally lib eng r votes keys (some ids) rep ≡ ok res
      → (res.semantic_ack_count
          ≡ length
              (voters_where is_semantic (ballots_of lib r keys (some ids) votes).valid_by_voter))
        × (res.ack_threshold ≡ eng.ack_threshold)
        × (res.target_receipt_hash ≡ receipt_digest lib r)
  unfolding conclude summarise terms_of
  result_semantic eng r votes keys ids rep res h =
      let e = (tally-eq-ok lib eng r votes keys (some ids) rep h).1 in
      (
        ap (λ x. x.semantic_ack_count) e,
        ap (λ x. x.ack_threshold) e,
        ap (λ x. x.target_receipt_hash) e,
      )

  -- A command is released on a tally's result only if a full acceptance quorum of distinct peers of
  -- the roster, none of them the originator, each cast a vote among those tallied that says that it
  -- cross-checked this very receipt: votes that acknowledge without an observation do not count
  -- towards it, nor does a peer with a different vote among them that it signed over the receipt.
  pub release_needs_quorum :
      (k : ℕ) (eng : Engine) (r evidence : Receipt F) (votes : List SignedVote)
      (keys : Dict String (List ℕ)) (ids : List String) (rep : Option (ReputationStore F))
      (res : ConsensusResult) (n : ℕ) (requested : List F) (health : Health F) (now : ℤ)
      → init_engine k ≡ ok eng
      → tally lib eng r votes keys (some ids) rep ≡ ok res
      → (authorize lib n requested res health (some evidence) now).allowed ≡ true
      → (voters : List String) × (distinct voters ≡ true)
        × (ack_quorum k ≤ length voters)
        × ((v : String) → member v voters ≡ true → CrossCheck r evidence votes keys ids v)
  unfolding terms_of
  release_needs_quorum k eng r evidence votes keys ids rep res n requested health now made h
        allowed =
      let (positive, peers, at, dt) = init_engine-eq-ok k eng made in
      let (count, threshold, target) = result_semantic eng r votes keys ids rep res h in
      let b = ballots_of lib r keys (some ids) votes in
      elim (authorize-IsJustified lib n requested res health (some evidence) now) [
        | inl (held, _) ↦ absurd (ground arith)
        | inr (_, (r', found, j)) ↦ (
          voters_where is_semantic b.valid_by_voter,
          distinct-voters_where is_semantic b.valid_by_voter,
          omega (arith, j.cross_checked.1),
          λ v m.
              let (s, said, mine) = voter_cast lib r votes keys ids is_semantic v m in
              let aimed = mine.target in
              record {
                statement = s;
                cast = mine;
                decision = ground arith;
                reason = ground (arith, eq_iff s.vote.reason reason_ok);
                target = ground (arith, j.bound);
              },
        )
      ]
