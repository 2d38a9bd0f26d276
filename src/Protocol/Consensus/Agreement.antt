-- ===== src/Protocol/Consensus/Agreement.antt =====
-- codebase/protocol/peer_consensus.py: what the decisions of `ConsensusEngine.tally` guarantee.
use veri_swarm_flight.Base.{
  ℕ, ◌+◌, ◌-◌, ◌≤◌, ◌<◌, ◌≡◌, refl, subst, sym, true, Option, some, List, String, string_eq, arith,
  Result, ok, raise, ◌>>◌, length, check_all-AllPassed, checked-eq-ok,
}
use veri_swarm_flight.Base.Sets.{member, of_list}
use veri_swarm_flight.Base.Dict.{Dict}
use veri_swarm_flight.Base.Floats.{Floats}
use veri_swarm_flight.Protocol.Json.{Library}
use veri_swarm_flight.Protocol.Receipt.{Receipt}
use veri_swarm_flight.Protocol.Vote.{SignedVote}
use veri_swarm_flight.Protocol.Consensus.{
  was_accepted, was_rejected, ConsensusResult, construct_result, ack_quorum, dispute_quorum,
  Ballots, no_ballots, voters_where, is_ack, is_dispute, peers_of, ReputationStore, Engine,
  init_engine, quorum_thresholds, check_roster,
}
use veri_swarm_flight.Protocol.Consensus.Tally.{
  collect, decide, summarise, conclude, terms_of, tally, expected_votes,
}
use veri_swarm_flight.Protocol.Consensus.Count.{votes-IsTidy, counted-le-peers}

-- The two quorums of one engine cannot be met by fewer voters than there are peers and one more.
pub quorum_sum : (k : ℕ) → k < ack_quorum k + dispute_quorum k
quorum_sum k = omega arith

pub init_engine-eq-ok :
    (k : ℕ) (eng : Engine)
    → init_engine k ≡ ok eng
    → (1 ≤ k)
      × (eng.num_peers ≡ k)
      × (eng.ack_threshold ≡ ack_quorum k)
      × (eng.dispute_threshold ≡ dispute_quorum k)
unfolding init_engine quorum_thresholds
init_engine-eq-ok k eng h = (ground arith, ground arith, ground arith, ground arith)

pub check_roster-eq-ok :
    (eng : Engine) (roster : List String) (originator : String)
    → check_roster eng (some roster) originator ≡ ok tt
    → (member originator roster ≡ true) × (length (peers_of roster originator) ≡ eng.num_peers)
unfolding check_roster
check_roster-eq-ok eng roster originator h =
    let passed = check_all-AllPassed _ h in (ground arith, ground arith)

>>-eq-ok :
    (m : Result (Unit {0})) (k : Result ConsensusResult) {r : ConsensusResult}
    → (m >> k) ≡ ok r
    → (m ≡ ok tt) × (k ≡ ok r)
>>-eq-ok (ok tt) k h = (refl, h)
>>-eq-ok (raise e) k h = cc

module _ {F B : Type 0} (lib : Library F B) ⦃fl : Floats F⦄ where
  -- The counted ballots of a tally.
  abbrev pub ballots_of :
      Receipt F → Dict String (List ℕ) → Option (List String) → List SignedVote → Ballots
  ballots_of r keys expected votes = collect lib (terms_of lib r keys expected) no_ballots votes

  pub tally-eq-ok :
      (eng : Engine) (r : Receipt F) (votes : List SignedVote) (keys : Dict String (List ℕ))
      (expected : Option (List String)) (rep : Option (ReputationStore F)) {res : ConsensusResult}
      → tally lib eng r votes keys expected rep ≡ ok res
      → (check_roster eng (terms_of lib r keys expected).roster r.drone_id ≡ ok tt)
        × (res
            ≡ conclude lib eng rep
                (terms_of lib r keys expected)
                (ballots_of r keys expected votes))
  unfolding tally construct_result terms_of
  tally-eq-ok eng r votes keys expected rep h =
      let (roster, rest) = >>-eq-ok _ _ h in
      let (reputation, made) = >>-eq-ok _ _ rest in (roster, (checked-eq-ok _ _ _ made).1)

  module _ (eng : Engine) (r : Receipt F) (keys : Dict String (List ℕ))
      (expected : Option (List String)) (votes : List SignedVote)
      (rep : Option (ReputationStore F)) where
    abbrev pub acks : List String
    acks = voters_where is_ack (ballots_of r keys expected votes).valid_by_voter

    abbrev pub disputes : List String
    disputes = voters_where is_dispute (ballots_of r keys expected votes).valid_by_voter

    abbrev pub concluded : ConsensusResult
    concluded =
        conclude lib eng rep (terms_of lib r keys expected) (ballots_of r keys expected votes)

    pub conclude_quorum :
        (concluded.outcome ≡ was_accepted → eng.ack_threshold ≤ length acks)
        × (concluded.outcome ≡ was_rejected → eng.dispute_threshold ≤ length disputes)
    unfolding conclude summarise decide
    conclude_quorum = (λ h. ground arith, λ h. ground arith)

    pub conclude_counts :
        (concluded.ack_count ≡ length acks)
        × (concluded.dispute_count ≡ length disputes)
        × (concluded.ack_voter_ids ≡ acks)
        × (concluded.dispute_voter_ids ≡ disputes)
        × (concluded.missing_count
            ≡ expected_votes eng (terms_of lib r keys expected) - length acks - length disputes)
    unfolding conclude summarise
    conclude_counts = (refl, refl, refl, refl, refl)

  -- The numbers behind a result over a roster.
  pub record Numbers (k : ℕ) (res : ConsensusResult) : Type 0 where
    accepts : res.outcome ≡ was_accepted → ack_quorum k ≤ res.ack_count
    rejects : res.outcome ≡ was_rejected → dispute_quorum k ≤ res.dispute_count
    within : res.ack_count + res.dispute_count ≤ k
    missing : res.missing_count ≡ k - res.ack_count - res.dispute_count

  tally-Numbers :
      (k : ℕ) (eng : Engine) (r : Receipt F) (votes : List SignedVote) (keys : Dict String (List ℕ))
      (ids : List String) (rep : Option (ReputationStore F)) (res : ConsensusResult)
      → init_engine k ≡ ok eng
      → tally lib eng r votes keys (some ids) rep ≡ ok res
      → Numbers k res
  unfolding terms_of
  tally-Numbers k eng r votes keys ids rep res made h =
      let (roster, e) = tally-eq-ok eng r votes keys (some ids) rep h in
      let (origin, size) = check_roster-eq-ok eng (of_list ids) r.drone_id roster in
      let b = ballots_of r keys (some ids) votes in
      let t = terms_of lib r keys (some ids) in
      let fits = counted-le-peers lib t b (votes-IsTidy lib t votes) (of_list ids) refl in
      let (positive, peers, at, dt) = init_engine-eq-ok k eng made in
      let (accepts, rejects) = conclude_quorum eng r keys (some ids) votes rep in
      let (ac, dc, as', ds, mc) = conclude_counts eng r keys (some ids) votes rep in
      subst (Numbers k) (sym e) (record {
        accepts = λ o. omega (arith, accepts o);
        rejects = λ o. omega (arith, rejects o);
        within = omega arith;
        missing = omega arith;
      })

  -- Reputation never creates a decision: whatever the weights, an accepted result has the integer
  -- quorum of acknowledging voters and less than that of disputing ones, and a rejected result the
  -- other way round; every expected peer is counted once, as acknowledging, disputing or missing.
  pub tally_quorum :
      (k : ℕ) (eng : Engine) (r : Receipt F) (votes : List SignedVote) (keys : Dict String (List ℕ))
      (ids : List String) (rep : Option (ReputationStore F)) (res : ConsensusResult)
      → init_engine k ≡ ok eng
      → tally lib eng r votes keys (some ids) rep ≡ ok res
      → (res.outcome ≡ was_accepted
          → (ack_quorum k ≤ res.ack_count) × (res.dispute_count < dispute_quorum k))
        × (res.outcome ≡ was_rejected
            → (dispute_quorum k ≤ res.dispute_count) × (res.ack_count < ack_quorum k))
        × (res.ack_count + res.dispute_count + res.missing_count ≡ k)
  tally_quorum k eng r votes keys ids rep res made h =
      let n = tally-Numbers k eng r votes keys ids rep res made h in
      (
        λ o. (n.accepts o, omega (arith, n.accepts o, n.within)),
        λ o. (n.rejects o, omega (arith, n.rejects o, n.within)),
        omega (arith, n.within, n.missing),
      )
