-- ===== src/Tests/Swarm.antt =====
-- Tallies over the swarm of four drones, and the isolation of one of them.
use mathlib.Core.List.{Perm}
use mathlib.Core.List.Perm
use veri_swarm_flight.Base.{
  ◌+◌, ◌<◌, ◌≤◌, ◌≡◌, refl, true, false, Option, none, some, List, [], ◌∷◌, String, string_eq, ok,
  check_all, length,
}
use veri_swarm_flight.Base.Int.{ℤ, pos, int_beq}
use veri_swarm_flight.Base.Sets.{member, add, discard, distinct, of_list, subset, disjoint}
use veri_swarm_flight.Base.Dict.{get, set_item, delete, trim}
use veri_swarm_flight.Base.Text.{is_hex_text, decimal}
use veri_swarm_flight.Protocol.Receipt.{canonical, receipt_dict, receipt_digest}
use veri_swarm_flight.Protocol.Vote.{
  SignedVote, ack, dispute, canonical_vote, verify_vote, peer_vote_beq,
}
use veri_swarm_flight.Protocol.Consensus.{
  Outcome, was_accepted, was_rejected, no_quorum, ConsensusResult, Engine, init_engine,
  quorum_thresholds, check_roster, register_vote, voters_where, result_checks, construct_result,
  ReputationStore, ack_weighs, dispute_weighs, total, weight, ack_quorum, dispute_quorum,
  no_ballots,
}
use veri_swarm_flight.Protocol.Consensus.Tally.{
  Terms, counts, collect, decide, explain, summarise, conclude, terms_of, tally,
}
use veri_swarm_flight.Protocol.Consensus.Ballot.{
  silent, equivocal, summary, status, is_equivocal, vote_in, kept_vote, collect-summary,
  collect-perm,
}
use veri_swarm_flight.Protocol.Consensus.Agreement.{tally_quorum}
use veri_swarm_flight.Protocol.Consensus.Safety.{
  DoubleVoter, accept_reject_DoubleVoter, tally_total,
}
use veri_swarm_flight.Protocol.Consensus.Order.{conclude-perm}
use veri_swarm_flight.Protocol.Isolation.{
  Tracker, init_tracker, push_outcome, count_rejected, isolate, record_outcome,
}
use veri_swarm_flight.Protocol.Isolation.Laws.{IsConsistent}
use veri_swarm_flight.Protocol.Isolation.Honest.{
  record_run, NeverRejected-is_isolated, record_run-IsConsistent,
}
use veri_swarm_flight.Tests.Data.{
  whole, plain, drones, swarm_keys, receipt, acks, disputes, vote_of, digest_of-is_hex,
}

unfoldable pub program : Unit {0}
unfolding init_engine quorum_thresholds check_roster register_vote voters_where result_checks
    construct_result ack_weighs dispute_weighs total weight counts collect decide explain summarise
    conclude terms_of tally canonical receipt_dict receipt_digest canonical_vote verify_vote
    peer_vote_beq member add discard of_list int_beq subset disjoint get set_item delete is_hex_text
    decimal check_all init_tracker push_outcome count_rejected isolate record_outcome record_run
    trim summary status distinct
program = tt

abbrev pub engine : Engine
engine = record { num_peers = 3; ack_threshold = 3; dispute_threshold = 2 }

pub engine-ok : init_engine 3 ≡ ok engine
unfolding program
engine-ok = refl

abbrev trust : ReputationStore ℤ
trust = record { alpha = pos 1; beta = pos 1; r_min = pos 0; weights = [] }

abbrev pub decided : List SignedVote → ConsensusResult
decided votes =
    conclude plain engine none (terms_of plain receipt swarm_keys (some drones))
      (collect plain (terms_of plain receipt swarm_keys (some drones)) no_ballots votes)

pub accepts : tally plain engine receipt acks swarm_keys (some drones) none ≡ ok (decided acks)
unfolding program
accepts = refl

rejects : tally plain engine receipt disputes swarm_keys (some drones) none ≡ ok (decided disputes)
unfolding program
rejects = refl

accepted_outcome : (decided acks).outcome ≡ was_accepted
unfolding program
accepted_outcome = refl

rejected_outcome : (decided disputes).outcome ≡ was_rejected
unfolding program
rejected_outcome = refl

accept_reject_DoubleVoter_example : DoubleVoter plain receipt swarm_keys drones acks disputes
accept_reject_DoubleVoter_example =
    accept_reject_DoubleVoter plain 3 engine receipt swarm_keys drones acks disputes none none
      (decided acks) (decided disputes) engine-ok accepts rejects accepted_outcome rejected_outcome

tally_quorum_example :
    ((decided acks).outcome ≡ was_accepted
      → (ack_quorum 3 ≤ (decided acks).ack_count)
        × ((decided acks).dispute_count < dispute_quorum 3))
    × ((decided acks).outcome ≡ was_rejected
        → (dispute_quorum 3 ≤ (decided acks).dispute_count)
          × ((decided acks).ack_count < ack_quorum 3))
    × ((decided acks).ack_count + (decided acks).dispute_count + (decided acks).missing_count ≡ 3)
tally_quorum_example =
    tally_quorum plain 3 engine receipt acks swarm_keys drones none (decided acks) engine-ok accepts

a_enrolled : member receipt.drone_id (of_list drones) ≡ true
unfolding program
a_enrolled = refl

three_peers : length (discard receipt.drone_id (of_list drones)) ≡ 3
unfolding program
three_peers = refl

tally_total_example :
    (res : ConsensusResult) × (tally plain engine receipt acks swarm_keys (some drones) (some trust)
      ≡ ok res)
    × (res.target_receipt_hash ≡ receipt_digest plain receipt)
tally_total_example =
    tally_total plain 3 engine receipt acks swarm_keys drones (some trust) digest_of-is_hex
      engine-ok a_enrolled three_peers

-- Drone b signs both decisions, drone c an acknowledgement twice.
abbrev mixed : List SignedVote
mixed =
    vote_of "b" "signed by b" ack
    ∷ vote_of "c" "signed by c" ack
    ∷ vote_of "b" "signed by b" dispute
    ∷ vote_of "c" "signed by c" ack
    ∷ []

abbrev terms : Terms
terms = terms_of plain receipt swarm_keys (some drones)

b_equivocal : status (collect plain terms no_ballots mixed) "b" ≡ equivocal
unfolding program
b_equivocal = refl

collect-summary_example :
    let b = collect plain terms no_ballots mixed in
    let standing = summary plain terms "b" silent mixed in
    (member "b" b.equivocators ≡ is_equivocal standing)
    × (kept_vote (get "b" b.valid_by_voter) ≡ vote_in standing)
collect-summary_example = collect-summary plain terms mixed "b"

abbrev swapped : List SignedVote
swapped =
    vote_of "c" "signed by c" ack
    ∷ vote_of "b" "signed by b" ack
    ∷ vote_of "b" "signed by b" dispute
    ∷ vote_of "c" "signed by c" ack
    ∷ []

mixed-swapped : Perm mixed swapped
mixed-swapped = Perm.swap _ _ _

collect-perm_example :
    status (collect plain terms no_ballots mixed) "b"
    ≡ status (collect plain terms no_ballots swapped) "b"
collect-perm_example = collect-perm plain terms mixed swapped "b" mixed-swapped

abbrev tracker : Tracker ℤ
tracker = record {
  window = 2;
  alpha = pos 0;
  roster = of_list drones;
  isolated = [];
  history = [];
  events = [];
  round = pos 0;
}

tracker-ok : init_tracker drones 2 (pos 0) ≡ ok tracker
unfolding program
tracker-ok = refl

-- Drone b is rejected three times, drone c is accepted once and then misses its quorum.
abbrev rounds : List (String × Outcome × Option ℤ)
rounds =
    ("b", was_rejected, none)
    ∷ ("c", was_accepted, none)
    ∷ ("b", was_rejected, some (pos 7))
    ∷ ("c", no_quorum, none)
    ∷ ("b", was_rejected, none)
    ∷ []

b_isolated : member "b" (record_run tracker rounds).isolated ≡ true
unfolding program
b_isolated = refl

NeverRejected-is_isolated_example : member "c" (record_run tracker rounds).isolated ≡ false
NeverRejected-is_isolated_example =
    NeverRejected-is_isolated drones 2 (pos 0) tracker rounds "c" tracker-ok refl
      (refl, (refl, (refl, (refl, (refl, tt)))))

record_run-IsConsistent_example : IsConsistent (record_run tracker rounds)
record_run-IsConsistent_example = record_run-IsConsistent drones 2 (pos 0) tracker rounds tracker-ok

conclude-perm_example :
    (conclude plain engine none terms (collect plain terms no_ballots mixed)).outcome
    ≡ (conclude plain engine none terms (collect plain terms no_ballots swapped)).outcome
conclude-perm_example = (conclude-perm plain engine terms mixed swapped mixed-swapped).0
