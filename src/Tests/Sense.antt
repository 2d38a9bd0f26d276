-- ===== src/Tests/Sense.antt =====
-- Claims, clearances and the supervisor's gate.
use veri_swarm_flight.Base.{
  ◌≤◌, ◌≡◌, ◌≢◌, ◌↔◌, ◌⊎◌, refl, true, false, none, some, List, [], ◌∷◌, String, string_eq, arith,
  ok, check_all, length,
}
use veri_swarm_flight.Base.Int.{ℤ, pos, int_beq, ◌-ℤ◌, abs}
use veri_swarm_flight.Base.Sets.{member, distinct}
use veri_swarm_flight.Perception.Claim.{
  PerceptionClaim, ids_beq, sorted_set, claim_checks, construct_claim, compare_measured,
  compare_claims, claims_agree,
}
use veri_swarm_flight.Perception.Claim.Laws.{
  IsConsistent, construct_claim-IsConsistent, claims_agree_comm, compare_claims_blind_band,
}
use veri_swarm_flight.Perception.Depth.{FreeSpaceCheck, Envelope, judge_range, judge_range_safe}
use veri_swarm_flight.Perception.Supervisor.{
  Health, action_of, same_action, reasons_to_hold, first_reason, authorize, hold_action,
}
use veri_swarm_flight.Perception.Supervisor.Laws.{IsJustified, authorize-IsJustified}
use veri_swarm_flight.Perception.Supervisor.Quorum.{CrossCheck, release_needs_quorum}
use veri_swarm_flight.Protocol.Receipt.{Receipt}
use veri_swarm_flight.Protocol.Consensus.{ack_quorum}
use veri_swarm_flight.Tests.Data.{whole, plain, drones, swarm_keys, receipt, acks, seen_claim}
use veri_swarm_flight.Tests.Swarm.{engine, engine-ok, decided, accepts}
use veri_swarm_flight.Tests.Swarm

unfoldable pub program : Unit {0}
unfolding Swarm.program int_beq ids_beq check_all sorted_set claim_checks construct_claim
    compare_measured compare_claims claims_agree judge_range action_of same_action reasons_to_hold
    first_reason authorize ◌-ℤ◌
program = tt

construct_seen : construct_claim seen_claim ≡ ok seen_claim
unfolding program
construct_seen = refl

construct_claim-IsConsistent_example : (seen_claim ≡ seen_claim) × IsConsistent seen_claim
construct_claim-IsConsistent_example =
    construct_claim-IsConsistent seen_claim seen_claim construct_seen

abbrev empty_claim : PerceptionClaim ℤ
empty_claim = record {
  measured = true;
  detections_present = false;
  detection_count = pos 0;
  class_ids = [];
  occupancy = pos 0;
  max_confidence = pos 0;
  bearing = pos 0;
}

distance_comm : (x y : ℤ) → abs (x -ℤ y) ≡ abs (y -ℤ x)
unfolding ◌-ℤ◌
distance_comm x y = ground arith

claims_agree_comm_example :
    claims_agree (some seen_claim) (some empty_claim) (pos 1)
    ≡ claims_agree (some empty_claim) (some seen_claim) (pos 1)
claims_agree_comm_example =
    claims_agree_comm (some seen_claim) (some empty_claim) (pos 1) distance_comm

compare_claims_blind_band_example :
    (true ≡ true
      → true ≡ true
      → true ≢ false
      → compare_claims (some seen_claim) (some empty_claim) (pos 1) ≡ some false)
    × (compare_claims (some seen_claim) (some empty_claim) (pos 1) ≡ some true
        → (true ≡ true) × (true ≡ true) × (true ≡ false))
compare_claims_blind_band_example = compare_claims_blind_band seen_claim empty_claim (pos 1)

abbrev pub envelope : Envelope ℤ
envelope = record {
  max_speed_mps = pos 2;
  stop_margin_m = pos 1;
  current_speed_mps = some (pos 1);
  reaction_time_s = pos 1;
  max_decel_mps2 = pos 1;
  min_valid_m = pos 1;
  max_valid_m = pos 20;
}

judge_range_safe_example :
    ((judge_range (pos 1) (some (pos 8)) envelope (pos 5)).safe_to_proceed ≡ true) ↔ (
      (m : ℤ) × (some (pos 8) ≡ some m)
      × (true ≡ true)
      × (whole.le (pos 1) m ≡ true)
      × (whole.le m (pos 20) ≡ true)
      × (whole.le (pos 5) m ≡ true))
judge_range_safe_example = judge_range_safe (pos 1) (some (pos 8)) envelope (pos 5)

abbrev clearance : FreeSpaceCheck ℤ
clearance = judge_range (pos 1) (some (pos 8)) envelope (pos 5)

abbrev health : Health ℤ
health = record {
  forward_clearance = some clearance;
  perception_healthy = true;
  state_estimate_healthy = true;
  geofence_clear = true;
  autopilot_guard_healthy = true;
  all_axis_clearance_confirmed = false;
  operator_abort = false;
}

abbrev pub forward : List ℤ
forward = pos 1 ∷ pos 0 ∷ pos 0 ∷ []

released :
    (authorize plain 2 forward (decided acks) health (some receipt) (pos 1500)).allowed ≡ true
unfolding program
released = refl

authorize-IsJustified_example :
    let a = authorize plain 2 forward (decided acks) health (some receipt) (pos 1500) in
    ((a.allowed ≡ false) × (a.action ≡ hold_action))
    ⊎ ((a.allowed ≡ true)
        × ((r : Receipt ℤ) × (some receipt ≡ some r)
            × IsJustified plain 2 forward (decided acks) health r (pos 1500) a.action))
authorize-IsJustified_example =
    authorize-IsJustified plain 2 forward (decided acks) health (some receipt) (pos 1500)

release_needs_quorum_example :
    (voters : List String) × (distinct voters ≡ true)
    × (ack_quorum 3 ≤ length voters)
    × ((v : String)
        → member v voters ≡ true
        → CrossCheck plain receipt receipt acks swarm_keys drones v)
release_needs_quorum_example =
    release_needs_quorum plain 3 engine receipt receipt acks swarm_keys drones none (decided acks) 2
      forward health (pos 1500) engine-ok accepts released
