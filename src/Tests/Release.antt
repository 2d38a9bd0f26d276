-- ===== src/Tests/Release.antt =====
-- A label on the outcome of a tally, and a command that is released.
use veri_swarm_flight.Base.{
  ◌≡◌, ◌↔◌, ◌⊎◌, refl, true, false, none, some, [], ◌∷◌, string_eq, ok, raise, overflow_error,
}
use veri_swarm_flight.Base.Int.{ℤ, pos, negsuc}
use veri_swarm_flight.Protocol.Receipt.{receipt_digest}
use veri_swarm_flight.Protocol.Consensus.{was_rejected}
use veri_swarm_flight.Rescue.Bridge.{
  SecurityAssessment, Assurance, integrity_failures, warnings, label, label_outcome,
  assess_consensus_security,
}
use veri_swarm_flight.Rescue.Bridge.Label.{
  IsVerified, is_sound, assess-states, Backing, verified_label-Backing,
}
use veri_swarm_flight.Rescue.Movement.{sort_texts, insert_text}
use veri_swarm_flight.Rescue.Gate.{
  amount, huge, Command, MovementContract, finite_number, outside_limit, too_close, outside_bounds,
  check_speeds, after_finite, coordinates, check_bounds, check_geofence, check_target,
  command_limit_failure, gate, evaluate_movement_command, released_command,
}
use veri_swarm_flight.Rescue.Gate.Permit.{IsPermitted, released-IsPermitted}
use veri_swarm_flight.Tests.Data.{whole, plain, zeros, drones, swarm_keys, receipt, acks}
use veri_swarm_flight.Tests.Swarm.{program as swarm, engine, decided, accepts}
use veri_swarm_flight.Tests.Search.{program as search, contract, order}

program : Unit {0}
unfolding swarm search integrity_failures warnings label label_outcome assess_consensus_security
    sort_texts insert_text finite_number outside_limit too_close outside_bounds check_speeds
    after_finite coordinates check_bounds check_geofence check_target command_limit_failure gate
    evaluate_movement_command
program = tt

abbrev evidence : Assurance
evidence = record {
  expected_receipt_hash = zeros;
  receipt_verified = true;
  model_approved = true;
  runtime_approved = true;
  min_semantic_acks = pos 2;
}

abbrev verified : SecurityAssessment
verified = record { state = "VERIFIED"; reasons = [] }

verifies : assess_consensus_security (decided acks) evidence ≡ ok verified
unfolding program
verifies = refl

assess-states_example :
    ((verified.state ≡ "VERIFIED") ↔ IsVerified (decided acks) evidence)
    × ((verified.state ≡ "DISPUTED")
        ↔ (is_sound (decided acks) evidence ≡ false ⊎ (decided acks).outcome ≡ was_rejected))
assess-states_example = assess-states (decided acks) evidence verified verifies

verified_label-Backing_example :
    (evidence.expected_receipt_hash ≡ receipt_digest plain receipt)
    × Backing plain receipt swarm_keys drones (pos 2)
verified_label-Backing_example =
    verified_label-Backing plain engine receipt acks swarm_keys drones none (decided acks) evidence
      verified accepts verifies refl

abbrev moving : ℤ → Command ℤ
moving speed = record {
  numbers =
      ("horizontal_velocity_mps", amount speed)
      ∷ ("vertical_velocity_mps", amount (pos 1))
      ∷ ("horizontal_acceleration_mps2", amount (pos 1))
      ∷ ("vertical_acceleration_mps2", amount (pos 0))
      ∷ ("minimum_pairwise_separation_m", amount (pos 6))
      ∷ [];
  target_position_ned = some (amount (pos 3) ∷ amount (pos 4) ∷ amount (negsuc 9) ∷ []);
}

abbrev movement : MovementContract ℤ
movement = record {
  base = contract;
  command_limits = some (record {
    numbers = (moving (pos 5)).numbers;
    enroute_geofence_ned_m = some (
        ("x_min", amount (pos 0))
        ∷ ("x_max", amount (pos 9))
        ∷ ("y_min", amount (pos 0))
        ∷ ("y_max", amount (pos 9))
        ∷ ("z_min", amount (negsuc 20))
        ∷ ("z_max", amount (negsuc 4))
        ∷ []);
  });
}

releases :
    evaluate_movement_command movement "v1" (some order) (some (moving (pos 5))) (pos 1000) true
    ≡ ok (released_command "clear")
unfolding program
releases = refl

released-IsPermitted_example :
    IsPermitted movement "v1" (some order) (some (moving (pos 5))) (pos 1000)
released-IsPermitted_example =
    released-IsPermitted movement "v1" (some order) (some (moving (pos 5))) (pos 1000) true
      (released_command "clear") releases refl

-- A speed that is no float raises where every other malformed number is held.
abbrev endless : Command ℤ
endless = record { numbers = ("horizontal_velocity_mps", huge) ∷ []; target_position_ned = none }

endless_raises :
    evaluate_movement_command movement "v1" (some order) (some endless) (pos 1000) true
    ≡ raise (overflow_error "int too large to convert to float")
unfolding program
endless_raises = refl
