-- ===== src/Tests/Round.antt =====
-- One step of a mission that is released, and one whose node the manifest does not name.
use veri_swarm_flight.Base.{
  ◌≡◌, refl, true, false, some, [], ◌∷◌, String, Result, ok, raise, key_error,
}
use veri_swarm_flight.Base.Int.{ℤ, pos, ◌+ℤ◌}
use veri_swarm_flight.Perception.Depth.{
  check_free_space, required_clearance, clearance_checks, stopping_distance,
}
use veri_swarm_flight.Perception.Supervisor.{Authorization}
use veri_swarm_flight.Node.Mission.{
  Supplies, sense, clear_ahead_of, originate_round, hold_round, release, attest, measure, perceive,
  step_round,
}
use veri_swarm_flight.Node.Mission.Commands.{commands, Guarded}
use veri_swarm_flight.Node.Mission.Guard.{step_round-Guarded}
use veri_swarm_flight.Tests.Data.{whole, plain, receipt, acks, seen_claim}
use veri_swarm_flight.Tests.Swarm.{decided}
use veri_swarm_flight.Tests.Sense.{program as scene, envelope, forward}

program : Unit {0}
unfolding scene check_free_space required_clearance clearance_checks stopping_distance sense
    clear_ahead_of originate_round hold_round release attest measure perceive step_round ◌+ℤ◌
program = tt

abbrev supplies : Result String → Supplies ℤ String String
supplies backend = record {
  frame = ok (some "frame");
  health = ok (record {
    perception_healthy = true;
    state_estimate_healthy = true;
    geofence_clear = true;
    autopilot_guard_healthy = true;
    all_axis_clearance_confirmed = false;
    current_speed_mps = pos 1;
    pose_uncertainty_m = pos 0;
  });
  inference = λ frame. ok (some (record { action = forward; claim = seen_claim }));
  depth = ok (some (pos 18));
  pose = ok (some "pose");
  originate = λ action frame pose uncertainty claim.
      ok (record { consensus = decided acks; receipt = receipt; completed_at_ns = pos 1500 });
  backend = backend;
}

abbrev executed : Authorization ℤ
executed = record { allowed = true; action = (pos 1, pos 0, pos 0); reason = "authorized" }

one_command :
    commands (step_round plain envelope 2 (supplies (ok "software")) 1).effects
    ≡ ((pos 1, pos 0, pos 0), executed) ∷ []
unfolding program
one_command = refl

-- The node is missing in the manifest: an authorized step sends nothing, not even a hold.
no_command :
    (step_round plain envelope 2 (supplies (raise (key_error "n9"))) 1).result
    ≡ raise (key_error "n9")
unfolding program
no_command = refl

step_round-Guarded_example :
    Guarded plain envelope 2
      (supplies (ok "software"))
      (step_round plain envelope 2 (supplies (ok "software")) 1)
step_round-Guarded_example = step_round-Guarded plain envelope 2 (supplies (ok "software")) 1
