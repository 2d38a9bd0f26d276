-- ===== src/Perception/Supervisor/Laws.antt =====
-- codebase/perception/safety_supervisor.py: what a released command rests on.
use veri_swarm_flight.Base.{
  ℕ, ◌≤◌, ◌≡◌, ◌⊎◌, refl, inl, inr, Bool, true, false, Option, none, some, List, [], ◌∷◌, String,
  string_eq, arith, eq_iff, Option-cases, AllPassed,
}
use veri_swarm_flight.Base.Int.{ℤ, pos, ◌-ℤ◌, ◌≤ℤ◌}
use veri_swarm_flight.Base.Floats.{Floats, float}
use veri_swarm_flight.Protocol.Json.{Library}
use veri_swarm_flight.Protocol.Receipt.{Receipt, receipt_digest}
use veri_swarm_flight.Protocol.Consensus.{was_accepted, ConsensusResult}
use veri_swarm_flight.Perception.Supervisor.{
  Action, Health, first_reason, hold_action, action_of, same_action, clearance_proven, leaves_axis,
  reasons_to_hold, authorize,
}

first_reason-AllPassed :
    (checks : List (Bool × String)) → first_reason checks ≡ none → AllPassed checks
unfolding first_reason
first_reason-AllPassed [] h = tt
first_reason-AllPassed ((true, reason) ∷ rest) h = cc
first_reason-AllPassed ((false, reason) ∷ rest) h = (refl, first_reason-AllPassed rest h)

module _ {F B : Type 0} ⦃fl : Floats F⦄ (lib : Library F B) where
  -- What a released command rests on.
  pub record IsJustified (min_semantic_acks : ℕ) (requested : List F) (consensus : ConsensusResult)
      (health : Health F) (receipt : Receipt F) (now : ℤ) (action : Action F) : Type 0 where
    pub requested_action : action_of requested ≡ some action
    pub bound : consensus.target_receipt_hash ≡ receipt_digest lib receipt
    pub command : same_action action receipt.output ≡ true
    pub observed : receipt.perception.measured ≡ true
    pub fresh :
        (pos 0 ≤ℤ now -ℤ receipt.timestamp_ns)
        × (now -ℤ receipt.timestamp_ns ≤ℤ receipt.valid_for_ns)
    pub healthy :
        (health.operator_abort ≡ false)
        × (health.autopilot_guard_healthy ≡ true)
        × (health.state_estimate_healthy ≡ true)
        × (health.perception_healthy ≡ true)
        × (health.geofence_clear ≡ true)
    pub decided : consensus.outcome ≡ was_accepted
    pub cross_checked :
        (min_semantic_acks ≤ consensus.semantic_ack_count)
        × (consensus.ack_threshold ≤ consensus.semantic_ack_count)
    pub clear_ahead :
        fl.lt (float 0) action.0 ≡ true → clearance_proven health.forward_clearance ≡ true
    pub clear_around : leaves_axis action ≡ true → health.all_axis_clearance_confirmed ≡ true

  reasons_to_hold-IsJustified :
      (n : ℕ) (requested : List F) (c : ConsensusResult) (h : Health F) (r : Receipt F) (now : ℤ)
      (action : Action F)
      → action_of requested ≡ some action
      → AllPassed (reasons_to_hold lib n action c h r now)
      → IsJustified n requested c h r now action
  unfolding reasons_to_hold
  reasons_to_hold-IsJustified n requested c h r now action e passed = record {
    requested_action = e;
    bound = ground (arith, eq_iff c.target_receipt_hash (receipt_digest lib r), passed.0);
    command = ground (arith, passed.1.0);
    observed = ground (arith, passed.1.1.0);
    fresh = (ground arith, ground arith);
    healthy = (ground arith, ground arith, ground arith, ground arith, ground arith);
    decided = ground arith;
    cross_checked = (ground arith, ground arith);
    clear_ahead = λ p. ground arith;
    clear_around = λ p. ground arith;
  }

  -- The gate fails closed. A call that does not allow a command returns the hold action. One that
  -- allows it returns exactly the action that `_action` makes of the request, and only with the
  -- evidence: the consensus is an acceptance about this very receipt, as many voters as its
  -- threshold and the supervisor's own minimum cross-checked the scene, the command is the signed
  -- output of the receipt, whose claim is measured and whose validity has not run out, every
  -- health input is good, the way ahead is measured clear for forward motion, and all axes are
  -- confirmed clear for any other motion.
  pub authorize-IsJustified :
      (n : ℕ) (requested : List F) (c : ConsensusResult) (h : Health F)
      (evidence : Option (Receipt F)) (now : ℤ)
      → let a = authorize lib n requested c h evidence now in
        ((a.allowed ≡ false) × (a.action ≡ hold_action))
        ⊎ ((a.allowed ≡ true)
            × ((r : Receipt F) × (evidence ≡ some r) × IsJustified n requested c h r now a.action))
  unfolding authorize
  authorize-IsJustified n requested c h evidence now = elim (Option-cases (action_of requested)) [
    | inl malformed ↦ rw (malformed, authorize) (inl (refl, refl))
    | inr (action, e) ↦ elim (Option-cases evidence) [
      | inl missing ↦ rw (e, missing, authorize) (inl (refl, refl))
      | inr (r, found) ↦
          elim (Option-cases (first_reason (reasons_to_hold lib n action c h r now))) [
            | inr (reason, held) ↦ rw (e, found, held, authorize) (inl (refl, refl))
            | inl clear ↦
                rw (e, found, clear, authorize)
                  (inr (
                    refl,
                    (
                      r,
                      refl,
                      reasons_to_hold-IsJustified n requested c h r now action e
                          (first_reason-AllPassed _ clear),
                    ),
                  ))
          ]
    ]
  ]
