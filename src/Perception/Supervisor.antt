-- ===== src/Perception/Supervisor.antt =====
-- codebase/perception/safety_supervisor.py: the gate that releases a command. The clock is an
-- argument; the checks of Python types hold by the types of the arguments.
pub mod Laws
pub mod Quorum
use veri_swarm_flight.Base.{
  ℕ, ◌≡◌, Bool, true, false, not, ◌&&◌, ◌||◌, Option, none, some, List, [], ◌∷◌, String, string_eq,
  ◌==◌, ◌!=◌, if◌then◌else◌, ltb, Result, ok, raise, value_error,
}
use veri_swarm_flight.Base.Int.{ℤ, pos, ltb_ℤ, ◌-ℤ◌}
use veri_swarm_flight.Base.Text.{concat}
use veri_swarm_flight.Base.Floats.{Floats, float, minus_one}
use veri_swarm_flight.Perception.Claim.{outside}
use veri_swarm_flight.Perception.Depth.{FreeSpaceCheck}
use veri_swarm_flight.Protocol.Json.{Library}
use veri_swarm_flight.Protocol.Receipt.{Receipt, receipt_digest}
use veri_swarm_flight.Protocol.Consensus.{
  Outcome, was_accepted, was_rejected, no_quorum, is_accepted, ConsensusResult,
}

abbrev pub Action : Type 0 → Type 0
Action F = F × F × F

pub record Authorization (F : Type 0) : Type 0 where
  pub allowed : Bool
  pub action : Action F
  pub reason : String

-- The independent evidence of one call.
pub record Health (F : Type 0) : Type 0 where
  pub forward_clearance : Option (FreeSpaceCheck F)
  pub perception_healthy : Bool
  pub state_estimate_healthy : Bool
  pub geofence_clear : Bool
  pub autopilot_guard_healthy : Bool
  pub all_axis_clearance_confirmed : Bool
  pub operator_abort : Bool

-- `SafetySupervisor.__init__`: the number of semantic acknowledgements that is required.
unfoldable pub init_supervisor : ℕ → Result ℕ
init_supervisor n = if ltb n 1 then raise (value_error "min_semantic_acks must be >= 1") else ok n

-- `consensus.outcome.value.lower()`.
abbrev pub outcome_name : Outcome → String
outcome_name was_accepted = "accepted"
outcome_name was_rejected = "rejected"
outcome_name no_quorum = "no_quorum"

-- `max(a, b)`.
abbrev pub larger : ℕ → ℕ → ℕ
larger a b = if ltb a b then b else a

-- The first reason that applies.
unfoldable pub first_reason : List (Bool × String) → Option String
first_reason [] = none
first_reason ((bad, reason) ∷ rest) = if bad then some reason else first_reason rest

module _ {F : Type 0} ⦃fl : Floats F⦄ where
  abbrev pub hold_action : Action F
  hold_action = (float 0, float 0, float 0)

  abbrev pub in_range : F → Bool
  in_range x = fl.is_finite x && not (outside minus_one (float 1) x)

  -- `SafetySupervisor._action`: `none` where it raises.
  unfoldable pub action_of : List F → Option (Action F)
  action_of (x ∷ y ∷ z ∷ []) =
      if in_range x && in_range y && in_range z then some (x, y, z) else none
  action_of other = none

  -- `action == tuple(output)`.
  unfoldable pub same_action : Action F → List F → Bool
  same_action (x, y, z) (a ∷ b ∷ c ∷ []) = fl.eq x a && fl.eq y b && fl.eq z c
  same_action action other = false

  -- `isinstance(clearance, FreeSpaceCheck) and clearance.safe_to_proceed`.
  abbrev pub clearance_proven : Option (FreeSpaceCheck F) → Bool
  clearance_proven none = false
  clearance_proven (some c) = c.safe_to_proceed

  -- The requests that move other than straight ahead.
  abbrev pub leaves_axis : Action F → Bool
  leaves_axis a = fl.lt a.0 (float 0) || not (fl.eq a.1 (float 0)) || not (fl.eq a.2 (float 0))

  module _ {B : Type 0} (lib : Library F B) where
    -- The reasons to hold, in order.
    unfoldable pub reasons_to_hold :
        ℕ → Action F → ConsensusResult → Health F → Receipt F → ℤ → List (Bool × String)
    reasons_to_hold min_semantic_acks action consensus health receipt now =
        let age = now -ℤ receipt.timestamp_ns in
        (
          consensus.target_receipt_hash == ""
              || not (consensus.target_receipt_hash == receipt_digest lib receipt),
          "consensus_receipt_mismatch",
        )
        ∷ (not (same_action action receipt.output), "evidence_command_mismatch")
        ∷ (not receipt.perception.measured, "perception_claim_missing")
        ∷ (ltb_ℤ age (pos 0) || ltb_ℤ receipt.valid_for_ns age, "command_expired")
        ∷ (health.operator_abort, "operator_abort")
        ∷ (not health.autopilot_guard_healthy, "autopilot_guard_unhealthy")
        ∷ (not health.state_estimate_healthy, "state_estimate_unhealthy")
        ∷ (not health.perception_healthy, "perception_unhealthy")
        ∷ (not health.geofence_clear, "geofence_blocked")
        ∷ (
          not (is_accepted consensus.outcome),
          concat "consensus_" (outcome_name consensus.outcome),
        )
        ∷ (
          ltb consensus.semantic_ack_count (larger min_semantic_acks consensus.ack_threshold),
          "semantic_quorum_missing",
        )
        ∷ (
          fl.lt (float 0) action.0 && not (clearance_proven health.forward_clearance),
          "forward_clearance_unproven",
        )
        ∷ (
          leaves_axis action && not health.all_axis_clearance_confirmed,
          "all_axis_clearance_unproven",
        )
        ∷ []

    abbrev pub hold : String → Authorization F
    hold reason = record { allowed = false; action = hold_action; reason = reason }

    -- `SafetySupervisor.authorize`.
    unfoldable pub authorize :
        ℕ → List F → ConsensusResult → Health F → Option (Receipt F) → ℤ → Authorization F
    authorize min_semantic_acks requested consensus health evidence now =
        elim (action_of requested) [
          | none ↦ hold "invalid_action"
          | some action ↦ elim evidence [
            | none ↦ hold "evidence_receipt_missing"
            | some receipt ↦
                elim (first_reason
                  (reasons_to_hold min_semantic_acks action consensus health receipt now)) [
                    | some reason ↦ hold reason
                    | none ↦ record { allowed = true; action = action; reason = "authorized" }
                  ]
          ]
        ]
