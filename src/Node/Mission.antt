-- ===== src/Node/Mission.antt =====
-- codebase/node/mission.py: one step of `MissionRunner`. What the runner is given from outside, the
-- source of frames, the detector, the health provider and the originator, is the record `Supplies` of
-- its answers in this step; what it does to the outside is the list of its effects.
pub mod Commands
pub mod Guard
use veri_swarm_flight.Base.{
  ℕ, suc, Bool, true, false, not, ◌&&◌, ◌||◌, Option, none, some, List, [], ◌∷◌, ◌++◌, String,
  string_eq, if◌then◌else◌, Result, ok, raise, Error, value_error, type_error, key_error,
  overflow_error, attribute_error, runtime_error, ◌>>=◌, ◌>>◌, check_all, eqb, length, all,
}
use veri_swarm_flight.Base.Int.{ℤ}
use veri_swarm_flight.Base.Text.{concat}
use veri_swarm_flight.Base.Floats.{Floats, float}
use veri_swarm_flight.Perception.Claim.{PerceptionClaim}
use veri_swarm_flight.Perception.Detector.{PerceptionResult}
use veri_swarm_flight.Perception.Depth.{FreeSpaceCheck, Envelope, check_free_space}
use veri_swarm_flight.Perception.Supervisor.{
  Action, Authorization, Health, hold_action, in_range, outcome_name, authorize,
}
use veri_swarm_flight.Protocol.Json.{Library}
use veri_swarm_flight.Protocol.Receipt.{Receipt}
use veri_swarm_flight.Protocol.Consensus.{
  Outcome, was_accepted, was_rejected, no_quorum, ConsensusResult,
}

pub record HealthState (F : Type 0) : Type 0 where
  pub perception_healthy : Bool
  pub state_estimate_healthy : Bool
  pub geofence_clear : Bool
  pub autopilot_guard_healthy : Bool
  pub all_axis_clearance_confirmed : Bool
  pub current_speed_mps : F
  pub pose_uncertainty_m : F

-- The parts of `RoundOutcome` that the step reads.
pub record RoundOutcome (F : Type 0) : Type 0 where
  pub consensus : ConsensusResult
  pub receipt : Receipt F
  pub completed_at_ns : ℤ

pub record MissionStep (F : Type 0) : Type 0 where
  pub round_index : ℕ
  pub requested_action : List F
  pub authorization : Authorization F
  pub round_outcome : Option (RoundOutcome F)

-- The answers of one step: `source.read()`, `health_provider()`, `inference(frame)`, which is `none`
-- if it is no `PerceptionResult`, the range that `source.depth()` gives, `source.pose()`,
-- `originate` of the action, the frame, the pose, its uncertainty and the claim, and the backend
-- that the manifest names.
pub record Supplies (F A P : Type 0) : Type 0 where
  pub frame : Result (Option A)
  pub health : Result (HealthState F)
  pub inference : A → Result (Option (PerceptionResult F))
  pub depth : Result (Option F)
  pub pose : Result (Option P)
  pub originate : List F → A → Option P → F → PerceptionClaim F → Result (RoundOutcome F)
  pub backend : Result String

-- The calls of `events` and of `command_sink`.
pub data Effect (F : Type 0) : Type 0 where
  round_start : ℕ → Effect F
  round_end : ℕ → Bool → Effect F
  log : String → Effect F
  depth_event : FreeSpaceCheck F → Effect F
  receipt_event : List F → String → Effect F
  verdict_event : ConsensusResult → Effect F
  safe_action : String → String → ℕ → String → Effect F
  command : Action F → Authorization F → Effect F

-- `type(exc).__name__`.
abbrev pub error_name : Error → String
error_name (value_error m) = "ValueError"
error_name (type_error m) = "TypeError"
error_name (key_error m) = "KeyError"
error_name (overflow_error m) = "OverflowError"
error_name (attribute_error m) = "AttributeError"
error_name (runtime_error m) = "RuntimeError"

-- `consensus.outcome.value`.
abbrev pub outcome_value : Outcome → String
outcome_value was_accepted = "ACCEPTED"
outcome_value was_rejected = "REJECTED"
outcome_value no_quorum = "NO_QUORUM"

-- What a step did, and what it returned.
pub record Step (F : Type 0) : Type 0 where
  pub effects : List (Effect F)
  pub result : Result (MissionStep F)

module _ {F : Type 0} ⦃fl : Floats F⦄ where
  unfoldable pub health_checks : HealthState F → List (Bool × String)
  health_checks h =
      (
        not (fl.is_finite h.current_speed_mps) || fl.lt h.current_speed_mps (float 0),
        "current_speed_mps must be finite and non-negative",
      )
      ∷ (
        not (fl.is_finite h.pose_uncertainty_m) || fl.lt h.pose_uncertainty_m (float 0),
        "pose_uncertainty_m must be finite and non-negative",
      )
      ∷ []

  -- `HealthState.__post_init__`.
  unfoldable pub construct_health : HealthState F → Result (HealthState F)
  unfolding health_checks
  construct_health h = check_all (health_checks h) >> ok h

  abbrev pub held_authorization : String → Authorization F
  held_authorization reason = record { allowed = false; action = hold_action; reason = reason }

  -- `_hold`, and the end of the round; `before` is what was done in the step until then.
  unfoldable pub hold_round : ℕ → List (Effect F) → String → Step F
  hold_round n before reason = record {
    effects =
        before
        ++ command hold_action (held_authorization reason)
          ∷ safe_action "HOLD" "NO_DECISION" 0 reason
          ∷ round_end n false
          ∷ [];
    result = ok (record {
      round_index = n;
      requested_action = float 0 ∷ float 0 ∷ float 0 ∷ [];
      authorization = held_authorization reason;
      round_outcome = none;
    });
  }

  -- `except Exception as exc:` with its log entry.
  abbrev pub failed_round : ℕ → List (Effect F) → String → Error → Step F
  failed_round n before reason e =
      hold_round n (before ++ log (concat reason (concat ":" (error_name e))) ∷ []) reason

  -- The end of a round with its authorization.
  abbrev pub finished_round :
      ℕ → List (Effect F) → List F → RoundOutcome F → Authorization F → String → Step F
  finished_round n before requested o a backend = record {
    effects =
        before
        ++ receipt_event requested backend
          ∷ verdict_event o.consensus
          ∷ safe_action (if a.allowed then "EXECUTE" else "HOLD")
              (outcome_value o.consensus.outcome) o.consensus.semantic_ack_count a.reason
          ∷ command a.action a
          ∷ round_end n a.allowed
          ∷ [];
    result = ok (record {
      round_index = n;
      requested_action = requested;
      authorization = a;
      round_outcome = some o;
    });
  }

  abbrev pub is_normalized : List F → Bool
  is_normalized requested = eqb (length requested) 3 && all in_range requested

module _ {F A P B : Type 0} ⦃fl : Floats F⦄ (lib : Library F B) (defaults : Envelope F)
    (min_semantic_acks : ℕ) (s : Supplies F A P) where
  -- The health inputs of the supervisor.
  abbrev pub supervised : HealthState F → FreeSpaceCheck F → Option P → Health F
  supervised h clearance pose = record {
    forward_clearance = some clearance;
    perception_healthy = h.perception_healthy;
    state_estimate_healthy = h.state_estimate_healthy && elim pose [ none ↦ false | some p ↦ true ];
    geofence_clear = h.geofence_clear;
    autopilot_guard_healthy = h.autopilot_guard_healthy;
    all_axis_clearance_confirmed = h.all_axis_clearance_confirmed;
    operator_abort = false;
  }

  -- From `authorize` on; the manifest is looked up before the command is sent.
  unfoldable pub release : ℕ → List (Effect F) → List F → Health F → RoundOutcome F → Step F
  release n before requested health o =
      let c = o.consensus in
      let a =
        authorize lib min_semantic_acks requested c health (some o.receipt) o.completed_at_ns in
      elim s.backend [
        | raise e ↦ record { effects = before; result = raise e }
        | ok backend ↦ finished_round n before requested o a backend
      ]

  -- The three blocks that are tried: the health and the detector, the depth, the attestation.
  unfoldable pub sense : A → Result (HealthState F × PerceptionResult F)
  sense frame = s.health >>= λ h. s.inference frame >>= λ p. elim p [
    | none ↦ raise (value_error "inference must return PerceptionResult")
    | some result ↦ ok (h, result)
  ]

  unfoldable pub clear_ahead_of : HealthState F → List F → Result (FreeSpaceCheck F)
  clear_ahead_of h requested = s.depth >>= λ range.
      check_free_space requested range
        (record defaults { current_speed_mps = some h.current_speed_mps })

  unfoldable pub originate_round :
      A → HealthState F → PerceptionResult F → Result (Option P × RoundOutcome F)
  originate_round frame h p = s.pose >>= λ pose.
      s.originate p.action frame pose h.pose_uncertainty_m p.claim >>= λ o. ok (pose, o)

  -- From the pose on.
  unfoldable pub attest :
      ℕ → List (Effect F) → A → HealthState F → PerceptionResult F → FreeSpaceCheck F → Step F
  unfolding release originate_round
  attest n before frame h p clearance = elim (originate_round frame h p) [
    | raise e ↦ failed_round n before "attestation_failure" e
    | ok (pose, o) ↦ release n before p.action (supervised h clearance pose) o
  ]

  -- From the test of the requested action on.
  unfoldable pub measure : ℕ → List (Effect F) → A → HealthState F → PerceptionResult F → Step F
  unfolding attest clear_ahead_of
  measure n before frame h p =
      if not (is_normalized p.action)
      then hold_round n before "invalid_action"
      else elim (clear_ahead_of h p.action) [
        | raise e ↦ failed_round n before "depth_failure" e
        | ok clearance ↦ attest n (before ++ depth_event clearance ∷ []) frame h p clearance
      ]

  -- From the health on.
  unfoldable pub perceive : ℕ → List (Effect F) → A → Step F
  unfolding measure sense
  perceive n before frame = elim (sense frame) [
    | raise e ↦ failed_round n before "perception_failure" e
    | ok (h, p) ↦ measure n before frame h p
  ]

  -- `step`, in the round with number `n`.
  unfoldable pub step_round : ℕ → Step F
  unfolding perceive
  step_round n =
      let before : List (Effect F) = round_start n ∷ [] in
      elim s.frame [
        | raise e ↦ failed_round n before "frame_source_failure" e
        | ok none ↦ hold_round n before "frame_unavailable"
        | ok (some frame) ↦ perceive n before frame
      ]
