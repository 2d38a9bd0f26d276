-- ===== src/Rescue/Gate.antt =====
-- codebase/rescue/movement_security.py: `evaluate_movement_command` and the limits of a command. A
-- number is what `float` makes of it, which is all that the code computes with.
pub mod Checks
pub mod Permit
use veri_swarm_flight.Base.{
  ℕ, suc, Bool, true, false, not, ◌&&◌, ◌||◌, Option, none, some, List, [], ◌∷◌, String, string_eq,
  ◌==◌, if◌then◌else◌, Result, ok, raise, value_error, overflow_error, ◌>>=◌,
}
use veri_swarm_flight.Base.Int.{ℤ}
use veri_swarm_flight.Base.Sets.{member}
use veri_swarm_flight.Base.Dict.{Dict, get}
use veri_swarm_flight.Base.Text.{concat}
use veri_swarm_flight.Base.Floats.{Floats, float}
use veri_swarm_flight.Rescue.Movement.{Contract, Value, Resolution, resolve_authorization}

-- A number by its float, an integer that `float` refuses, or another value or none.
pub data Quantity (F : Type 0) : Type 0 where
  amount : F → Quantity F
  huge other : Quantity F

-- The numbers of a mapping, and the value that is no number: the target, if it is a sequence.
pub record Command (F : Type 0) : Type 0 where
  pub numbers : Dict String (Quantity F)
  pub target_position_ned : Option (List (Quantity F))

pub record Limits (F : Type 0) : Type 0 where
  pub numbers : Dict String (Quantity F)
  pub enroute_geofence_ned_m : Option (Dict String (Quantity F))

pub record MovementContract (F : Type 0) : Type 0 where
  pub base : Contract
  pub command_limits : Option (Limits F)

pub record GateDecision : Type 0 where
  pub decision : String
  pub reason : String
  pub action : String
  pub release_command : Bool
  pub vehicle_state : String

abbrev pub speed_fields : List String
speed_fields =
    "horizontal_velocity_mps" ∷ "vertical_velocity_mps" ∷ "horizontal_acceleration_mps2"
    ∷ "vertical_acceleration_mps2" ∷ []

abbrev pub separation_field : String
separation_field = "minimum_pairwise_separation_m"

-- `check`, and the next one if it does not fail.
abbrev pub unless_failed : Result Bool → String → Result (Option String) → Result (Option String)
unless_failed check failure next = check >>= λ bad. if bad then ok (some failure) else next

module _ {F : Type 0} ⦃fl : Floats F⦄ where
  abbrev pub number_of : Dict String (Quantity F) → String → Quantity F
  number_of m key = elim (get key m) [ none ↦ other | some q ↦ q ]

  -- `_finite_number(value)`, with `float(value)`.
  unfoldable pub finite_number : Quantity F → Result (Option F)
  finite_number (amount x) = ok (if fl.is_finite x then some x else none)
  finite_number huge = raise (overflow_error "int too large to convert to float")
  finite_number other = ok none

  -- One of the four checks; `true` is a failure.
  unfoldable pub outside_limit : Quantity F → Quantity F → Result Bool
  outside_limit value limit = finite_number value >>= λ v. elim v [
    | none ↦ ok true
    | some x ↦
        if fl.lt x (float 0)
        then ok true
        else finite_number limit >>= λ l. elim l [ none ↦ ok true | some y ↦ ok (fl.lt y x) ]
  ]

  -- The check of the separation.
  unfoldable pub too_close : Quantity F → Quantity F → Result Bool
  too_close separation configured = finite_number separation >>= λ s. elim s [
    | none ↦ ok true
    | some x ↦ finite_number configured >>= λ c. elim c [ none ↦ ok true | some y ↦ ok (fl.lt x y) ]
  ]

  -- One of the three checks of the geofence.
  unfoldable pub outside_bounds : F → Quantity F → Quantity F → Result Bool
  outside_bounds x lower upper = finite_number lower >>= λ l. elim l [
    | none ↦ ok true
    | some a ↦ finite_number upper >>= λ u. elim u [
      | none ↦ ok true
      | some b ↦ ok (fl.lt x a || fl.lt b x)
    ]
  ]

  unfoldable pub check_speeds :
      Command F → Limits F → List String → Result (Option String) → Result (Option String)
  unfolding outside_limit
  check_speeds c l [] next = next
  check_speeds c l (field ∷ fields) next =
      unless_failed (outside_limit (number_of c.numbers field) (number_of l.numbers field))
        (concat field "_outside_limit") (check_speeds c l fields next)

  -- The rest of `all(_finite_number(component) for component in target)`, after one component.
  unfoldable pub after_finite :
      {A : Type 0} → Quantity F → (F → Result (Option A)) → Result (Option A)
  unfolding finite_number
  after_finite q rest = finite_number q >>= λ a. elim a [ none ↦ ok none | some x ↦ rest x ]

  -- Three finite coordinates.
  unfoldable pub coordinates : Option (List (Quantity F)) → Result (Option (F × F × F))
  unfolding after_finite
  coordinates (some (x ∷ y ∷ z ∷ [])) =
      after_finite x (λ a. after_finite y (λ b. after_finite z (λ c. ok (some (a, b, c)))))
  coordinates target = ok none

  -- The loop over the bounds.
  unfoldable pub check_bounds : Dict String (Quantity F) → F × F × F → Result (Option String)
  unfolding outside_bounds
  check_bounds fence (x, y, z) =
      unless_failed (outside_bounds x (number_of fence "x_min") (number_of fence "x_max"))
        "target_position_outside_geofence"
        (unless_failed (outside_bounds y (number_of fence "y_min") (number_of fence "y_max"))
          "target_position_outside_geofence"
          (unless_failed (outside_bounds z (number_of fence "z_min") (number_of fence "z_max"))
            "target_position_outside_geofence" (ok none)))

  unfoldable pub check_geofence : Limits F → F × F × F → Result (Option String)
  unfolding check_bounds
  check_geofence l at = elim l.enroute_geofence_ned_m [
    | none ↦ raise (value_error "movement_contract_geofence_invalid")
    | some fence ↦ check_bounds fence at
  ]

  unfoldable pub check_target : Command F → Limits F → Result (Option String)
  unfolding coordinates check_geofence
  check_target c l = coordinates c.target_position_ned >>= λ t. elim t [
    | none ↦ ok (some "target_position_ned_malformed")
    | some at ↦ check_geofence l at
  ]

  -- `_command_limit_failure`.
  unfoldable pub command_limit_failure :
      MovementContract F → Option (Command F) → Result (Option String)
  unfolding check_speeds too_close check_target
  command_limit_failure m none = ok (some "command_malformed")
  command_limit_failure m (some c) = elim m.command_limits [
    | none ↦ raise (value_error "movement_contract_limits_invalid")
    | some l ↦ check_speeds c l speed_fields (
        unless_failed
          (too_close (number_of c.numbers separation_field) (number_of l.numbers separation_field))
          "minimum_pairwise_separation_m_outside_limit" (check_target c l))
  ]

abbrev pub held : String → Bool → GateDecision
held reason in_flight = record {
  decision = "HOLD";
  reason = reason;
  action = if in_flight then "HOVER" else "DO_NOT_DISPATCH";
  release_command = false;
  vehicle_state = "HOLD";
}

abbrev pub released_command : String → GateDecision
released_command reason = record {
  decision = "ALLOW";
  reason = reason;
  action = "RELEASE";
  release_command = true;
  vehicle_state = "SEARCHING";
}

abbrev pub quarantined : String → GateDecision
quarantined reason = record {
  decision = "QUARANTINE";
  reason = reason;
  action = "ABORT_HOVER_LAND";
  release_command = false;
  vehicle_state = "QUARANTINED";
}

module _ {F : Type 0} ⦃fl : Floats F⦄ where
  -- What is done about the authorization.
  unfoldable pub gate :
      MovementContract F → Resolution → Option (Command F) → Bool → Result GateDecision
  gate m res command in_flight =
      if res.decision == "QUARANTINE"
      then ok (quarantined res.reason)
      else if res.decision == "HOLD"
      then ok (held res.reason in_flight)
      else command_limit_failure m command >>= λ failure. elim failure [
        | some f ↦ ok (held (concat "movement_limits_failed:" f) in_flight)
        | none ↦ ok (released_command res.reason)
      ]

  unfoldable pub evaluate_movement_command :
      MovementContract F
      → String
      → Option (Dict String Value)
      → Option (Command F)
      → ℤ
      → Bool
      → Result GateDecision
  unfolding gate
  evaluate_movement_command m node authorization command now in_flight =
      if not (member node m.base.roster)
      then raise (value_error (concat "unknown_vehicle:" node))
      else resolve_authorization m.base node authorization now >>= λ res.
          gate m res command in_flight
