-- ===== src/Perception/Depth.antt =====
-- codebase/perception/depth_check.py: the clearance that a forward command needs, and its test
-- against the measured range. `nearest_range` reduces a NumPy image and is not modelled.
use veri_swarm_flight.Base.{
  ◌≡◌, ◌↔◌, refl, Bool, true, false, not, ◌&&◌, ◌||◌, Option, none, some, List, [], ◌∷◌, String,
  arith, if◌then◌else◌, Result, ok, ◌>>◌, ◌>>=◌, check_all, all,
}
use veri_swarm_flight.Base.Floats.{Floats, float, minus_one}

pub record FreeSpaceCheck (F : Type 0) : Type 0 where
  pub contradicted : Bool
  pub commanded_forward : F
  pub measured_range_m : Option F
  pub required_clear_m : F
  pub reason : String
  pub safe_to_proceed : Bool

-- The vehicle's parameters.
pub record Envelope (F : Type 0) : Type 0 where
  pub max_speed_mps : F
  pub stop_margin_m : F
  pub current_speed_mps : Option F
  pub reaction_time_s : F
  pub max_decel_mps2 : F
  pub min_valid_m : F
  pub max_valid_m : F

module _ {F : Type 0} ⦃fl : Floats F⦄ where
  -- `max(a, b)` and `min(a, b)`: the first unless the second is beyond it.
  abbrev pub greater : F → F → F
  greater a b = if fl.lt a b then b else a

  abbrev pub lesser : F → F → F
  lesser a b = if fl.lt b a then b else a

  -- `float(current_speed_mps or 0.0)`.
  abbrev pub measured_speed : Envelope F → F
  measured_speed v = elim v.current_speed_mps [ none ↦ float 0 | some s ↦ s ]

  unfoldable pub clearance_checks : F → Envelope F → List (Bool × String)
  clearance_checks forward v =
      (
        not (
            all fl.is_finite (
              forward ∷ v.max_speed_mps ∷ v.stop_margin_m ∷ v.reaction_time_s ∷ v.max_decel_mps2
              ∷ [])),
        "clearance inputs must be finite",
      )
      ∷ (
        fl.lt v.max_speed_mps (float 0)
            || fl.lt v.stop_margin_m (float 0)
            || fl.lt v.reaction_time_s (float 0),
        "speed, margin, and reaction time must be non-negative",
      )
      ∷ (fl.le v.max_decel_mps2 (float 0), "max_decel_mps2 must be positive")
      ∷ (
        not (fl.is_finite (measured_speed v)) || fl.lt (measured_speed v) (float 0),
        "current_speed_mps must be finite and non-negative",
      )
      ∷ []

  -- margin + v * reaction + v * v / (2 * deceleration), at the greater of the two speeds.
  unfoldable pub stopping_distance : F → Envelope F → F
  stopping_distance forward v =
      let commanded = fl.times (greater (float 0) (lesser (float 1) forward)) v.max_speed_mps in
      let speed = greater commanded (measured_speed v) in
      fl.plus (fl.plus v.stop_margin_m (fl.times speed v.reaction_time_s))
        (fl.over (fl.times speed speed) (fl.times (float 2) v.max_decel_mps2))

  unfoldable pub required_clearance : F → Envelope F → Result F
  unfolding clearance_checks stopping_distance
  required_clearance forward v =
      check_all (clearance_checks forward v) >> ok (stopping_distance forward v)

  abbrev pub no_measurement : F → F → String → FreeSpaceCheck F
  no_measurement forward required reason = record {
    contradicted = false;
    commanded_forward = forward;
    measured_range_m = none;
    required_clear_m = required;
    reason = reason;
    safe_to_proceed = false;
  }

  -- The verdict on a reading, once the required clearance is known.
  unfoldable pub judge_range : F → Option F → Envelope F → F → FreeSpaceCheck F
  judge_range forward none v required = no_measurement forward required "no_reading"
  judge_range forward (some measured) v required =
      if not (fl.is_finite measured)
        || not (fl.le v.min_valid_m measured && fl.le measured v.max_valid_m)
      then no_measurement forward required "reading_out_of_range"
      else record {
        contradicted = fl.lt measured required;
        commanded_forward = forward;
        measured_range_m = some measured;
        required_clear_m = required;
        reason = if fl.lt measured required then "contradiction" else "consistent";
        safe_to_proceed = fl.le required measured;
      }

  -- `float(action[0]) if len(action) else 0.0`.
  abbrev pub forward_of : List F → F
  forward_of [] = float 0
  forward_of (x ∷ xs) = x

  unfoldable pub check_free_space : List F → Option F → Envelope F → Result (FreeSpaceCheck F)
  unfolding required_clearance judge_range
  check_free_space action measured v =
      let forward = forward_of action in
      check_all (
        (
          not (fl.is_finite forward) || not (fl.le minus_one forward && fl.le forward (float 1)),
          "forward action must be finite and in [-1, 1]",
        )
        ∷ [])
      >> (required_clearance forward v >>= λ required. ok (judge_range forward measured v required))

  -- A command is called safe exactly on a reading that is finite, inside the sensor's valid band,
  -- and at least the required clearance; no reading, or one out of the band, is never safe.
  pub judge_range_safe :
      (forward : F) (measured : Option F) (v : Envelope F) (required : F)
      → ((judge_range forward measured v required).safe_to_proceed ≡ true) ↔ (
          (m : F) × (measured ≡ some m)
          × (fl.is_finite m ≡ true)
          × (fl.le v.min_valid_m m ≡ true)
          × (fl.le m v.max_valid_m ≡ true)
          × (fl.le required m ≡ true))
  unfolding judge_range
  judge_range_safe forward none v required = (λ h. cc, λ h. ground arith)
  judge_range_safe forward (some m) v required =
      (λ h. (m, refl, ground arith, ground arith, ground arith, ground arith), λ h. ground arith)
