-- ===== src/Rescue/Gate/Permit.antt =====
-- codebase/rescue/movement_security.py: what a released command rests on.
use veri_swarm_flight.Base.{
  ◌≡◌, ◌≢◌, refl, sym, ◌∙◌, subst, inl, inr, Bool, true, false, Option, none, some, List, [], ◌∷◌,
  String, string_eq, eq_iff, ◌==◌, arith, Result, ok, raise, value_error, Bool-cases, Result-cases,
  Option-cases,
}
use veri_swarm_flight.Base.Int.{ℤ}
use veri_swarm_flight.Base.Sets.{member}
use veri_swarm_flight.Base.Dict.{Dict}
use veri_swarm_flight.Base.Floats.{Floats}
use veri_swarm_flight.Rescue.Movement.{Value, Resolution, resolve_authorization, decisions}
use veri_swarm_flight.Rescue.Movement.Release.{IsAuthorized, resolve_authorization-IsAuthorized}
use veri_swarm_flight.Rescue.Gate.Checks.{
  Both, is_moderate, is_apart, is_between, unless_failed_inv, outside_limit-Both, too_close-Both,
  outside_bounds-Both,
}
use veri_swarm_flight.Rescue.Gate.{
  Quantity, amount, huge, other, Command, Limits, MovementContract, GateDecision, speed_fields,
  separation_field, number_of, finite_number, too_close, after_finite, outside_bounds,
  unless_failed, check_speeds, coordinates, check_geofence, check_bounds, check_target,
  command_limit_failure, gate, evaluate_movement_command,
}

module _ {F : Type 0} ⦃fl : Floats F⦄ where
  -- Every field is a finite number from 0 to its limit.
  abbrev pub AllModerate : Command F → Limits F → List String → Type 0
  AllModerate c l [] = Unit {0}
  AllModerate c l (field ∷ fields) =
      Both is_moderate (number_of c.numbers field) (number_of l.numbers field)
      × AllModerate c l fields

  -- The three coordinates lie between the bounds.
  abbrev pub Inside : Dict String (Quantity F) → F × F × F → Type 0
  Inside fence (x, y, z) =
      Both (is_between x) (number_of fence "x_min") (number_of fence "x_max")
      × Both (is_between y) (number_of fence "y_min") (number_of fence "y_max")
      × Both (is_between z) (number_of fence "z_min") (number_of fence "z_max")

  -- The target is finite and lies in the geofence.
  pub record InGeofence (c : Command F) (l : Limits F) : Type 0 where
    pub x : F
    pub y : F
    pub z : F
    pub target : c.target_position_ned ≡ some (amount x ∷ amount y ∷ amount z ∷ [])
    pub finite : (fl.is_finite x ≡ true) × (fl.is_finite y ≡ true) × (fl.is_finite z ≡ true)
    pub fence : Dict String (Quantity F)
    pub fenced : l.enroute_geofence_ned_m ≡ some fence
    pub inside : Inside fence (x, y, z)

  pub record IsWithin (c : Command F) (l : Limits F) : Type 0 where
    pub speeds : AllModerate c l speed_fields
    pub apart :
        Both is_apart (number_of c.numbers separation_field) (number_of l.numbers separation_field)
    pub placed : InGeofence c l

  check_speeds-AllModerate :
      (c : Command F) (l : Limits F) (fields : List String) (next : Result (Option String))
      → check_speeds c l fields next ≡ ok none
      → AllModerate c l fields × (next ≡ ok none)
  unfolding check_speeds
  check_speeds-AllModerate c l [] next h = (tt, h)
  check_speeds-AllModerate c l (field ∷ fields) next h =
      let (good, rest) = unless_failed_inv _ _ (check_speeds c l fields next) h in
      let (others, last) = check_speeds-AllModerate c l fields next rest in
      ((outside_limit-Both _ _ good, others), last)

  after_finite_inv :
      {A : Type 0} (q : Quantity F) (rest : F → Result (Option A)) (r : A)
      → after_finite q rest ≡ ok (some r)
      → (x : F) × (q ≡ amount x) × (fl.is_finite x ≡ true) × (rest x ≡ ok (some r))
  unfolding after_finite finite_number
  after_finite_inv huge rest r h = cc
  after_finite_inv other rest r h = cc
  after_finite_inv (amount x) rest r h = (x, refl, ground arith, ground arith)

  -- The coordinates that were read.
  record At (t : Option (List (Quantity F))) (p : F × F × F) : Type 0 where
    is_target : t ≡ some (amount p.0 ∷ amount p.1 ∷ amount p.2 ∷ [])
    is_finite : (fl.is_finite p.0 ≡ true) × (fl.is_finite p.1 ≡ true) × (fl.is_finite p.2 ≡ true)

  read :
      {p q : F × F × F} → ◌≡◌ {A = Result (Option (F × F × F))} (ok (some p)) (ok (some q)) → p ≡ q
  read h = cc

  coordinates-At :
      (t : Option (List (Quantity F))) (p : F × F × F) → coordinates t ≡ ok (some p) → At t p
  unfolding coordinates
  coordinates-At none p h = cc
  coordinates-At (some []) p h = cc
  coordinates-At (some (a ∷ [])) p h = cc
  coordinates-At (some (a ∷ b ∷ [])) p h = cc
  coordinates-At (some (a ∷ b ∷ c ∷ d ∷ e)) p h = cc
  coordinates-At (some (a ∷ b ∷ c ∷ [])) p h =
      let (x, is_x, x_finite, h') = after_finite_inv a _ p h in
      let (y, is_y, y_finite, h'') = after_finite_inv b _ p h' in
      let (z, is_z, z_finite, last) = after_finite_inv c _ p h'' in
      subst (At (some (a ∷ b ∷ c ∷ []))) (read last) (record {
        is_target = λ i. some (is_x i ∷ is_y i ∷ is_z i ∷ []);
        is_finite = (x_finite, y_finite, z_finite);
      })

  check_bounds_inv :
      (fence : Dict String (Quantity F)) (p : F × F × F)
      → check_bounds fence p ≡ ok none
      → Inside fence p
  unfolding check_bounds
  check_bounds_inv fence (x, y, z) h =
      let check = λ (v : F) (low high : String).
        outside_bounds v (number_of fence low) (number_of fence high) in
      let (in_x, h') =
        unless_failed_inv (check x "x_min" "x_max") failure
          (unless_failed (check y "y_min" "y_max") failure
            (unless_failed (check z "z_min" "z_max") failure (ok none)))
          h in
      let (in_y, h'') =
        unless_failed_inv (check y "y_min" "y_max") failure
          (unless_failed (check z "z_min" "z_max") failure (ok none)) h' in
      let (in_z, last) = unless_failed_inv (check z "z_min" "z_max") failure (ok none) h'' in
      (
        outside_bounds-Both x _ _ in_x,
        outside_bounds-Both y _ _ in_y,
        outside_bounds-Both z _ _ in_z,
      )
    where
      failure : String
      failure = "target_position_outside_geofence"

  check_geofence-InGeofence :
      (c : Command F) (l : Limits F) (p : F × F × F)
      → At c.target_position_ned p
      → check_geofence l p ≡ ok none
      → InGeofence c l
  unfolding check_geofence
  check_geofence-InGeofence c l (x, y, z) at h = elim (Option-cases l.enroute_geofence_ned_m) [
    | inl absent ↦
        let e : ◌≡◌ {A = Result (Option String)}
            (raise (value_error "movement_contract_geofence_invalid")) (ok none) =
          sym (rw (absent, check_geofence) refl) ∙ h in
        cc
    | inr (fence, fenced) ↦
        let inside =
          check_bounds_inv fence (x, y, z) (sym (rw (fenced, check_geofence) refl) ∙ h) in
        record {
          x = x;
          y = y;
          z = z;
          target = at.is_target;
          finite = at.is_finite;
          fence = fence;
          fenced = fenced;
          inside = inside;
        }
  ]

  check_target-InGeofence :
      (c : Command F) (l : Limits F) → check_target c l ≡ ok none → InGeofence c l
  unfolding check_target
  check_target-InGeofence c l h = elim (Result-cases (coordinates c.target_position_ned)) [
    | inr (e, failed) ↦ absurd (ground (arith, failed))
    | inl (none, malformed) ↦ absurd (ground (arith, malformed))
    | inl (some p, at) ↦
        check_geofence-InGeofence c l p (coordinates-At c.target_position_ned p at)
          (sym (rw (at, check_target) refl) ∙ h)
  ]

  abbrev checks_after : Command F → Limits F → Result (Option String)
  checks_after c l =
      unless_failed
        (too_close (number_of c.numbers separation_field) (number_of l.numbers separation_field))
        "minimum_pairwise_separation_m_outside_limit" (check_target c l)

  command_limit_failure-IsWithin :
      (m : MovementContract F) (command : Option (Command F))
      → command_limit_failure m command ≡ ok none
      → (c : Command F) × (l : Limits F) × (command ≡ some c)
        × (m.command_limits ≡ some l)
        × IsWithin c l
  unfolding command_limit_failure
  command_limit_failure-IsWithin m none h = cc
  command_limit_failure-IsWithin m (some c) h = elim (Option-cases m.command_limits) [
    | inl absent ↦
        let e : ◌≡◌ {A = Result (Option String)}
            (raise (value_error "movement_contract_limits_invalid")) (ok none) =
          sym (rw (absent, command_limit_failure) refl) ∙ h in
        cc
    | inr (l, configured) ↦
        let (speeds, rest) =
          check_speeds-AllModerate c l speed_fields (checks_after c l)
            (sym (rw (configured, command_limit_failure) refl) ∙ h) in
        let (apart, target) = unless_failed_inv _ _ (check_target c l) rest in
        (
          c,
          l,
          refl,
          configured,
          record {
            speeds = speeds;
            apart = too_close-Both _ _ apart;
            placed = check_target-InGeofence c l target;
          },
        )
  ]

-- What a released command rests on.
pub record IsPermitted {F : Type 0} ⦃fl : Floats F⦄ (m : MovementContract F) (node : String)
    (authorization : Option (Dict String Value)) (command : Option (Command F)) (now : ℤ)
    : Type 0 where
  pub rostered : member node m.base.roster ≡ true
  pub order : Dict String Value
  pub given : authorization ≡ some order
  pub authorized : IsAuthorized m.base node order now "ALLOW"
  pub commanded : Command F
  pub present : command ≡ some commanded
  pub limits : Limits F
  pub configured : m.command_limits ≡ some limits
  pub within : IsWithin commanded limits

only_allow :
    (d : String)
    → member d decisions ≡ true
    → (d == "QUARANTINE") ≡ false
    → (d == "HOLD") ≡ false
    → d ≡ "ALLOW"
unfolding member
only_allow d known q h = ground (arith, eq_iff d "ALLOW")

module _ {F : Type 0} ⦃fl : Floats F⦄ where
  -- A released command is neither held nor quarantined, and no limit failed.
  gate_inv :
      (m : MovementContract F) (res : Resolution) (command : Option (Command F)) (fly : Bool)
      (d : GateDecision)
      → gate m res command fly ≡ ok d
      → d.release_command ≡ true
      → ((res.decision == "QUARANTINE") ≡ false)
        × ((res.decision == "HOLD") ≡ false)
        × (command_limit_failure m command ≡ ok none)
  unfolding gate
  gate_inv m res command fly d h r = (ground arith, ground arith, ground arith)

  -- The gate releases a command only for a vehicle of the roster whose authorization is addressed
  -- to it, is fresh and says ALLOW, and only if the command is there, all four speeds are finite
  -- numbers from zero up to the contract's limits, the separation is at least the contract's, and
  -- the target is three finite coordinates within the contract's geofence.
  pub released-IsPermitted :
      (m : MovementContract F) (node : String) (authorization : Option (Dict String Value))
      (command : Option (Command F)) (now : ℤ) (in_flight : Bool) (d : GateDecision)
      → evaluate_movement_command m node authorization command now in_flight ≡ ok d
      → d.release_command ≡ true
      → IsPermitted m node authorization command now
  unfolding evaluate_movement_command
  released-IsPermitted m node authorization command now in_flight d h r =
      elim (Bool-cases (member node m.base.roster)) [
        | inr stranger ↦ absurd (ground (arith, stranger))
        | inl rostered ↦ elim (Result-cases (resolve_authorization m.base node authorization now)) [
          | inr (e, failed) ↦ absurd (ground (arith, rostered, failed))
          | inl (res, resolved) ↦
              let gated : gate m res command in_flight ≡ ok d =
                sym (rw (rostered, resolved, evaluate_movement_command) refl) ∙ h in
              let (free, moving, good) = gate_inv m res command in_flight d gated r in
              let free_of_hold : res.decision ≢ "HOLD" =
                λ e. ground (arith, eq_iff res.decision "HOLD") in
              let (order, given, authorized) =
                resolve_authorization-IsAuthorized m.base node authorization now res resolved
                  free_of_hold in
              let allow = only_allow res.decision authorized.known free moving in
              let (c, l, present, configured, within) =
                command_limit_failure-IsWithin m command good in
              record {
                rostered = rostered;
                order = order;
                given = given;
                authorized = subst (IsAuthorized m.base node order now) allow authorized;
                commanded = c;
                present = present;
                limits = l;
                configured = configured;
                within = within;
              }
        ]
      ]
