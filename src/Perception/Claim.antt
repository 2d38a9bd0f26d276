-- ===== src/Perception/Claim.antt =====
-- codebase/perception/claim.py: `PerceptionClaim`, its checks at construction, and `claims_agree`.
-- The checks of Python types (`type(x) is bool`) hold by the types of the fields.
pub mod Laws
use veri_swarm_flight.Base.{
  ℕ, suc, ◌≤◌, ◌≡◌, refl, Bool, true, false, not, ◌&&◌, ◌||◌, Option, none, some, List, [], ◌∷◌,
  arith, Eq, ◌==◌, ◌!=◌, if◌then◌else◌, Result, ok, raise, ◌>>◌, ◌>>=◌, check_all, value_error,
  bool_eq, String, length, any, all, leb, ltb,
}
use veri_swarm_flight.Base.Int.{ℤ, pos, leb_ℤ, ltb_ℤ, int_eq}
use veri_swarm_flight.Base.Floats.{Floats, float, minus_one}

abbrev pub max_detection_count : ℤ
max_detection_count = pos 4096

abbrev pub max_class_id : ℤ
max_class_id = pos 65535

pub record PerceptionClaim (F : Type 0) : Type 0 where
  pub measured : Bool
  pub detections_present : Bool
  pub detection_count : ℤ
  pub class_ids : List ℤ
  pub occupancy : F
  pub max_confidence : F
  pub bearing : F

-- Insertion into a strictly rising list; an equal element is kept once.
insert_sorted : ℤ → List ℤ → List ℤ
insert_sorted a [] = a ∷ []
insert_sorted a (x ∷ xs) =
    if ltb_ℤ a x then a ∷ x ∷ xs else if a == x then x ∷ xs else x ∷ insert_sorted a xs

-- `sorted(set(xs))`.
unfoldable pub sorted_set : List ℤ → List ℤ
unfolding insert_sorted
sorted_set [] = []
sorted_set (x ∷ xs) = insert_sorted x (sorted_set xs)

unfoldable pub ids_beq : List ℤ → List ℤ → Bool
ids_beq [] [] = true
ids_beq [] (y ∷ ys) = false
ids_beq (x ∷ xs) [] = false
ids_beq (x ∷ xs) (y ∷ ys) = x == y && ids_beq xs ys

pub ids_beq_iff :
    (xs ys : List ℤ) → (ids_beq xs ys ≡ true → xs ≡ ys) × (xs ≡ ys → ids_beq xs ys ≡ true)
unfolding ids_beq
ids_beq_iff [] [] = ground arith
ids_beq_iff [] (y ∷ ys) = ground arith
ids_beq_iff (x ∷ xs) [] = ground arith
ids_beq_iff (x ∷ xs) (y ∷ ys) = ground (arith, ids_beq_iff xs ys, int_eq.beq_iff x y)

instance abbrev pub ids_eq : Eq (List ℤ)
ids_eq = record { beq = ids_beq; beq_iff = ids_beq_iff }

-- `not xs`.
abbrev pub is_empty {ℓ} : {A : Type ℓ} → List A → Bool
is_empty [] = true
is_empty (x ∷ xs) = false

module _ {F : Type 0} ⦃fl : Floats F⦄ where
  -- `x != 0.0`.
  abbrev pub nonzero : F → Bool
  nonzero x = not (fl.eq x (float 0))

  -- `not lo <= x <= hi`.
  abbrev pub outside : F → F → F → Bool
  outside lo hi x = not (fl.le lo x && fl.le x hi)

  -- The checks of `PerceptionClaim.__post_init__`, in order.
  unfoldable pub claim_checks : PerceptionClaim F → List (Bool × String)
  claim_checks c =
      (
        not (leb_ℤ (pos 0) c.detection_count && leb_ℤ c.detection_count max_detection_count),
        "detection_count must be an integer in [0, 4096]",
      )
      ∷ (
        any (λ i. not (leb_ℤ (pos 0) i && leb_ℤ i max_class_id)) c.class_ids,
        "class_ids must contain integers in [0, 65535]",
      )
      ∷ (c.class_ids != sorted_set c.class_ids, "class_ids must be sorted and unique")
      ∷ (not (fl.is_finite c.occupancy), "occupancy must be finite")
      ∷ (not (fl.is_finite c.max_confidence), "max_confidence must be finite")
      ∷ (not (fl.is_finite c.bearing), "bearing must be finite")
      ∷ (outside (float 0) (float 1) c.occupancy, "occupancy must be in [0, 1]")
      ∷ (outside (float 0) (float 1) c.max_confidence, "max_confidence must be in [0, 1]")
      ∷ (outside minus_one (float 1) c.bearing, "bearing must be in [-1, 1]")
      ∷ (
        not c.measured
            && (c.detections_present
                || c.detection_count != pos 0
                || not (is_empty c.class_ids)
                || nonzero c.occupancy
                || nonzero c.max_confidence
                || nonzero c.bearing),
        "an unmeasured claim cannot carry detection evidence",
      )
      ∷ (
        c.detections_present && c.detection_count == pos 0,
        "detections_present requires detection_count >= 1",
      )
      ∷ (
        c.detections_present && is_empty c.class_ids,
        "detections_present requires at least one class_id",
      )
      ∷ (
        c.detection_count != pos 0 && not c.detections_present,
        "detection_count > 0 requires detections_present",
      )
      ∷ (
        ltb_ℤ c.detection_count (pos (length c.class_ids)),
        "unique class_ids cannot exceed detection_count",
      )
      ∷ (
        c.measured
            && not c.detections_present
            && (nonzero c.occupancy || nonzero c.max_confidence || nonzero c.bearing),
        "an empty-scene claim cannot carry detection evidence",
      )
      ∷ []

  -- Construction returns the claim or raises.
  unfoldable pub construct_claim : PerceptionClaim F → Result (PerceptionClaim F)
  construct_claim c = check_all (claim_checks c) >> ok c

  -- `PerceptionClaim.unmeasured()`.
  unfoldable pub unmeasured : PerceptionClaim F
  unmeasured = record {
    measured = false;
    detections_present = false;
    detection_count = pos 0;
    class_ids = [];
    occupancy = float 0;
    max_confidence = float 0;
    bearing = float 0;
  }

  -- The comparison of two measured claims.
  unfoldable pub compare_measured : PerceptionClaim F → PerceptionClaim F → F → Bool
  compare_measured claimed observed tolerance =
      if claimed.detections_present != observed.detections_present
      then false
      else if not claimed.detections_present
      then true
      else if claimed.class_ids != observed.class_ids
      then false
      else fl.le (fl.magnitude (fl.minus claimed.occupancy observed.occupancy)) tolerance

  unfoldable pub compare_claims :
      Option (PerceptionClaim F) → Option (PerceptionClaim F) → F → Option Bool
  unfolding compare_measured
  compare_claims none observed tolerance = none
  compare_claims (some c) none tolerance = none
  compare_claims (some c) (some o) tolerance =
      if not c.measured || not o.measured then none else some (compare_measured c o tolerance)

  -- `claims_agree`: `none` for an argument that is no claim; the answer `none` is no conclusion.
  unfoldable pub claims_agree :
      Option (PerceptionClaim F) → Option (PerceptionClaim F) → F → Result (Option Bool)
  claims_agree claimed observed tolerance =
      if not (fl.is_finite tolerance)
        || not (fl.lt (float 0) tolerance && fl.le tolerance (float 1))
      then raise (value_error "occupancy_tolerance must be finite and in (0, 1]")
      else ok (compare_claims claimed observed tolerance)
