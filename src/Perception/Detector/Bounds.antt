-- ===== src/Perception/Detector/Bounds.antt =====
-- codebase/perception/yolo_action.py: the range of the action, and what a detector's result says.
use veri_swarm_flight.Base.{
  ◌≡◌, refl, sym, ◌∙◌, inl, inr, Bool, true, false, List, [], ◌∷◌, Bool-cases, Result-cases, ok,
  raise, value_error, ◌>>=◌, check_all, ltb, length, all,
}
use veri_swarm_flight.Base.Floats.{Floats, float, minus_one}
use veri_swarm_flight.Perception.Claim.{PerceptionClaim, construct_claim}
use veri_swarm_flight.Perception.Claim.Laws.{construct_claim-IsConsistent}
use veri_swarm_flight.Perception.Supervisor.{in_range}
use veri_swarm_flight.Perception.Detector.{
  Detection, Box, clip, steer, detections_to_action, evidence_of, from_detections, construct_result,
  frame_to_detections, default_action, frame_to_perception,
}

module _ (F : Type 0) ⦃fl : Floats F⦄ where
  -- What the order of floats promises here; a number that is no number is below nothing.
  pub record IsOrdered : Type 0 where
    pub le_of_lt : (x y : F) → fl.lt x y ≡ true → fl.le x y ≡ true
    pub finite_between :
        (x : F) → fl.lt minus_one x ≡ true → fl.lt x (float 1) ≡ true → fl.is_finite x ≡ true
    pub minus_one_in : in_range {F = F} minus_one ≡ true
    pub zero_in : in_range {F = F} (float 0) ≡ true
    pub one_in : in_range {F = F} (float 1) ≡ true

module _ {F : Type 0} ⦃fl : Floats F⦄ where
  abbrev pub Normalized : List F → Type 0
  Normalized action = (length action ≡ 3) × (all in_range action ≡ true)

module _ {F : Type 0} ⦃fl : Floats F⦄ (laws : IsOrdered F) where
  clip-in_range : (v : F) → in_range (clip v) ≡ true
  unfolding clip
  clip-in_range v = elim (Bool-cases (fl.lt v (float 1))) [
    | inl below ↦ elim (Bool-cases (fl.lt minus_one v)) [
      | inl above ↦
          rw
            (
              below,
              above,
              laws.finite_between v above below,
              laws.le_of_lt v (float 1) below,
              laws.le_of_lt minus_one v above,
            )
            refl
      | inr low ↦ rw (below, low) (laws.minus_one_in)
    ]
    | inr high ↦ elim (Bool-cases (fl.lt minus_one (float 1))) [
      | inl above ↦ rw (high, above) (laws.one_in)
      | inr low ↦ rw (high, low) (laws.minus_one_in)
    ]
  ]

  steer-Normalized :
      (k_forward k_lateral k_vertical : F) (sums : F × F × F)
      → Normalized (steer k_forward k_lateral k_vertical sums)
  unfolding steer
  steer-Normalized k_forward k_lateral k_vertical (tx, ty, mass) =
      elim (Bool-cases (fl.le mass (float 0))) [
        | inl none ↦ rw none (refl, rw (laws.zero_in) refl)
        | inr some ↦ rw some (refl, rw (clip-in_range _, clip-in_range _, clip-in_range _) refl)
      ]

  -- Whatever the detections and the gains are, even where a sum is no number, the action has three
  -- values, each finite and between -1 and 1.
  pub detections_to_action-Normalized :
      (dets : List (Detection F)) (k_forward k_lateral k_vertical : F) (free : Bool)
      → Normalized (detections_to_action dets k_forward k_lateral k_vertical free)
  unfolding detections_to_action
  detections_to_action-Normalized [] k_forward k_lateral k_vertical true =
      (refl, rw (laws.zero_in, laws.one_in) refl)
  detections_to_action-Normalized [] k_forward k_lateral k_vertical false =
      (refl, rw (laws.zero_in) refl)
  detections_to_action-Normalized (d ∷ dets) k_forward k_lateral k_vertical free =
      steer-Normalized k_forward k_lateral k_vertical _

module _ {F : Type 0} ⦃fl : Floats F⦄ where
  from_detections-measured :
      (dets : List (Detection F)) (c : PerceptionClaim F)
      → from_detections dets ≡ ok c
      → c.measured ≡ true
  unfolding from_detections evidence_of
  from_detections-measured [] c made = rw ((construct_claim-IsConsistent _ c made).0) refl
  from_detections-measured (d ∷ dets) c made = elim (Bool-cases (ltb 4096 (length (d ∷ dets)))) [
    | inl many ↦
        let refused : from_detections (d ∷ dets)
            ≡ raise (value_error "too many detections (maximum 4096)") =
          rw many refl in
        cc
    | inr few ↦
        let checked : from_detections (d ∷ dets) ≡ construct_claim (evidence_of d dets) =
          rw few refl in
        rw ((construct_claim-IsConsistent _ c (sym checked ∙ made)).0) refl
  ]

  -- For floats of that order, the checks of the result never refuse it: the model's boxes give the
  -- action of the detections together with their claim whenever the detections and the claim can be
  -- constructed, and an error of the two is the error of the whole. The action of any detections is
  -- normalized, for any gains.
  pub frame_to_perception_lem :
      (laws : IsOrdered F) (width height : F) (boxes : List (Box F)) (free : Bool)
      → (seen : List (Detection F)) (k_forward k_lateral k_vertical : F)
      → (frame_to_perception width height boxes free ≡ (
          frame_to_detections width height boxes >>= λ dets. from_detections dets >>= λ c.
          ok (record { action = default_action dets free; claim = c })))
        × Normalized (detections_to_action seen k_forward k_lateral k_vertical free)
  unfolding frame_to_perception construct_result check_all
  frame_to_perception_lem laws width height boxes free seen k_forward k_lateral k_vertical = (
    elim (Result-cases (frame_to_detections width height boxes)) [
      | inr (e, failed) ↦ rw failed refl
      | inl (dets, found) ↦ elim (Result-cases (from_detections dets)) [
        | inr (e, failed) ↦ rw (found, failed) refl
        | inl (c, made) ↦
            let normal : Normalized (default_action dets free) =
              detections_to_action-Normalized laws dets (float 3) (float 3)
                (fl.over (float 5) (float 2)) free in
            rw (found, made, from_detections-measured dets c made, normal.0, normal.1) refl
      ]
    ],
    detections_to_action-Normalized laws seen k_forward k_lateral k_vertical free,
  )
