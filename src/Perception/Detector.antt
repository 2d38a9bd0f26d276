-- ===== src/Perception/Detector.antt =====
-- codebase/perception/yolo_action.py and the parts of codebase/perception/claim.py that it ends in: the
-- boxes of the YOLO model become detections, an action and a claim. The model itself is outside the
-- repository: its boxes are an argument. The frame is not empty, so nothing is divided by zero.
pub mod Bounds
use veri_swarm_flight.Base.{
  ℕ, Bool, true, false, not, ◌&&◌, ◌||◌, List, [], ◌∷◌, map, String, if◌then◌else◌, Result, ok,
  raise, value_error, ◌>>=◌, ◌>>◌, check_all, eqb, ltb, length, all,
}
use veri_swarm_flight.Base.Int.{ℤ, pos, leb_ℤ}
use veri_swarm_flight.Base.Floats.{Floats, float, minus_one}
use veri_swarm_flight.Perception.Claim.{
  PerceptionClaim, construct_claim, sorted_set, max_class_id, outside,
}
use veri_swarm_flight.Perception.Supervisor.{in_range}

pub record Detection (F : Type 0) : Type 0 where
  pub cls : ℤ
  pub x : F
  pub y : F
  pub w : F
  pub h : F
  pub conf : F

-- A box of the model, with its corners in pixels.
pub record Box (F : Type 0) : Type 0 where
  pub cls : ℤ
  pub x1 : F
  pub y1 : F
  pub x2 : F
  pub y2 : F
  pub conf : F

pub record PerceptionResult (F : Type 0) : Type 0 where
  pub action : List F
  pub claim : PerceptionClaim F

module _ {F : Type 0} ⦃fl : Floats F⦄ where
  -- `min(a, b)` and `max(a, b)`: the first argument unless the second is really beyond it.
  abbrev pub min_float : F → F → F
  min_float a b = if fl.lt b a then b else a

  abbrev pub max_float : F → F → F
  max_float a b = if fl.lt a b then b else a

  abbrev pub half : F
  half = fl.over (float 1) (float 2)

  -- `Detection.__post_init__`.
  abbrev pub detection_checks : Detection F → List (Bool × String)
  detection_checks d =
      (
        not (leb_ℤ (pos 0) d.cls && leb_ℤ d.cls max_class_id),
        "cls must be an integer in [0, 65535]",
      )
      ∷ (
        not (
            all (λ v. fl.is_finite v && not (outside (float 0) (float 1) v))
              (d.x ∷ d.y ∷ d.w ∷ d.h ∷ d.conf ∷ [])),
        "normalized detection fields must be finite and in [0, 1]",
      )
      ∷ []

  unfoldable pub construct_detection : Detection F → Result (Detection F)
  construct_detection d = check_all (detection_checks d) >> ok d

  -- `_clip` with its default bounds.
  unfoldable pub clip : F → F
  clip v = max_float minus_one (min_float (float 1) v)

  -- The weight of a detection, and the sums over the detections.
  abbrev pub weight_of : Detection F → F
  weight_of d =
      let area = fl.times (max_float (float 0) d.w) (max_float (float 0) d.h) in
      let off = fl.times (float 2) (fl.magnitude (fl.minus d.x half)) in
      let centrality = fl.minus (float 1) (min_float (float 1) off) in
      fl.times (fl.times d.conf area) (fl.plus half (fl.times half centrality))

  unfoldable pub weigh : List (Detection F) → F → F → F → F × F × F
  weigh [] tx ty mass = (tx, ty, mass)
  weigh (d ∷ dets) tx ty mass =
      let weight = weight_of d in
      weigh dets (fl.plus tx (fl.times weight d.x)) (fl.plus ty (fl.times weight d.y))
        (fl.plus mass weight)

  -- The action of the sums.
  unfoldable pub steer : F → F → F → F × F × F → List F
  unfolding clip
  steer k_forward k_lateral k_vertical (tx, ty, mass) =
      if fl.le mass (float 0)
      then float 0 ∷ float 0 ∷ float 0 ∷ []
      else let cx = fl.over tx mass in
        let cy = fl.over ty mass in
        let threat = min_float (float 1) mass in
        let lateral = fl.times (fl.times (fl.minus (float 0) k_lateral) threat) (float 2) in
        let vertical = fl.times (fl.times k_vertical threat) (float 2) in
        clip (fl.minus (float 1) (fl.times k_forward threat))
        ∷ clip (fl.times lateral (fl.minus cx half))
        ∷ clip (fl.times vertical (fl.minus cy half))
        ∷ []

  unfoldable pub detections_to_action : List (Detection F) → F → F → F → Bool → List F
  unfolding weigh steer
  detections_to_action [] k_forward k_lateral k_vertical free_space_confirmed =
      (if free_space_confirmed then float 1 else float 0) ∷ float 0 ∷ float 0 ∷ []
  detections_to_action (d ∷ dets) k_forward k_lateral k_vertical free_space_confirmed =
      steer k_forward k_lateral k_vertical (weigh (d ∷ dets) (float 0) (float 0) (float 0))

  -- `max(dets, key=...)`: the first of the largest.
  unfoldable pub dominant_of : Detection F → List (Detection F) → Detection F
  dominant_of best [] = best
  dominant_of best (d ∷ dets) =
      dominant_of (if fl.lt (fl.times best.w best.h) (fl.times d.w d.h) then d else best) dets

  unfoldable pub confidence_of : F → List (Detection F) → F
  confidence_of best [] = best
  confidence_of best (d ∷ dets) = confidence_of (max_float best d.conf) dets

  -- `sum`, which adds from the left.
  unfoldable pub area_of : F → List (Detection F) → F
  area_of total [] = total
  area_of total (d ∷ dets) =
      area_of (fl.plus total (fl.times (max_float (float 0) d.w) (max_float (float 0) d.h))) dets

  -- The claim that `PerceptionClaim.from_detections` constructs of its detections.
  unfoldable pub evidence_of : Detection F → List (Detection F) → PerceptionClaim F
  unfolding dominant_of confidence_of area_of sorted_set
  evidence_of d dets =
      let dominant = dominant_of d dets in
      let off = fl.times (float 2) (fl.minus dominant.x half) in
      record {
        measured = true;
        detections_present = true;
        detection_count = pos (length (d ∷ dets));
        class_ids = sorted_set (map (λ e. e.cls) (d ∷ dets));
        occupancy = min_float (float 1) (area_of (float 0) (d ∷ dets));
        max_confidence = min_float (float 1) (max_float (float 0) (confidence_of d.conf dets));
        bearing = max_float minus_one (min_float (float 1) off);
      }

  unfoldable pub from_detections : List (Detection F) → Result (PerceptionClaim F)
  unfolding construct_claim evidence_of
  from_detections [] = construct_claim (record {
    measured = true;
    detections_present = false;
    detection_count = pos 0;
    class_ids = [];
    occupancy = float 0;
    max_confidence = float 0;
    bearing = float 0;
  })
  from_detections (d ∷ dets) =
      if ltb 4096 (length (d ∷ dets))
      then raise (value_error "too many detections (maximum 4096)")
      else construct_claim (evidence_of d dets)

  -- `PerceptionResult.__post_init__`.
  abbrev pub result_checks : PerceptionResult F → List (Bool × String)
  result_checks p =
      (
        not (eqb (length p.action) 3) || not (all in_range p.action),
        "action must contain three finite values in [-1, 1]",
      )
      ∷ (not p.claim.measured, "a perception result requires a measured claim")
      ∷ []

  unfoldable pub construct_result : PerceptionResult F → Result (PerceptionResult F)
  construct_result p = check_all (result_checks p) >> ok p

  -- The loop of `frame_to_detections` over the boxes.
  unfoldable pub frame_to_detections : F → F → List (Box F) → Result (List (Detection F))
  unfolding construct_detection
  frame_to_detections width height [] = ok []
  frame_to_detections width height (b ∷ boxes) =
      construct_detection (record {
        cls = b.cls;
        x = fl.over (fl.over (fl.plus b.x1 b.x2) (float 2)) width;
        y = fl.over (fl.over (fl.plus b.y1 b.y2) (float 2)) height;
        w = fl.over (fl.minus b.x2 b.x1) width;
        h = fl.over (fl.minus b.y2 b.y1) height;
        conf = b.conf;
      })
      >>= λ d. frame_to_detections width height boxes >>= λ dets. ok (d ∷ dets)

  -- `detections_to_action` with its default gains, 3, 3 and 2.5.
  abbrev pub default_action : List (Detection F) → Bool → List F
  default_action dets free =
      detections_to_action dets (float 3) (float 3) (fl.over (float 5) (float 2)) free

  unfoldable pub frame_to_perception : F → F → List (Box F) → Bool → Result (PerceptionResult F)
  unfolding frame_to_detections detections_to_action from_detections construct_result
  frame_to_perception width height boxes free = frame_to_detections width height boxes >>= λ dets.
      from_detections dets >>= λ c.
      construct_result (record { action = default_action dets free; claim = c })
