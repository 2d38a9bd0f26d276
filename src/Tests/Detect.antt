-- ===== src/Tests/Detect.antt =====
-- A frame with two boxes, in which whole numbers are the floats.
use veri_swarm_flight.Base.{◌≡◌, refl, true, false, List, [], ◌∷◌, ok, ◌>>=◌, arith, check_all}
use veri_swarm_flight.Base.Int.{ℤ, pos, ◌+ℤ◌}
use veri_swarm_flight.Perception.Detector.{
  Detection, Box, construct_detection, clip, weigh, steer, detections_to_action, dominant_of,
  confidence_of, area_of, evidence_of, from_detections, construct_result, frame_to_detections,
  default_action, frame_to_perception,
}
use veri_swarm_flight.Perception.Detector.Bounds.{IsOrdered, Normalized, frame_to_perception_lem}
use veri_swarm_flight.Tests.Data.{whole}
use veri_swarm_flight.Tests.Sense.{program as scene}

program : Unit {0}
unfolding scene ◌+ℤ◌ check_all construct_detection clip weigh steer detections_to_action dominant_of
    confidence_of area_of evidence_of from_detections construct_result frame_to_detections
    frame_to_perception
program = tt

abbrev boxes : List (Box ℤ)
boxes =
    record { cls = pos 7; x1 = pos 0; y1 = pos 0; x2 = pos 4; y2 = pos 2; conf = pos 1 }
    ∷ record { cls = pos 3; x1 = pos 2; y1 = pos 0; x2 = pos 6; y2 = pos 2; conf = pos 0 }
    ∷ []

abbrev detections : List (Detection ℤ)
detections =
    record { cls = pos 7; x = pos 0; y = pos 0; w = pos 1; h = pos 1; conf = pos 1 }
    ∷ record { cls = pos 3; x = pos 1; y = pos 0; w = pos 1; h = pos 1; conf = pos 0 }
    ∷ []

two_found : frame_to_detections (pos 4) (pos 2) boxes ≡ ok detections
unfolding program
two_found = refl

two_claimed :
    from_detections detections
    ≡ ok (record {
      measured = true;
      detections_present = true;
      detection_count = pos 2;
      class_ids = pos 3 ∷ pos 7 ∷ [];
      occupancy = pos 1;
      max_confidence = pos 1;
      bearing = pos 0;
    })
unfolding program
two_claimed = refl

ordered : IsOrdered ℤ
unfolding program
ordered = record {
  le_of_lt = λ x y below. ground arith;
  finite_between = λ x above below. refl;
  minus_one_in = refl;
  zero_in = refl;
  one_in = refl;
}

frame_to_perception_lem_example :
    (frame_to_perception (pos 4) (pos 2) boxes false ≡ (
      frame_to_detections (pos 4) (pos 2) boxes >>= λ dets.
      from_detections dets >>= λ c. ok (record { action = default_action dets false; claim = c })))
    × Normalized (detections_to_action detections (pos 3) (pos 3) (pos 2) false)
frame_to_perception_lem_example =
    frame_to_perception_lem ordered (pos 4) (pos 2) boxes false detections (pos 3) (pos 3) (pos 2)
