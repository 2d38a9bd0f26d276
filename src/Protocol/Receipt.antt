-- ===== src/Protocol/Receipt.antt =====
-- codebase/protocol/receipts.py: `Receipt`, `SignedReceipt`, the checks at construction and the
-- canonical form that is signed.
pub mod Binding
use veri_swarm_flight.Base.{
  ℕ, ◌≡◌, refl, Bool, true, false, not, ◌&&◌, ◌||◌, Option, none, some, List, [], ◌∷◌, String,
  arith, ◌==◌, ◌!=◌, string_eq, Result, ok, raise, ◌>>◌, ◌>>=◌, check_all, length, all, eqb, leb,
}
use veri_swarm_flight.Base.Int.{ℤ, pos, ltb_ℤ, leb_ℤ, int_eq}
use veri_swarm_flight.Base.Floats.{Floats, float, minus_one}
use veri_swarm_flight.Base.Text.{codes, is_hex_text, is_name_char, is_reason_char, is_name_codes}
use veri_swarm_flight.Perception.Claim.{PerceptionClaim, outside}
use veri_swarm_flight.Protocol.Json.{
  Json, boolean, integer, number, text, array, object, Fields, end, field, numbers, integers,
  Library,
}

abbrev pub protocol_version : ℤ
protocol_version = pos 4

abbrev pub default_action_frame : String
default_action_frame = "BODY_FLU_NORMALIZED_VELOCITY"

-- Two seconds, in nanoseconds.
abbrev pub default_valid_for_ns : ℤ
default_valid_for_ns = pos 2000000000

-- `[A-Za-z0-9][A-Za-z0-9_.-]{0,63}\Z`.
unfoldable pub is_drone_id : String → Bool
unfolding is_name_codes codes is_name_char
is_drone_id s = is_name_codes is_name_char 63 (codes s)

-- `[A-Za-z0-9][A-Za-z0-9_.:-]{0,127}\Z`.
unfoldable pub is_mission_id : String → Bool
unfolding is_name_codes codes is_reason_char
is_mission_id s = is_name_codes is_reason_char 127 (codes s)

pub record Receipt (F : Type 0) : Type 0 where
  pub drone_id : String
  pub timestamp_ns : ℤ
  pub input_hash : String
  pub model_hash : String
  pub output : List F
  pub nonce : String
  pub version : ℤ
  pub mission_id : String
  pub mission_epoch : ℤ
  pub sequence : ℤ
  pub runtime_hash : String
  pub action_frame : String
  pub valid_for_ns : ℤ
  pub pose_enu : List F
  pub pose_timestamp_ns : ℤ
  pub pose_uncertainty_m : F
  pub perception : PerceptionClaim F

pub record SignedReceipt (F : Type 0) : Type 0 where
  pub receipt : Receipt F
  pub signature : String

module _ {F : Type 0} ⦃fl : Floats F⦄ where
  -- `pose[2] < 0.0`, for a pose that has a third value.
  unfoldable pub below_ground : List F → Bool
  below_ground (x ∷ y ∷ z ∷ rest) = fl.lt z (float 0)
  below_ground pose = false

  -- The checks of `Receipt.__post_init__`, in order. `float(v)` of a float is the float.
  unfoldable pub receipt_checks : Receipt F → List (Bool × String)
  receipt_checks r =
      (
        not (is_drone_id r.drone_id),
        "drone_id must be 1-64 ASCII letters/digits/._- and start with a letter or digit",
      )
      ∷ (ltb_ℤ r.timestamp_ns (pos 0), "timestamp_ns must be non-negative")
      ∷ (r.version != protocol_version, "unsupported protocol_version")
      ∷ (not (is_mission_id r.mission_id), "mission_id must be 1-128 safe ASCII characters")
      ∷ (
        ltb_ℤ r.mission_epoch (pos 0) || ltb_ℤ r.sequence (pos 0),
        "mission_epoch and sequence must be non-negative",
      )
      ∷ (not (is_hex_text 64 r.input_hash), "input_hash must be 64 lowercase hex chars (SHA-256)")
      ∷ (not (is_hex_text 64 r.model_hash), "model_hash must be 64 lowercase hex chars (SHA-256)")
      ∷ (not (is_hex_text 32 r.nonce), "nonce must be 32 lowercase hex chars (16 bytes)")
      ∷ (
        not (is_hex_text 64 r.runtime_hash),
        "runtime_hash must be 64 lowercase hex chars (SHA-256)",
      )
      ∷ (r.action_frame != default_action_frame, "unsupported action_frame")
      ∷ (
        not (ltb_ℤ (pos 0) r.valid_for_ns && leb_ℤ r.valid_for_ns default_valid_for_ns),
        "valid_for_ns must be in [1, 2000000000]",
      )
      ∷ (
        not (eqb (length r.pose_enu) 6) || not (all fl.is_finite r.pose_enu),
        "pose_enu must contain six finite x,y,z,yaw,pitch,roll values",
      )
      ∷ (below_ground r.pose_enu, "pose altitude must be non-negative")
      ∷ (ltb_ℤ r.pose_timestamp_ns (pos 0), "pose_timestamp_ns must be non-negative")
      ∷ (
        not (fl.is_finite r.pose_uncertainty_m) || fl.lt r.pose_uncertainty_m (float 0),
        "pose_uncertainty_m must be finite and non-negative",
      )
      ∷ (not (eqb (length r.output) 3), "output must contain exactly 3 action values")
      ∷ (not (all fl.is_finite r.output), "output values must be finite")
      ∷ (
        not (all (λ x. not (outside minus_one (float 1) x)) r.output),
        "output values must be in [-1, 1]",
      )
      ∷ []

  -- Construction returns the receipt or raises.
  unfoldable pub construct_receipt : Receipt F → Result (Receipt F)
  construct_receipt r = check_all (receipt_checks r) >> ok r

  -- `SignedReceipt.__post_init__`.
  unfoldable pub construct_signed_receipt : SignedReceipt F → Result (SignedReceipt F)
  construct_signed_receipt s =
      check_all
        ((not (is_hex_text 128 s.signature), "signature must be 128 lowercase hex chars") ∷ [])
      >> ok s

module _ {F : Type 0} where
  -- `asdict(claim)`.
  unfoldable pub claim_dict : PerceptionClaim F → Json F
  claim_dict c = object (
      field "measured" (boolean c.measured) (
        field "detections_present" (boolean c.detections_present) (
          field "detection_count" (integer c.detection_count) (
            field "class_ids" (array (integers c.class_ids)) (
              field "occupancy" (number c.occupancy) (
                field "max_confidence" (number c.max_confidence)
                  (field "bearing" (number c.bearing) end)))))))

  -- `asdict(receipt)`.
  unfoldable pub receipt_dict : Receipt F → Json F
  receipt_dict r = object (
      field "drone_id" (text r.drone_id) (
        field "timestamp_ns" (integer r.timestamp_ns) (
          field "input_hash" (text r.input_hash) (
            field "model_hash" (text r.model_hash) (
              field "output" (array (numbers r.output)) (
                field "nonce" (text r.nonce) (
                  field "protocol_version" (integer r.version) (
                    field "mission_id" (text r.mission_id) (
                      field "mission_epoch" (integer r.mission_epoch) (
                        field "sequence" (integer r.sequence) (
                          field "runtime_hash" (text r.runtime_hash) (
                            field "action_frame" (text r.action_frame) (
                              field "valid_for_ns" (integer r.valid_for_ns) (
                                field "pose_enu" (array (numbers r.pose_enu)) (
                                  field "pose_timestamp_ns" (integer r.pose_timestamp_ns) (
                                    field "pose_uncertainty_m" (number r.pose_uncertainty_m) (
                                      field "perception" (claim_dict r.perception)
                                        end)))))))))))))))))

module _ {F B : Type 0} (lib : Library F B) where
  -- `Receipt.canonical`.
  unfoldable pub canonical : Receipt F → B
  canonical r = lib.dumps (receipt_dict r)

  -- `receipt_digest` of peer_consensus.py.
  unfoldable pub receipt_digest : Receipt F → String
  receipt_digest r = lib.sha256_hex (canonical r)
