-- ===== src/Tests/Data.antt =====
-- A small swarm: whole numbers as floats, a transparent encoding, and four drones with their keys.
use veri_swarm_flight.Base.{
  ℕ, ◌*◌, ◌/◌, ◌≡◌, refl, true, none, some, List, [], ◌∷◌, String, string_eq, ◌==◌, if◌then◌else◌,
  eqb, inl, inr, Bool-cases,
}
use veri_swarm_flight.Base.Int.{ℤ, pos, ◌+ℤ◌, ◌-ℤ◌, abs, ltb_ℤ, leb_ℤ, int_beq, pos_part}
use veri_swarm_flight.Base.Dict.{Dict}
use veri_swarm_flight.Base.Floats.{Floats}
use veri_swarm_flight.Base.Text.{is_hex_text}
use veri_swarm_flight.Perception.Claim.{PerceptionClaim}
use veri_swarm_flight.Protocol.Json.{Library, Json, text, object, field}
use veri_swarm_flight.Protocol.Receipt.{Receipt, SignedReceipt}
use veri_swarm_flight.Protocol.Vote.{Vote, ack, dispute, SignedVote, reason_ok}

-- Products and quotients of numbers that are not negative.
instance abbrev pub whole : Floats ℤ
whole = record {
  is_finite = λ x. true;
  le = leb_ℤ;
  lt = ltb_ℤ;
  eq = int_beq;
  plus = ◌+ℤ◌;
  minus = ◌-ℤ◌;
  times = λ x y. pos (pos_part x * pos_part y);
  over = λ x y. pos (pos_part x / pos_part y);
  magnitude = abs;
  sqrt = λ x. x;
  square = λ x. some (pos (pos_part x * pos_part x));
  of_nat = pos;
}

abbrev pub zeros : String
zeros = "0000000000000000000000000000000000000000000000000000000000000000"

abbrev pub ones : String
ones = "1111111111111111111111111111111111111111111111111111111111111111"

abbrev pub first_text : Json ℤ → String
first_text (object (field name (text t) rest)) = t
first_text other = ""

-- The digest tells the receipts of drone a from the others.
abbrev pub digest_of : Json ℤ → String
digest_of j = if first_text j == "a" then zeros else ones

abbrev pub signature_of : List ℕ → String
signature_of [] = "unsigned"
signature_of (n ∷ rest) =
    if eqb n 1
    then "signed by a"
    else if eqb n 2
    then "signed by b"
    else if eqb n 3
    then "signed by c"
    else "signed by d"

abbrev pub plain : Library ℤ (Json ℤ)
plain = record {
  dumps = λ j. j;
  sha256_hex = digest_of;
  load_key = λ hex. if hex == "" then none else some (1 ∷ []);
  verifies = λ key message signature. signature == signature_of key;
}

abbrev pub drones : List String
drones = "a" ∷ "b" ∷ "c" ∷ "d" ∷ []

abbrev pub swarm_keys : Dict String (List ℕ)
swarm_keys = ("a", 1 ∷ []) ∷ ("b", 2 ∷ []) ∷ ("c", 3 ∷ []) ∷ ("d", 4 ∷ []) ∷ []

abbrev pub seen_claim : PerceptionClaim ℤ
seen_claim = record {
  measured = true;
  detections_present = true;
  detection_count = pos 2;
  class_ids = pos 3 ∷ pos 7 ∷ [];
  occupancy = pos 1;
  max_confidence = pos 1;
  bearing = pos 0;
}

abbrev pub receipt : Receipt ℤ
receipt = record {
  drone_id = "a";
  timestamp_ns = pos 1000;
  input_hash = ones;
  model_hash = zeros;
  output = pos 1 ∷ pos 0 ∷ pos 0 ∷ [];
  nonce = "0123456789abcdef0123456789abcdef";
  version = pos 4;
  mission_id = "mission";
  mission_epoch = pos 1;
  sequence = pos 5;
  runtime_hash = zeros;
  action_frame = "BODY_FLU_NORMALIZED_VELOCITY";
  valid_for_ns = pos 2000000000;
  pose_enu = pos 0 ∷ pos 0 ∷ pos 9 ∷ pos 0 ∷ pos 0 ∷ pos 0 ∷ [];
  pose_timestamp_ns = pos 900;
  pose_uncertainty_m = pos 1;
  perception = seen_claim;
}

abbrev pub signed : SignedReceipt ℤ
signed = record { receipt = receipt; signature = "signed by a" }

abbrev pub vote_of : String → String → Vote → SignedVote
vote_of voter signature decision = record {
  vote = record {
    voter_id = voter;
    target_receipt_hash = zeros;
    decision = decision;
    reason = reason_ok;
    timestamp_ns = pos 1100;
  };
  signature = signature;
}

abbrev pub acks : List SignedVote
acks =
    vote_of "b" "signed by b" ack
    ∷ vote_of "c" "signed by c" ack
    ∷ vote_of "d" "signed by d" ack
    ∷ []

abbrev pub disputes : List SignedVote
disputes = vote_of "b" "signed by b" dispute ∷ vote_of "d" "signed by d" dispute ∷ []

pub digest_of-is_hex : (m : Json ℤ) → is_hex_text 64 (digest_of m) ≡ true
unfolding is_hex_text
digest_of-is_hex m = elim (Bool-cases (first_text m == "a")) [
  | inl here ↦ rw here refl
  | inr other ↦ rw other refl
]
