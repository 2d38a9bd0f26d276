-- ===== src/Protocol/Receipt/Binding.antt =====
-- codebase/protocol/receipts.py: what the signed bytes of a receipt determine, and what the checks
-- at construction establish.
use veri_swarm_flight.Base.{
  ℕ, zero, suc, ap, ◌≡◌, true, false, String, arith, ok, AllPassed, checked-eq-ok, length, all,
}
use veri_swarm_flight.Base.Int.{ℤ, pos, ◌≤ℤ◌, ◌<ℤ◌, int_eq}
use veri_swarm_flight.Base.Floats.{Floats}
use veri_swarm_flight.Perception.Claim.{PerceptionClaim}
use veri_swarm_flight.Protocol.Json.{
  Library, Json, boolean, integer, number, text, array, object, Fields, end, field, Items, nil,
  numbers-injective, integers-injective,
}
use veri_swarm_flight.Protocol.Receipt.{
  Receipt, is_drone_id, receipt_checks, construct_receipt, claim_dict, receipt_dict, canonical,
}

module _ {F : Type 0} where
  claim_dict-injective : (c d : PerceptionClaim F) → claim_dict c ≡ claim_dict d → c ≡ d
  unfolding claim_dict
  claim_dict-injective c d h = cc (integers-injective {F = F} c.class_ids d.class_ids (cc))

  -- The n-th value of a dictionary, and readings of a value.
  abbrev value_at : ℕ → Fields F → Json F
  value_at n end = boolean false
  value_at zero (field name value rest) = value
  value_at (suc n) (field name value rest) = value_at n rest

  abbrev part : ℕ → Json F → Json F
  part n (object fields) = value_at n fields
  part n other = other

  abbrev as_text : Json F → String
  as_text (text t) = t
  as_text other = ""

  abbrev as_integer : Json F → ℤ
  as_integer (integer n) = n
  as_integer other = pos 0

  abbrev as_items : Json F → Items F
  as_items (array items) = items
  as_items other = nil

  abbrev as_number : F → Json F → F
  as_number default (number x) = x
  as_number default other = default

  receipt_dict-injective : (r s : Receipt F) → receipt_dict r ≡ receipt_dict s → r ≡ s
  unfolding receipt_dict
  receipt_dict-injective r s h = λ i. record {
    drone_id = ap (λ j. as_text (part 0 j)) h i;
    timestamp_ns = ap (λ j. as_integer (part 1 j)) h i;
    input_hash = ap (λ j. as_text (part 2 j)) h i;
    model_hash = ap (λ j. as_text (part 3 j)) h i;
    output = numbers-injective r.output s.output (ap (λ j. as_items (part 4 j)) h) i;
    nonce = ap (λ j. as_text (part 5 j)) h i;
    version = ap (λ j. as_integer (part 6 j)) h i;
    mission_id = ap (λ j. as_text (part 7 j)) h i;
    mission_epoch = ap (λ j. as_integer (part 8 j)) h i;
    sequence = ap (λ j. as_integer (part 9 j)) h i;
    runtime_hash = ap (λ j. as_text (part 10 j)) h i;
    action_frame = ap (λ j. as_text (part 11 j)) h i;
    valid_for_ns = ap (λ j. as_integer (part 12 j)) h i;
    pose_enu = numbers-injective r.pose_enu s.pose_enu (ap (λ j. as_items (part 13 j)) h) i;
    pose_timestamp_ns = ap (λ j. as_integer (part 14 j)) h i;
    pose_uncertainty_m = ap (λ j. as_number r.pose_uncertainty_m (part 15 j)) h i;
    perception = claim_dict-injective r.perception s.perception (ap (part 16) h) i;
  }

module _ {F B : Type 0} where
  -- The signed bytes determine the whole receipt, its perception claim included: no field can be
  -- changed without changing them. It rests on `json.dumps` printing different dictionaries of one
  -- shape differently.
  pub canonical-injective :
      (lib : Library F B)
      → ((r s : Receipt F)
          → lib.dumps (receipt_dict r) ≡ lib.dumps (receipt_dict s)
          → receipt_dict r ≡ receipt_dict s)
      → (r s : Receipt F) → canonical lib r ≡ canonical lib s
      → r ≡ s
  unfolding canonical
  canonical-injective lib prints r s h = receipt_dict-injective r s (prints r s h)

module _ {F : Type 0} ⦃fl : Floats F⦄ where
  -- What a constructed receipt guarantees.
  pub record IsSound (r : Receipt F) : Type 0 where
    pub identity : is_drone_id r.drone_id ≡ true
    pub stamped : pos 0 ≤ℤ r.timestamp_ns
    pub rounds : (pos 0 ≤ℤ r.mission_epoch) × (pos 0 ≤ℤ r.sequence)
    pub validity : (pos 0 <ℤ r.valid_for_ns) × (r.valid_for_ns ≤ℤ pos 2000000000)
    pub three_actions : length r.output ≡ 3
    pub six_pose : length r.pose_enu ≡ 6
    pub finite_output : all fl.is_finite r.output ≡ true

  receipt_checks-IsSound : (r : Receipt F) → AllPassed (receipt_checks r) → IsSound r
  unfolding receipt_checks
  receipt_checks-IsSound r passed = record {
    identity = ground arith;
    stamped = ground arith;
    rounds = (ground arith, ground arith);
    validity = (ground arith, ground arith);
    three_actions = ground arith;
    six_pose = ground arith;
    finite_output = ground arith;
  }

  -- A receipt that construction admits is stored unchanged, and has a valid drone id, a
  -- non-negative time, epoch and sequence, a validity of at most two seconds, exactly three finite
  -- action values and six pose values.
  pub construct_receipt-IsSound :
      (r s : Receipt F) → construct_receipt r ≡ ok s → (s ≡ r) × IsSound r
  unfolding construct_receipt
  construct_receipt-IsSound r s h =
      let (passed, same) = checked-eq-ok (receipt_checks r) r s h in
      (same, receipt_checks-IsSound r passed)
