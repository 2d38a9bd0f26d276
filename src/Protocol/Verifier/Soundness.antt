-- ===== src/Protocol/Verifier/Soundness.antt =====
-- codebase/protocol/receipts.py: what `ReceiptVerifier.verify` accepts, and what it leaves alone.
use veri_swarm_flight.Base.{
  ℕ, ◌≡◌, inl, inr, Bool, true, false, none, some, List, String, string_eq, arith, Option-cases,
  eq_iff,
}
use veri_swarm_flight.Base.Int.{ℤ, pos, ◌≤ℤ◌, abs, ◌-ℤ◌, int_eq, int_beq_iff}
use veri_swarm_flight.Base.Sets.{member}
use veri_swarm_flight.Base.Dict.{get, has_key}
use veri_swarm_flight.Protocol.Json.{Library}
use veri_swarm_flight.Protocol.Receipt.{SignedReceipt, canonical, receipt_digest}
use veri_swarm_flight.Protocol.Verifier.{
  Verifier, digests, sequences, not_approved, objection, consume_receipt, claim_sequence, verify,
}

module _ {F B : Type 0} (lib : Library F B) where
  -- The evidence behind an accepted receipt.
  pub record IsBacked (v : Verifier) (s : SignedReceipt F) (now : ℤ) : Type 0 where
    pub fresh_window :
        pos 1 ≤ℤ v.max_age_ns
        → (abs (now -ℤ s.receipt.timestamp_ns) ≤ℤ v.max_age_ns)
          × (abs (now -ℤ s.receipt.timestamp_ns) ≤ℤ s.receipt.valid_for_ns)
    pub mission : (m : String) → v.expected_mission_id ≡ some m → s.receipt.mission_id ≡ m
    pub epoch : (n : ℤ) → v.expected_mission_epoch ≡ some n → s.receipt.mission_epoch ≡ n
    pub signed_by :
        (key : List ℕ) × (get s.receipt.drone_id v.peer_keys ≡ some key)
        × (lib.verifies key (canonical lib s.receipt) s.signature ≡ true)
    pub model : member s.receipt.model_hash v.approved_models ≡ true
    pub runtime : not_approved v.approved_runtimes s.receipt.runtime_hash ≡ false

  objection-IsBacked :
      (v : Verifier) (s : SignedReceipt F) (now : ℤ)
      → objection lib v s now ≡ none
      → IsBacked v s now
  unfolding objection
  objection-IsBacked v s now h = record {
    fresh_window = λ p. (ground arith, ground arith);
    mission = λ m e. ground (arith, eq_iff s.receipt.mission_id m);
    epoch = λ n e. ground (arith, int_beq_iff s.receipt.mission_epoch n);
    signed_by = elim (Option-cases (get s.receipt.drone_id v.peer_keys)) [
      | inl unknown ↦ absurd (ground arith)
      | inr (key, found) ↦ (key, found, ground arith)
    ];
    model = ground arith;
    runtime = ground arith;
  }

  -- A receipt is accepted only if all the evidence is there: it is fresh by the verifier's limit
  -- and by its own where a limit is set, of the expected mission and epoch, signed under the key
  -- registered for its drone, and its model and runtime are approved; with `consume` it also was
  -- not remembered in the scope, nor its sequence number where these are enforced.
  pub verify-IsBacked :
      (v : Verifier) (s : SignedReceipt F) (now : ℤ) (scope : String) (consume : Bool)
      → (verify lib v s now scope consume).1.passed ≡ true
      → IsBacked v s now
        × (consume ≡ true → has_key (receipt_digest lib s.receipt) (digests v scope) ≡ false)
        × (consume ≡ true
            → v.enforce_sequence ≡ true
            → has_key s.receipt.sequence (sequences v scope s.receipt.drone_id) ≡ false)
  unfolding verify consume_receipt claim_sequence
  verify-IsBacked v s now scope consume h =
      (objection-IsBacked v s now (ground arith), λ c. ground arith, λ c q. ground arith)
