-- ===== src/Rescue/Bridge.antt =====
-- codebase/rescue/security_bridge.py: `assess_consensus_security`. The flags are bools by their type.
pub mod Label
use veri_swarm_flight.Base.{
  ℕ, Bool, true, false, not, List, [], ◌∷◌, ◌++◌, String, string_eq, ◌==◌, ◌!=◌, if◌then◌else◌,
  Result, ok, raise, value_error, eqb, ltb,
}
use veri_swarm_flight.Base.Int.{ℤ, pos, ltb_ℤ}
use veri_swarm_flight.Base.Sets.{of_list}
use veri_swarm_flight.Base.Text.{is_hex_text}
use veri_swarm_flight.Protocol.Consensus.{ConsensusResult, was_accepted, was_rejected, no_quorum}
use veri_swarm_flight.Rescue.Movement.{sort_texts}

pub record SecurityAssessment : Type 0 where
  pub state : String
  pub reasons : List String

-- What was checked elsewhere about the receipt, and the number of semantic votes that is asked for.
pub record Assurance : Type 0 where
  pub expected_receipt_hash : String
  pub receipt_verified : Bool
  pub model_approved : Bool
  pub runtime_approved : Bool
  pub min_semantic_acks : ℤ

-- `if test: reasons.append(reason)`.
abbrev pub when : Bool → String → List String
when test reason = if test then reason ∷ [] else []

unfoldable pub integrity_failures : ConsensusResult → Assurance → List String
integrity_failures r e =
    when (not e.receipt_verified) "receipt_not_verified"
    ++ (when (not e.model_approved) "model_not_approved"
        ++ (when (not e.runtime_approved) "runtime_not_approved"
            ++ when (r.target_receipt_hash != e.expected_receipt_hash)
                "consensus_receipt_digest_mismatch"))

abbrev pub is_empty : {A : Type 0} → List A → Bool
is_empty [] = true
is_empty (x ∷ xs) = false

unfoldable pub warnings : ConsensusResult → List String
warnings r =
    when (not (is_empty r.equivocation_voter_ids)) "peer_equivocation_detected"
    ++ when (not (eqb r.dispute_count 0)) "minority_dispute_present"

-- `SecurityAssessment(state, tuple(sorted(set(reasons))))`.
unfoldable pub label : String → List String → SecurityAssessment
label state reasons = record { state = state; reasons = sort_texts (of_list reasons) }

-- The label of a result whose receipt is sound.
unfoldable pub label_outcome : ConsensusResult → ℤ → SecurityAssessment
unfolding warnings label
label_outcome r least = elim r.outcome [
  | was_rejected ↦ label "DISPUTED" (warnings r ++ "consensus_rejected" ∷ [])
  | no_quorum ↦ label "UNVERIFIED" (warnings r ++ "consensus_no_quorum" ∷ [])
  | was_accepted ↦
      if ltb_ℤ (pos r.semantic_ack_count) least
      then label "UNVERIFIED" (warnings r ++ "semantic_cross_check_insufficient" ∷ [])
      else label "VERIFIED" (warnings r)
]

unfoldable pub assess_consensus_security : ConsensusResult → Assurance → Result SecurityAssessment
unfolding integrity_failures label_outcome
assess_consensus_security r e =
    if not (is_hex_text 64 e.expected_receipt_hash)
    then raise (value_error "expected_receipt_hash must be lowercase SHA-256 hex")
    else if ltb_ℤ e.min_semantic_acks (pos 1)
    then raise (value_error "min_semantic_acks must be a positive integer")
    else if is_empty (integrity_failures r e)
    then ok (label_outcome r e.min_semantic_acks)
    else ok (record { state = "DISPUTED"; reasons = integrity_failures r e })
