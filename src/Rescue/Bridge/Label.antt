-- ===== src/Rescue/Bridge/Label.antt =====
-- codebase/rescue/security_bridge.py: what the labels mean, and what a VERIFIED one rests on.
use veri_swarm_flight.Base.{
  ℕ, ◌≡◌, ◌≢◌, ◌↔◌, ◌⊎◌, refl, sym, ◌∙◌, ap, subst, Bool, true, false, not, ◌&&◌, List, String,
  string_eq, eq_iff, ◌==◌, arith, Option, some, ok, length, if◌then◌else◌,
}
use veri_swarm_flight.Base.Int.{ℤ, pos, ltb_ℤ, ◌≤ℤ◌}
use veri_swarm_flight.Base.Sets.{member, distinct, of_list}
use veri_swarm_flight.Base.Dict.{Dict}
use veri_swarm_flight.Base.Floats.{Floats}
use veri_swarm_flight.Protocol.Json.{Library}
use veri_swarm_flight.Protocol.Receipt.{Receipt, receipt_digest}
use veri_swarm_flight.Protocol.Vote.{SignedVote, verify_vote}
use veri_swarm_flight.Protocol.Consensus.{
  was_accepted, was_rejected, is_accepted, is_rejected, ConsensusResult, Engine, ReputationStore,
  voters_where, is_semantic, peers_of,
}
use veri_swarm_flight.Protocol.Consensus.Tally.{tally, terms_of, conclude, summarise}
use veri_swarm_flight.Protocol.Consensus.Count.{
  votes-IsTidy, distinct-voters_where, voters_where-peers,
}
use veri_swarm_flight.Protocol.Consensus.Agreement.{tally-eq-ok, ballots_of}
use veri_swarm_flight.Protocol.Consensus.Cast.{voter_cast}
use veri_swarm_flight.Rescue.Bridge.{
  SecurityAssessment, Assurance, integrity_failures, is_empty, label, label_outcome,
  assess_consensus_security,
}

-- The receipt passed every check, and the consensus is about it.
abbrev pub is_sound : ConsensusResult → Assurance → Bool
is_sound r e =
    e.receipt_verified
    && e.model_approved
    && e.runtime_approved
    && r.target_receipt_hash == e.expected_receipt_hash

-- What a label says.
abbrev pub state_of : ConsensusResult → Assurance → String
state_of r e =
    if is_sound r e
    then (if is_rejected r.outcome
        then "DISPUTED"
        else if is_accepted r.outcome && not (ltb_ℤ (pos r.semantic_ack_count) e.min_semantic_acks)
        then "VERIFIED"
        else "UNVERIFIED")
    else "DISPUTED"

is_empty-failures :
    (r : ConsensusResult) (e : Assurance) → is_empty (integrity_failures r e) ≡ is_sound r e
unfolding integrity_failures
is_empty-failures r e = ground arith

outcome_state : ConsensusResult → ℤ → String
outcome_state r least =
    if is_rejected r.outcome
    then "DISPUTED"
    else if is_accepted r.outcome && not (ltb_ℤ (pos r.semantic_ack_count) least)
    then "VERIFIED"
    else "UNVERIFIED"

label_outcome-state :
    (r : ConsensusResult) (least : ℤ) → (label_outcome r least).state ≡ outcome_state r least
unfolding label_outcome label outcome_state
label_outcome-state r least = ground arith

-- The state and the checks behind it.
assess-state :
    (r : ConsensusResult) (e : Assurance) (a : SecurityAssessment)
    → assess_consensus_security r e ≡ ok a
    → a.state ≡ (if is_sound r e then outcome_state r e.min_semantic_acks else "DISPUTED")
unfolding assess_consensus_security
assess-state r e a h =
    ground (arith, is_empty-failures r e, label_outcome-state r e.min_semantic_acks)

-- What a VERIFIED label takes.
pub record IsVerified (r : ConsensusResult) (e : Assurance) : Type 0 where
  pub checked :
      (e.receipt_verified ≡ true) × (e.model_approved ≡ true) × (e.runtime_approved ≡ true)
  pub bound : r.target_receipt_hash ≡ e.expected_receipt_hash
  pub accepted : r.outcome ≡ was_accepted
  pub enough : e.min_semantic_acks ≤ℤ pos r.semantic_ack_count

labels_differ :
    (◌≢◌ {A = String} "DISPUTED" "VERIFIED")
    × (◌≢◌ {A = String} "UNVERIFIED" "VERIFIED")
    × (◌≢◌ {A = String} "UNVERIFIED" "DISPUTED")
labels_differ = (
  λ h. cc ((eq_iff "DISPUTED" "VERIFIED").1 h),
  λ h. cc ((eq_iff "UNVERIFIED" "VERIFIED").1 h),
  λ h. cc ((eq_iff "UNVERIFIED" "DISPUTED").1 h),
)

ruleset apart = (arith, labels_differ)

state-IsVerified :
    (r : ConsensusResult) (e : Assurance)
    → (if is_sound r e then outcome_state r e.min_semantic_acks else "DISPUTED") ≡ "VERIFIED"
    → IsVerified r e
unfolding outcome_state
state-IsVerified r e h = record {
  checked = (ground apart, ground apart, ground apart);
  bound = ground (apart, eq_iff r.target_receipt_hash e.expected_receipt_hash);
  accepted = ground apart;
  enough = ground apart;
}

IsVerified-state :
    (r : ConsensusResult) (e : Assurance)
    → IsVerified r e
    → (if is_sound r e then outcome_state r e.min_semantic_acks else "DISPUTED") ≡ "VERIFIED"
unfolding outcome_state
IsVerified-state r e v =
    let (receipt, model, runtime) = v.checked in
    ground
      (apart, v.accepted, v.enough, v.bound, eq_iff r.target_receipt_hash e.expected_receipt_hash)

disputed_iff :
    (r : ConsensusResult) (e : Assurance)
    → ((if is_sound r e then outcome_state r e.min_semantic_acks else "DISPUTED") ≡ "DISPUTED")
      ↔ (is_sound r e ≡ false ⊎ r.outcome ≡ was_rejected)
unfolding outcome_state
disputed_iff r e = ground apart

-- The security label of a positive observation is VERIFIED exactly when the receipt, the model and
-- the runtime were approved, the consensus is about the expected receipt, it accepted it, and it has
-- the semantic votes that were asked for; it is DISPUTED exactly when one of the checks of the
-- receipt failed or the consensus rejected it, whatever else the consensus says.
pub assess-states :
    (r : ConsensusResult) (e : Assurance) (a : SecurityAssessment)
    → assess_consensus_security r e ≡ ok a
    → ((a.state ≡ "VERIFIED") ↔ IsVerified r e)
      × ((a.state ≡ "DISPUTED") ↔ (is_sound r e ≡ false ⊎ r.outcome ≡ was_rejected))
assess-states r e a h =
    let s = assess-state r e a h in
    rw s ((state-IsVerified r e, IsVerified-state r e), disputed_iff r e)

-- Distinct peers of the roster that signed, over this receipt, that they agree by what they saw.
pub record Backing {F B : Type 0} (lib : Library F B) (r : Receipt F) (keys : Dict String (List ℕ))
    (ids : List String) (least : ℤ) : Type 0 where
  pub voters : List String
  pub once : distinct voters ≡ true
  pub enough : least ≤ℤ pos (length voters)
  pub peers :
      (v : String) → member v voters ≡ true → member v (peers_of (of_list ids) r.drone_id) ≡ true
  pub signed :
      (v : String)
      → member v voters ≡ true
      → (s : SignedVote) × (s.vote.voter_id ≡ v)
        × (is_semantic s ≡ true)
        × (s.vote.target_receipt_hash ≡ receipt_digest lib r)
        × (verify_vote lib keys s ≡ true)

-- A VERIFIED label on the outcome of a tally is about the receipt that was tallied, and rests on as
-- many distinct peers of the roster as were asked for, none of them the originator: each of them
-- signed, over the digest of this receipt, an acknowledgement with the reason of a semantic check.
pub verified_label-Backing :
    {F B : Type 0} (lib : Library F B) ⦃fl : Floats F⦄ (eng : Engine) (r : Receipt F)
    (votes : List SignedVote) (keys : Dict String (List ℕ)) (ids : List String)
    (rep : Option (ReputationStore F)) (res : ConsensusResult) (e : Assurance)
    (a : SecurityAssessment)
    → tally lib eng r votes keys (some ids) rep ≡ ok res
    → assess_consensus_security res e ≡ ok a
    → a.state ≡ "VERIFIED"
    → (e.expected_receipt_hash ≡ receipt_digest lib r) × Backing lib r keys ids e.min_semantic_acks
unfolding terms_of conclude summarise
verified_label-Backing lib eng r votes keys ids rep res e a t h v =
    let (roster, made) = tally-eq-ok lib eng r votes keys (some ids) rep t in
    let verified = (assess-states res e a h).0.0 v in
    let terms = terms_of lib r keys (some ids) in
    let b = ballots_of lib r keys (some ids) votes in
    let tidy = votes-IsTidy lib terms votes in
    (
      sym verified.bound ∙ ap (λ x. x.target_receipt_hash) made,
      record {
        voters = voters_where is_semantic b.valid_by_voter;
        once = distinct-voters_where is_semantic b.valid_by_voter;
        enough = subst (λ x. e.min_semantic_acks ≤ℤ pos x.semantic_ack_count) made verified.enough;
        peers = voters_where-peers lib terms b tidy is_semantic (of_list ids) refl;
        signed = λ v m.
            let (s, said, mine) = voter_cast lib r votes keys ids is_semantic v m in
            (s, mine.voter, said, mine.target, mine.signed);
      },
    )
