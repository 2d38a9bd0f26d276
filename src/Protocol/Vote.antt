-- ===== src/Protocol/Vote.antt =====
-- codebase/protocol/peer_consensus.py: votes, their checks and signed form, and `VoteVerifier`.
use veri_swarm_flight.Base.{
  ℕ, ◌≡◌, ◌↔◌, Bool, true, false, not, ◌&&◌, none, some, List, [], ◌∷◌, String, string_eq, arith,
  Eq, ◌==◌, Result, ok, ◌>>◌, check_all, length, all, leb, eq_iff,
}
use veri_swarm_flight.Base.Int.{ℤ, pos, ltb_ℤ, int_eq, int_beq_iff}
use veri_swarm_flight.Base.Dict.{Dict, get}
use veri_swarm_flight.Base.Text.{codes, is_hex_text, is_reason_char}
use veri_swarm_flight.Protocol.Json.{integer, text, object, end, field, Library}
use veri_swarm_flight.Protocol.Receipt.{is_drone_id}

pub data Vote : Type 0 where
  ack dispute : Vote

abbrev pub vote_beq : Vote → Vote → Bool
vote_beq ack ack = true
vote_beq ack dispute = false
vote_beq dispute ack = false
vote_beq dispute dispute = true

-- `decision.value`.
abbrev pub vote_value : Vote → String
vote_value ack = "ACK"
vote_value dispute = "DISPUTE"

abbrev pub reason_ok : String
reason_ok = "ok"

abbrev pub reason_no_covisibility : String
reason_no_covisibility = "ok_no_covisibility"

abbrev pub reason_no_observation : String
reason_no_observation = "ok_no_observation"

abbrev pub reason_semantic_disagreement : String
reason_semantic_disagreement = "semantic_disagreement"

pub record PeerVote : Type 0 where
  pub voter_id : String
  pub target_receipt_hash : String
  pub decision : Vote
  pub reason : String
  pub timestamp_ns : ℤ

pub record SignedVote : Type 0 where
  pub vote : PeerVote
  pub signature : String

-- `a == b` of two votes, field by field.
unfoldable pub peer_vote_beq : PeerVote → PeerVote → Bool
peer_vote_beq a b =
    a.voter_id == b.voter_id
    && a.target_receipt_hash == b.target_receipt_hash
    && vote_beq a.decision b.decision
    && a.reason == b.reason
    && a.timestamp_ns == b.timestamp_ns

vote_beq_iff : (a b : Vote) → (vote_beq a b ≡ true) ↔ (a ≡ b)
vote_beq_iff ack ack = ground arith
vote_beq_iff ack dispute = ground arith
vote_beq_iff dispute ack = ground arith
vote_beq_iff dispute dispute = ground arith

pub peer_vote_beq_iff : (a b : PeerVote) → (peer_vote_beq a b ≡ true) ↔ (a ≡ b)
unfolding peer_vote_beq
peer_vote_beq_iff a b = ground (
  arith,
  eq_iff a.voter_id b.voter_id,
  eq_iff a.target_receipt_hash b.target_receipt_hash,
  vote_beq_iff a.decision b.decision,
  eq_iff a.reason b.reason,
  int_beq_iff a.timestamp_ns b.timestamp_ns,
)

instance abbrev pub peer_vote_eq : Eq PeerVote
peer_vote_eq = record { beq = peer_vote_beq; beq_iff = peer_vote_beq_iff }

-- `[A-Za-z0-9_.:-]{1,128}\Z`.
unfoldable pub is_reason : String → Bool
unfolding codes is_reason_char
is_reason s = leb 1 (length (codes s)) && leb (length (codes s)) 128 && all is_reason_char (codes s)

-- The checks of `PeerVote.__post_init__`.
unfoldable pub vote_checks : PeerVote → List (Bool × String)
vote_checks v =
    (not (is_drone_id v.voter_id), "invalid voter_id")
    ∷ (
      not (is_hex_text 64 v.target_receipt_hash),
      "target_receipt_hash must be lowercase SHA-256 hex",
    )
    ∷ (not (is_reason v.reason), "vote reason must be 1-128 safe ASCII characters")
    ∷ (ltb_ℤ v.timestamp_ns (pos 0), "vote timestamp must be non-negative")
    ∷ []

unfoldable pub construct_vote : PeerVote → Result PeerVote
construct_vote v = check_all (vote_checks v) >> ok v

-- `SignedVote.__post_init__`.
unfoldable pub construct_signed_vote : SignedVote → Result SignedVote
construct_signed_vote s =
    check_all
      ((not (is_hex_text 128 s.signature), "vote signature must be 128 lowercase hex chars") ∷ [])
    >> ok s

module _ {F B : Type 0} (lib : Library F B) where
  -- `PeerVote.canonical`.
  unfoldable pub canonical_vote : PeerVote → B
  canonical_vote v = lib.dumps (
      object (
        field "voter_id" (text v.voter_id) (
          field "target_receipt_hash" (text v.target_receipt_hash) (
            field "decision" (text (vote_value v.decision)) (
              field "reason" (text v.reason)
                (field "timestamp_ns" (integer v.timestamp_ns) end))))))

  -- `VoteVerifier.verify`, over the loaded keys.
  unfoldable pub verify_vote : Dict String (List ℕ) → SignedVote → Bool
  verify_vote keys s = elim (get s.vote.voter_id keys) [
    | none ↦ false
    | some key ↦ lib.verifies key (canonical_vote s.vote) s.signature
  ]
