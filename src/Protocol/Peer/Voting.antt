-- ===== src/Protocol/Peer/Voting.antt =====
-- codebase/protocol/peer_consensus.py: `PeerVerifier.vote_on` and `_build_signed_vote`.
use veri_swarm_flight.Base.{
  true, not, ◌&&◌, Option, none, some, String, string_eq, if◌then◌else◌, Result, ok, raise, ◌>>=◌,
}
use veri_swarm_flight.Base.Int.{ℤ}
use veri_swarm_flight.Base.Dict.{get, set_item, move_to_end, trim}
use veri_swarm_flight.Base.Floats.{Floats}
use veri_swarm_flight.Protocol.Json.{Library}
use veri_swarm_flight.Protocol.Receipt.{Receipt, SignedReceipt, receipt_digest}
use veri_swarm_flight.Protocol.Verifier.{VerificationResult, verify}
use veri_swarm_flight.Protocol.Vote.{
  Vote, ack, dispute, SignedVote, construct_vote, construct_signed_vote, canonical_vote,
  reason_no_covisibility, reason_no_observation,
}
use veri_swarm_flight.Protocol.Peer.{
  PeerVerifier, Senses, Evidence, CoVisDiagnostic, Verdict, verdict_of, vote_cache_size, co_visible,
  semantic_applicable, geometry_supplied, compare_observations,
}

module _ {F : Type 0} ⦃fl : Floats F⦄ where
  module _ {B Pose Frame : Type 0} (senses : Senses F B Pose Frame) where
    -- The decision of `vote_on` after the cryptographic check.
    unfoldable pub judge :
        PeerVerifier F → VerificationResult → Receipt F → Evidence F Pose Frame → Result Verdict
    judge pv result r ev =
        if not result.passed
        then ok (verdict_of dispute result.reason)
        else if not (semantic_applicable r ev)
        then ok (verdict_of ack reason_no_observation)
        else if geometry_supplied ev && not (co_visible senses pv ev).covisible
        then ok (verdict_of ack reason_no_covisibility)
        else compare_observations pv r ev

    -- `last_covis` after it: the gate is only reached with a semantic check and a geometry.
    unfoldable pub covis_after :
        PeerVerifier F
        → VerificationResult
        → Receipt F
        → Evidence F Pose Frame
        → Option (CoVisDiagnostic F)
    covis_after pv result r ev =
        if result.passed && semantic_applicable r ev && geometry_supplied ev
        then some (co_visible senses pv ev)
        else pv.last_covis

  module _ {B Pose Frame : Type 0} (lib : Library F B) (senses : Senses F B Pose Frame) where
    -- The vote of `_build_signed_vote`, signed.
    unfoldable pub sign_vote : PeerVerifier F → Receipt F → Vote → String → ℤ → Result SignedVote
    sign_vote pv r decision reason now =
        construct_vote (record {
          voter_id = pv.my_drone_id;
          target_receipt_hash = receipt_digest lib r;
          decision = decision;
          reason = reason;
          timestamp_ns = now;
        })
        >>= λ v.
            construct_signed_vote
              (record { vote = v; signature = senses.sign_bytes (canonical_vote lib v) })

    -- `_build_signed_vote`: the vote is cached as the youngest.
    unfoldable pub build_signed_vote :
        PeerVerifier F → Receipt F → Vote → String → ℤ → PeerVerifier F × Result SignedVote
    build_signed_vote pv r decision reason now =
        let digest = receipt_digest lib r in
        elim (sign_vote pv r decision reason now) [
          | raise e ↦ (pv, raise e)
          | ok signed ↦ (
            record pv {
              vote_cache =
                  trim vote_cache_size (move_to_end digest (set_item digest signed pv.vote_cache));
            },
            ok signed,
          )
        ]

    -- `PeerVerifier.vote_on` on a receipt without a cached vote.
    unfoldable pub vote_fresh :
        PeerVerifier F
        → SignedReceipt F
        → Evidence F Pose Frame
        → PeerVerifier F × Result SignedVote
    vote_fresh pv s ev =
        let (checker, result) =
          verify lib pv.receipt_verifier s ev.checked_at pv.my_drone_id true in
        let pv' : PeerVerifier F = record pv {
          receipt_verifier = checker;
          last_covis = covis_after senses pv result s.receipt ev;
        } in
        elim (judge senses pv result s.receipt ev) [
          | raise e ↦ (pv', raise e)
          | ok v ↦ build_signed_vote pv' s.receipt v.decision v.reason ev.voted_at
        ]

    -- `PeerVerifier.vote_on`.
    unfoldable pub vote_on :
        PeerVerifier F
        → SignedReceipt F
        → Evidence F Pose Frame
        → PeerVerifier F × Result SignedVote
    vote_on pv s ev = elim (get (receipt_digest lib s.receipt) pv.vote_cache) [
      | some cached ↦ (
        record pv { vote_cache = move_to_end (receipt_digest lib s.receipt) pv.vote_cache },
        ok cached,
      )
      | none ↦ vote_fresh pv s ev
    ]
