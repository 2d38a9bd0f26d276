-- ===== src/Protocol/Peer/Semantic.antt =====
-- codebase/protocol/peer_consensus.py: what a fresh vote of `PeerVerifier.vote_on` rests on.
use veri_swarm_flight.Base.{
  ◌≡◌, ◌≢◌, refl, sym, ap, ◌∙◌, Error, Result-cases, inl, inr, true, none, some, String, string_eq,
  arith, eq_iff, Result, ok, raise,
}
use veri_swarm_flight.Base.Int.{ℤ}
use veri_swarm_flight.Base.Dict.{get}
use veri_swarm_flight.Base.Floats.{Floats}
use veri_swarm_flight.Perception.Claim.{compare_claims, claims_agree}
use veri_swarm_flight.Protocol.Json.{Library}
use veri_swarm_flight.Protocol.Receipt.{Receipt, SignedReceipt, receipt_digest}
use veri_swarm_flight.Protocol.Verifier.{VerificationResult, verify}
use veri_swarm_flight.Protocol.Verifier.Soundness.{IsBacked, verify-IsBacked}
use veri_swarm_flight.Protocol.Vote.{
  Vote, ack, SignedVote, construct_vote, construct_signed_vote, reason_ok, reason_no_covisibility,
  reason_no_observation, reason_semantic_disagreement,
}
use veri_swarm_flight.Protocol.Peer.{
  PeerVerifier, Senses, Evidence, co_visible, geometry_supplied, Verdict, veto,
  compare_observations,
}
use veri_swarm_flight.Protocol.Peer.Voting.{
  judge, covis_after, sign_vote, build_signed_vote, vote_fresh, vote_on,
}

module _ {F B Pose Frame : Type 0} ⦃fl : Floats F⦄ (lib : Library F B)
    (senses : Senses F B Pose Frame) where
  -- The evidence behind a vote that says it cross-checked the scene.
  pub record IsCrossChecked (pv : PeerVerifier F) (s : SignedReceipt F) (ev : Evidence F Pose Frame)
      : Type 0 where
    pub backed : IsBacked lib pv.receipt_verifier s ev.checked_at
    pub compared :
        compare_claims (some s.receipt.perception) ev.my_claim pv.occupancy_tolerance ≡ some true
    pub in_view : geometry_supplied ev ≡ true → (co_visible senses pv ev).covisible ≡ true

  -- What is signed is the verdict.
  sign_vote-ok :
      (pv : PeerVerifier F) (r : Receipt F) (d : Vote) (reason : String) (now : ℤ) (sv : SignedVote)
      → sign_vote lib senses pv r d reason now ≡ ok sv
      → (sv.vote.decision ≡ d)
        × (sv.vote.reason ≡ reason)
        × (sv.vote.voter_id ≡ pv.my_drone_id)
        × (sv.vote.target_receipt_hash ≡ receipt_digest lib r)
  unfolding sign_vote construct_vote construct_signed_vote
  sign_vote-ok pv r d reason now sv h = (ground arith, ground arith, ground arith, ground arith)

  other_reasons :
      (reason_no_observation ≢ reason_ok)
      × (reason_no_covisibility ≢ reason_ok)
      × (reason_semantic_disagreement ≢ reason_ok)
  other_reasons = (
    λ h. cc ((eq_iff reason_no_observation reason_ok).1 h),
    λ h. cc ((eq_iff reason_no_covisibility reason_ok).1 h),
    λ h. cc ((eq_iff reason_semantic_disagreement reason_ok).1 h),
  )

  veto-reason :
      (pv : PeerVerifier F) (r : Receipt F) (ev : Evidence F Pose Frame) (v : Verdict)
      → veto pv r ev ≡ ok v
      → v.reason ≢ reason_ok
  unfolding veto
  veto-reason pv r ev v h o = ground (arith, other_reasons.0, other_reasons.2)

  compare_observations-ok :
      (pv : PeerVerifier F) (r : Receipt F) (ev : Evidence F Pose Frame) (v : Verdict)
      → compare_observations pv r ev ≡ ok v
      → v.decision ≡ ack
      → v.reason ≡ reason_ok
      → compare_claims (some r.perception) ev.my_claim pv.occupancy_tolerance ≡ some true
  unfolding compare_observations claims_agree
  compare_observations-ok pv r ev v h d o = ground (arith, veto-reason pv r ev v)

  judge-ok :
      (pv : PeerVerifier F) (result : VerificationResult) (r : Receipt F)
      (ev : Evidence F Pose Frame) (v : Verdict)
      → judge senses pv result r ev ≡ ok v
      → v.decision ≡ ack
      → v.reason ≡ reason_ok
      → (result.passed ≡ true)
        × (compare_claims (some r.perception) ev.my_claim pv.occupancy_tolerance ≡ some true)
        × (geometry_supplied ev ≡ true → (co_visible senses pv ev).covisible ≡ true)
  unfolding judge
  judge-ok pv result r ev v h d o = (
    ground arith,
    ground (arith, compare_observations-ok pv r ev v, other_reasons.0, other_reasons.1),
    λ g. ground (arith, other_reasons.0, other_reasons.1),
  )

  -- The peer when it signs.
  abbrev pub signing : PeerVerifier F → SignedReceipt F → Evidence F Pose Frame → PeerVerifier F
  signing pv s ev =
      let (checker, result) = verify lib pv.receipt_verifier s ev.checked_at pv.my_drone_id true in
      record pv {
        receipt_verifier = checker;
        last_covis = covis_after senses pv result s.receipt ev;
      }

  abbrev pub judged : PeerVerifier F → SignedReceipt F → Evidence F Pose Frame → Result Verdict
  judged pv s ev =
      judge senses pv (verify lib pv.receipt_verifier s ev.checked_at pv.my_drone_id true).1
        s.receipt ev

  pub vote_fresh-signs :
      (pv : PeerVerifier F) (s : SignedReceipt F) (ev : Evidence F Pose Frame) (v : Verdict)
      → judged pv s ev ≡ ok v
      → vote_fresh lib senses pv s ev
        ≡ build_signed_vote lib senses (signing pv s ev) s.receipt v.decision v.reason ev.voted_at
  unfolding vote_fresh
  vote_fresh-signs pv s ev v found = rw (found, vote_fresh) refl

  pub vote_fresh-raises :
      (pv : PeerVerifier F) (s : SignedReceipt F) (ev : Evidence F Pose Frame) (e : Error)
      → judged pv s ev ≡ raise e
      → vote_fresh lib senses pv s ev ≡ (signing pv s ev, raise e)
  unfolding vote_fresh
  vote_fresh-raises pv s ev e failed = rw (failed, vote_fresh) refl

  build_signed_vote-ok :
      (pv : PeerVerifier F) (r : Receipt F) (d : Vote) (reason : String) (now : ℤ) (sv : SignedVote)
      → (build_signed_vote lib senses pv r d reason now).1 ≡ ok sv
      → sign_vote lib senses pv r d reason now ≡ ok sv
  unfolding build_signed_vote
  build_signed_vote-ok pv r d reason now sv h =
      elim (Result-cases (sign_vote lib senses pv r d reason now)) [
        | inl (x, found) ↦ found ∙ (sym (rw (found, build_signed_vote) refl) ∙ h)
        | inr (e, failed) ↦ failed ∙ (sym (rw (failed, build_signed_vote) refl) ∙ h)
      ]

  vote_fresh-ok :
      (pv : PeerVerifier F) (s : SignedReceipt F) (ev : Evidence F Pose Frame) (sv : SignedVote)
      → (vote_fresh lib senses pv s ev).1 ≡ ok sv
      → (v : Verdict) × (judged pv s ev ≡ ok v)
        × (sv.vote.decision ≡ v.decision)
        × (sv.vote.reason ≡ v.reason)
  vote_fresh-ok pv s ev sv h = elim (Result-cases (judged pv s ev)) [
    | inr (e, failed) ↦
        let bad : raise e ≡ ok sv = sym (ap (λ x. x.1) (vote_fresh-raises pv s ev e failed)) ∙ h in
        cc
    | inl (v, found) ↦
        let signed = sign_vote-ok (signing pv s ev) s.receipt v.decision v.reason ev.voted_at sv (
          build_signed_vote-ok (signing pv s ev) s.receipt v.decision v.reason ev.voted_at sv
            (sym (ap (λ x. x.1) (vote_fresh-signs pv s ev v found)) ∙ h)) in
        (v, found, signed.0, signed.1)
  ]

  pub vote_on-fresh :
      (pv : PeerVerifier F) (s : SignedReceipt F) (ev : Evidence F Pose Frame)
      → get (receipt_digest lib s.receipt) pv.vote_cache ≡ none
      → vote_on lib senses pv s ev ≡ vote_fresh lib senses pv s ev
  unfolding vote_on
  vote_on-fresh pv s ev fresh = rw (fresh, vote_on) refl

  -- A peer signs a fresh acknowledgement with reason "ok" only if the receipt passed its verifier,
  -- the receipt's claim and the peer's own are both measured and agree within its tolerance, and,
  -- where poses or images were supplied, these show that both looked at the same scene. Agreement
  -- of actions, or a missing claim, is never enough.
  pub vote_on-IsCrossChecked :
      (pv : PeerVerifier F) (s : SignedReceipt F) (ev : Evidence F Pose Frame) (sv : SignedVote)
      → get (receipt_digest lib s.receipt) pv.vote_cache ≡ none
      → (vote_on lib senses pv s ev).1 ≡ ok sv
      → sv.vote.decision ≡ ack
      → sv.vote.reason ≡ reason_ok
      → IsCrossChecked pv s ev
  vote_on-IsCrossChecked pv s ev sv fresh h d o =
      let (v, verdict, same_d, same_r) =
        vote_fresh-ok pv s ev sv (sym (ap (λ x. x.1) (vote_on-fresh pv s ev fresh)) ∙ h) in
      let (passed, agreed, seen) =
        judge-ok pv _ s.receipt ev v verdict (sym same_d ∙ d) (sym same_r ∙ o) in
      record {
        backed =
            (verify-IsBacked lib pv.receipt_verifier s ev.checked_at pv.my_drone_id true passed).0;
        compared = agreed;
        in_view = seen;
      }
