-- ===== src/Protocol/Peer.antt =====
-- codebase/protocol/peer_consensus.py: `outputs_agree` and `PeerVerifier`. The overlap and parallax
-- of two poses, the matches of two images and the signer's Ed25519 key are parameters.
pub mod Voting
pub mod Semantic
pub mod Cache
use veri_swarm_flight.Base.{
  ℕ, ◌≡◌, Bool, true, false, not, ◌&&◌, ◌||◌, Option, none, some, List, [], ◌∷◌, String, string_eq,
  ◌==◌, if◌then◌else◌, Result, ok, raise, value_error, overflow_error, ◌>>◌, ◌>>=◌, check_all,
  length, all, eqb,
}
use veri_swarm_flight.Base.Int.{ℤ, pos, ltb_ℤ, leb_ℤ}
use veri_swarm_flight.Base.Dict.{Dict, get, set_item, move_to_end, trim}
use veri_swarm_flight.Base.Floats.{Floats, float}
use veri_swarm_flight.Perception.Claim.{PerceptionClaim, claims_agree}
use veri_swarm_flight.Protocol.Json.{Library}
use veri_swarm_flight.Protocol.Receipt.{Receipt, SignedReceipt, is_drone_id, receipt_digest}
use veri_swarm_flight.Protocol.Verifier.{Verifier, VerificationResult, verify}
use veri_swarm_flight.Protocol.Vote.{
  Vote, ack, dispute, PeerVote, SignedVote, construct_vote, construct_signed_vote, canonical_vote,
  reason_ok, reason_no_covisibility, reason_no_observation, reason_semantic_disagreement,
}

module _ {F : Type 0} ⦃fl : Floats F⦄ where
  -- `zip(claimed, observed)`.
  unfoldable pub paired : List F → List F → List (F × F)
  paired (a ∷ as') (b ∷ bs) = (a, b) ∷ paired as' bs
  paired as' bs = []

  -- `sum((a - b) ** 2 for a, b in pairs)`, from `acc`; `none` where a square overflows.
  unfoldable pub square_sum : F → List (F × F) → Option F
  square_sum acc [] = some acc
  square_sum acc ((a, b) ∷ rest) = elim (fl.square (fl.minus a b)) [
    | none ↦ none
    | some sq ↦ square_sum (fl.plus acc sq) rest
  ]

  unfoldable pub outputs_agree : List F → List F → F → Result Bool
  outputs_agree claimed observed threshold =
      if not (fl.is_finite threshold) || fl.le threshold (float 0)
      then raise (value_error "semantic agreement threshold must be finite and positive")
      else if not (eqb (length claimed) (length observed))
      then ok false
      else if not (all (λ p. fl.is_finite p.0 && fl.is_finite p.1) (paired claimed observed))
      then ok false
      else elim (square_sum (float 0) (paired claimed observed)) [
        | none ↦ raise (overflow_error "numerical result out of range")
        | some sq ↦ ok (fl.lt (fl.sqrt sq) threshold)
      ]

pub record CoVisDiagnostic (F : Type 0) : Type 0 where
  pub covisible : Bool
  pub method : String
  pub iou : Option F
  pub orb_inliers : Option ℤ
  pub o_min : F
  pub m_min : ℤ
  pub parallax_deg : Option F
  pub phi_min : F

pub record PeerVerifier (F : Type 0) : Type 0 where
  pub my_drone_id : String
  pub receipt_verifier : Verifier
  pub agreement_threshold : F
  pub o_min : F
  pub hfov : F
  pub vfov : F
  pub m_min : ℤ
  pub phi_min : F
  pub occupancy_tolerance : F
  pub last_covis : Option (CoVisDiagnostic F)
  pub vote_cache : Dict String SignedVote

-- What geometry.py and covis_features.py compute, and the signer.
pub record Senses (F B Pose Frame : Type 0) : Type 0 where
  pub covisibility : Pose → Pose → F → F → F
  pub parallax_angle : Pose → Pose → F → F → F
  pub inliers : Frame → Frame → ℤ
  pub sign_bytes : B → String

-- The arguments of `vote_on` other than the receipt, and the two readings of the clock.
pub record Evidence (F Pose Frame : Type 0) : Type 0 where
  pub my_observation : Option (List F)
  pub my_pose : Option Pose
  pub originator_pose : Option Pose
  pub my_frame : Option Frame
  pub originator_frame : Option Frame
  pub my_claim : Option (PerceptionClaim F)
  pub checked_at : ℤ
  pub voted_at : ℤ

abbrev pub both : {A : Type 0} → Option A → Option A → Option (A × A)
both none b = none
both (some a) none = none
both (some a) (some b) = some (a, b)

abbrev pub is_some {ℓ} : {A : Type ℓ} → Option A → Bool
is_some none = false
is_some (some a) = true

-- The decision and the reason of a vote.
pub record Verdict : Type 0 where
  pub decision : Vote
  pub reason : String

abbrev pub verdict_of : Vote → String → Verdict
verdict_of decision reason = record { decision = decision; reason = reason }

abbrev pub vote_cache_size : ℕ
vote_cache_size = 4096

module _ {F : Type 0} ⦃fl : Floats F⦄ where
  unfoldable pub peer_checks : PeerVerifier F → List (Bool × String)
  peer_checks pv =
      (not (is_drone_id pv.my_drone_id), "invalid verifier drone id")
      ∷ (
        not (fl.is_finite pv.agreement_threshold)
            || not (
                fl.lt (float 0) pv.agreement_threshold
                && fl.lt pv.agreement_threshold (fl.sqrt (float 12))),
        "agreement_threshold must be in (0, 3.464)",
      )
      ∷ (
        not (fl.is_finite pv.o_min) || not (fl.lt (float 0) pv.o_min && fl.le pv.o_min (float 1)),
        "o_min must be in (0, 1]",
      )
      ∷ (ltb_ℤ pv.m_min (pos 1), "m_min must be a positive integer")
      ∷ (
        not (fl.is_finite pv.phi_min)
            || not (fl.le (float 0) pv.phi_min && fl.lt pv.phi_min (float 180)),
        "phi_min must be in [0, 180)",
      )
      ∷ (
        not (fl.is_finite pv.occupancy_tolerance)
            || not
                (fl.lt (float 0) pv.occupancy_tolerance && fl.le pv.occupancy_tolerance (float 1)),
        "occupancy_tolerance must be in (0, 1]",
      )
      ∷ []

  -- `PeerVerifier.__init__`, from the settings.
  unfoldable pub init_peer : PeerVerifier F → Result (PeerVerifier F)
  init_peer settings =
      check_all (peer_checks settings)
      >> ok (record settings { last_covis = none; vote_cache = [] })

  module _ {B Pose Frame : Type 0} (senses : Senses F B Pose Frame) where
    abbrev pub diagnose :
        PeerVerifier F → Bool → String → Option F → Option ℤ → Option F → CoVisDiagnostic F
    diagnose pv covisible method iou inliers phi = record {
      covisible = covisible;
      method = method;
      iou = iou;
      orb_inliers = inliers;
      o_min = pv.o_min;
      m_min = pv.m_min;
      parallax_deg = phi;
      phi_min = pv.phi_min;
    }

    -- The second half of `_co_visible`: the images, once the poses are judged.
    unfoldable pub match_frames :
        PeerVerifier F
        → Evidence F Pose Frame
        → Option F
        → Option F
        → Bool
        → Bool
        → CoVisDiagnostic F
    match_frames pv ev iou phi overlap_ok parallax_ok =
        elim (both ev.my_frame ev.originator_frame) [
          | some (mine, theirs) ↦
              let found = senses.inliers mine theirs in
              let features_ok = leb_ℤ pv.m_min found in
              if overlap_ok
              then diagnose pv features_ok "geometry+features" iou (some found) phi
              else if features_ok && fl.lt (float 0) pv.phi_min
              then diagnose pv false "features_no_parallax" iou (some found) phi
              else diagnose pv features_ok "features" iou (some found) phi
          | none ↦
              if overlap_ok && parallax_ok
              then diagnose pv true "geometric" iou none phi
              else diagnose pv false "none" iou none phi
        ]

    -- `PeerVerifier._co_visible`.
    unfoldable pub co_visible : PeerVerifier F → Evidence F Pose Frame → CoVisDiagnostic F
    unfolding match_frames
    co_visible pv ev =
        let relaxed = fl.le pv.phi_min (float 0) in
        elim (both ev.my_pose ev.originator_pose) [
          | none ↦ match_frames pv ev none none false relaxed
          | some (mine, theirs) ↦
              let iou = senses.covisibility mine theirs pv.hfov pv.vfov in
              let phi = senses.parallax_angle mine theirs pv.hfov pv.vfov in
              if not (fl.le pv.o_min iou)
              then match_frames pv ev (some iou) none false relaxed
              else if fl.lt (float 0) pv.phi_min
              then if fl.le pv.phi_min phi
                then match_frames pv ev (some iou) (some phi) true true
                else diagnose pv false "low_parallax" (some iou) none (some phi)
              else if relaxed
              then match_frames pv ev (some iou) none true true
              else diagnose pv false "low_parallax" (some iou) none none
        ]

  module _ {Pose Frame : Type 0} where
    -- Someone measured something.
    unfoldable pub semantic_applicable : Receipt F → Evidence F Pose Frame → Bool
    semantic_applicable r ev =
        r.perception.measured
        || elim ev.my_claim [ none ↦ false | some c ↦ c.measured ]
        || is_some ev.my_observation

    unfoldable pub geometry_supplied : Evidence F Pose Frame → Bool
    geometry_supplied ev =
        (is_some ev.my_pose && is_some ev.originator_pose)
        || (is_some ev.my_frame && is_some ev.originator_frame)

    -- Actions only ever veto.
    unfoldable pub veto : PeerVerifier F → Receipt F → Evidence F Pose Frame → Result Verdict
    unfolding outputs_agree
    veto pv r ev = elim ev.my_observation [
      | none ↦ ok (verdict_of ack reason_no_observation)
      | some observed ↦ outputs_agree r.output observed pv.agreement_threshold >>= λ agree. ok (
          if agree
          then verdict_of ack reason_no_observation
          else verdict_of dispute reason_semantic_disagreement)
    ]

    -- The verdict on the two claims.
    unfoldable pub compare_observations :
        PeerVerifier F → Receipt F → Evidence F Pose Frame → Result Verdict
    unfolding veto
    compare_observations pv r ev =
        claims_agree (some r.perception) ev.my_claim pv.occupancy_tolerance >>= λ verdict.
        elim verdict [
          | none ↦ veto pv r ev
          | some agree ↦ ok (
              if agree
              then verdict_of ack reason_ok
              else verdict_of dispute reason_semantic_disagreement)
        ]
