-- ===== src/Protocol/Peer/Cache.antt =====
-- codebase/protocol/peer_consensus.py: the vote cache of `PeerVerifier` over a run of `vote_on`.
use veri_swarm_flight.Base.{
  ℕ, suc, ◌+◌, ◌<◌, ◌≡◌, refl, sym, ap, ◌∙◌, subst, inl, inr, true, none, some, List, [], ◌∷◌,
  String, string_eq, arith, Option-cases, Result-cases, Result, Error, ok, raise, length,
}
use native.Mathlib.Nat.{add-zero}
use veri_swarm_flight.Base.Int.{ℤ}
use veri_swarm_flight.Base.Sets.{distinct}
use veri_swarm_flight.Base.Dict.{Dict, keys, get, set_item, move_to_end, trim, distinct-set_item}
use veri_swarm_flight.Base.Dict.Kept.{
  Kept, Kept-mono, Kept-trim, Kept-move_to_end, Kept-set_item, move_to_end-Kept, set_item-Kept,
  distinct-move_to_end, distinct-trim,
}
use veri_swarm_flight.Base.Floats.{Floats}
use veri_swarm_flight.Protocol.Json.{Library}
use veri_swarm_flight.Protocol.Receipt.{SignedReceipt, receipt_digest}
use veri_swarm_flight.Protocol.Vote.{Vote, SignedVote}
use veri_swarm_flight.Protocol.Peer.{PeerVerifier, Senses, Evidence, init_peer, vote_cache_size}
use veri_swarm_flight.Protocol.Peer.Voting.{sign_vote, build_signed_vote, vote_on}
use veri_swarm_flight.Protocol.Peer.Semantic.{
  signing, judged, vote_fresh-signs, vote_fresh-raises, vote_on-fresh,
}

same_vote : {v w : SignedVote} → ok v ≡ ok w → v ≡ w
same_vote h = cc

raise_or_ok : (e : Error) (v : SignedVote) → raise e ≡ ok v → ⊥
raise_or_ok e v h = cc

module _ {F B Pose Frame : Type 0} ⦃fl : Floats F⦄ (lib : Library F B)
    (senses : Senses F B Pose Frame) where
  -- The calls of `vote_on` in order.
  unfoldable pub vote_run :
      PeerVerifier F → List (SignedReceipt F × Evidence F Pose Frame) → PeerVerifier F
  vote_run pv [] = pv
  vote_run pv ((s, ev) ∷ calls) = vote_run (vote_on lib senses pv s ev).0 calls

  -- What a call about a digest leaves of the cache, and what it returns.
  data Effect (d : String) (cache : Dict String SignedVote)
      (after : PeerVerifier F × Result SignedVote) : Type 0 where
    hit :
        (v : SignedVote)
        → get d cache ≡ some v
        → after.0.vote_cache ≡ move_to_end d cache
        → after.1 ≡ ok v
        → Effect d cache after
    failed : (e : Error) → after.0.vote_cache ≡ cache → after.1 ≡ raise e → Effect d cache after
    cast :
        (v : SignedVote)
        → get d cache ≡ none
        → after.0.vote_cache ≡ trim vote_cache_size (move_to_end d (set_item d v cache))
        → after.1 ≡ ok v
        → Effect d cache after

  vote_on-hit :
      (pv : PeerVerifier F) (s : SignedReceipt F) (ev : Evidence F Pose Frame) (v : SignedVote)
      → get (receipt_digest lib s.receipt) pv.vote_cache ≡ some v
      → vote_on lib senses pv s ev ≡ (
        record pv { vote_cache = move_to_end (receipt_digest lib s.receipt) pv.vote_cache },
        ok v,
      )
  unfolding vote_on
  vote_on-hit pv s ev v found = rw (found, vote_on) refl

  build_signed_vote-Effect :
      (pv : PeerVerifier F) (s : SignedReceipt F) (d : Vote) (reason : String) (now : ℤ)
      → get (receipt_digest lib s.receipt) pv.vote_cache ≡ none
      → Effect
          (receipt_digest lib s.receipt)
          pv.vote_cache
          (build_signed_vote lib senses pv s.receipt d reason now)
  unfolding build_signed_vote
  build_signed_vote-Effect pv s d reason now absent =
      elim (Result-cases (sign_vote lib senses pv s.receipt d reason now)) [
        | inl (v, found) ↦ rw (found, build_signed_vote) (cast v absent refl refl)
        | inr (e, bad) ↦ rw (bad, build_signed_vote) (failed e refl refl)
      ]

  vote_on-Effect :
      (pv : PeerVerifier F) (s : SignedReceipt F) (ev : Evidence F Pose Frame)
      → Effect (receipt_digest lib s.receipt) pv.vote_cache (vote_on lib senses pv s ev)
  vote_on-Effect pv s ev = elim (Option-cases (get (receipt_digest lib s.receipt) pv.vote_cache)) [
    | inr (v, found) ↦ rw (vote_on-hit pv s ev v found) (hit v found refl refl)
    | inl absent ↦
        rw (vote_on-fresh lib senses pv s ev absent)
          (elim (Result-cases (judged lib senses pv s ev)) [
            | inr (e, bad) ↦ rw (vote_fresh-raises lib senses pv s ev e bad) (failed e refl refl)
            | inl (v, found) ↦ rw (vote_fresh-signs lib senses pv s ev v found) (
                build_signed_vote-Effect (signing lib senses pv s ev) s v.decision v.reason
                  ev.voted_at absent)
          ])
  ]

  vote_on-Kept :
      (pv : PeerVerifier F) (s : SignedReceipt F) (ev : Evidence F Pose Frame) (d : String)
      (v : SignedVote) (n : ℕ)
      → n + 1 < vote_cache_size
      → Kept d v n pv.vote_cache
      → Kept d v (n + 1) (vote_on lib senses pv s ev).0.vote_cache
  vote_on-Kept pv s ev d v n room c = elim (vote_on-Effect pv s ev) [
    | hit w found e r ↦ rw e (Kept-move_to_end d (receipt_digest lib s.receipt) v n pv.vote_cache c)
    | failed x e r ↦ rw e (Kept-mono d v n pv.vote_cache c)
    | cast w absent e r ↦ rw e (
        Kept-trim vote_cache_size d v (n + 1) _ room
          (Kept-set_item d (receipt_digest lib s.receipt) v w n pv.vote_cache absent c))
  ]

  vote_run-Kept :
      (pv : PeerVerifier F) (calls : List (SignedReceipt F × Evidence F Pose Frame)) (d : String)
      (v : SignedVote) (n : ℕ)
      → n + length calls < vote_cache_size
      → Kept d v n pv.vote_cache
      → Kept d v (n + length calls) (vote_run pv calls).vote_cache
  unfolding vote_run
  vote_run-Kept pv [] d v n room c = rw add-zero c
  vote_run-Kept pv ((s, ev) ∷ calls) d v n room c =
      let e : n + 1 + length calls ≡ n + suc (length calls) = omega arith in
      rw (← e) (
        vote_run-Kept (vote_on lib senses pv s ev).0 calls d v (n + 1) (omega arith)
          (vote_on-Kept pv s ev d v n (omega arith) c))

  vote_on-distinct :
      (pv : PeerVerifier F) (s : SignedReceipt F) (ev : Evidence F Pose Frame)
      → distinct (keys pv.vote_cache) ≡ true
      → distinct (keys (vote_on lib senses pv s ev).0.vote_cache) ≡ true
  vote_on-distinct pv s ev c = elim (vote_on-Effect pv s ev) [
    | hit w found e r ↦ rw e (distinct-move_to_end (receipt_digest lib s.receipt) pv.vote_cache c)
    | failed x e r ↦ rw e c
    | cast w absent e r ↦ rw e (
        distinct-trim vote_cache_size _ (
          distinct-move_to_end (receipt_digest lib s.receipt) _
            (distinct-set_item (receipt_digest lib s.receipt) w pv.vote_cache c)))
  ]

  vote_run-distinct :
      (pv : PeerVerifier F) (calls : List (SignedReceipt F × Evidence F Pose Frame))
      → distinct (keys pv.vote_cache) ≡ true
      → distinct (keys (vote_run pv calls).vote_cache) ≡ true
  unfolding vote_run
  vote_run-distinct pv [] c = c
  vote_run-distinct pv ((s, ev) ∷ calls) c =
      vote_run-distinct (vote_on lib senses pv s ev).0 calls (vote_on-distinct pv s ev c)

  -- A vote that was returned is the youngest of the cache.
  returned-Kept :
      (pv : PeerVerifier F) (s : SignedReceipt F) (ev : Evidence F Pose Frame) (v : SignedVote)
      → distinct (keys pv.vote_cache) ≡ true
      → (vote_on lib senses pv s ev).1 ≡ ok v
      → Kept (receipt_digest lib s.receipt) v 0 (vote_on lib senses pv s ev).0.vote_cache
  returned-Kept pv s ev v c h = elim (vote_on-Effect pv s ev) [
    | hit w found e r ↦ rw e (
        move_to_end-Kept (receipt_digest lib s.receipt) v pv.vote_cache
          (found ∙ ap some (same_vote (sym r ∙ h))) c)
    | failed x e r ↦ absurd (raise_or_ok x v (sym r ∙ h))
    | cast w absent e r ↦ rw e (
        Kept-trim vote_cache_size _ _ 0 _ (omega arith) (
          subst
            (λ x. Kept (receipt_digest lib s.receipt) v 0 (
              move_to_end (receipt_digest lib s.receipt)
                (set_item (receipt_digest lib s.receipt) x pv.vote_cache)))
            (sym (same_vote (sym r ∙ h)))
            (set_item-Kept (receipt_digest lib s.receipt) v pv.vote_cache absent c)))
  ]

  init_peer-distinct :
      (settings pv : PeerVerifier F)
      → init_peer settings ≡ ok pv
      → distinct (keys pv.vote_cache) ≡ true
  unfolding init_peer distinct
  init_peer-distinct settings pv h = ground arith

  -- A peer never contradicts itself: once it has returned a vote on a receipt, every later call
  -- about that receipt, with whatever observation, poses and images, returns this very vote, as
  -- long as fewer further calls were made in between than the vote cache has places.
  pub vote_on_again :
      (settings pv : PeerVerifier F)
      (before between : List (SignedReceipt F × Evidence F Pose Frame)) (s t : SignedReceipt F)
      (ev later : Evidence F Pose Frame) (v : SignedVote)
      → init_peer settings ≡ ok pv
      → (vote_on lib senses (vote_run pv before) s ev).1 ≡ ok v
      → t.receipt ≡ s.receipt
      → length between < vote_cache_size
      → (vote_on lib senses
          (vote_run (vote_on lib senses (vote_run pv before) s ev).0 between)
          t
          later).1
        ≡ ok v
  vote_on_again settings pv before between s t ev later v made h same room =
      let kept =
        vote_run-Kept (vote_on lib senses (vote_run pv before) s ev).0 between
          (receipt_digest lib s.receipt) v 0 (omega arith)
          (returned-Kept (vote_run pv before) s ev v
            (vote_run-distinct pv before (init_peer-distinct settings pv made)) h) in
      ap (λ x. x.1) (vote_on-hit _ t later v (rw same kept.value))
