-- ===== src/Protocol/Verifier/Bounds.antt =====
-- codebase/protocol/receipts.py: the sizes of the replay caches over a run of verifications.
use veri_swarm_flight.Base.{
  ◌≤◌, ◌<◌, ◌≡◌, inl, inr, Bool, true, false, List, [], ◌∷◌, String, string_eq, arith, Bool-cases,
  Option-cases, if◌then◌else◌, ok, Eq, length, length-append, eq_iff,
}
use veri_swarm_flight.Base.Int.{ℤ, int_eq}
use veri_swarm_flight.Base.Dict.{
  Dict, get, get_or, set_item, has_key, delete, move_to_end, trim, get-set_item, length-trim-le,
  has_key_of_get,
}
use veri_swarm_flight.Protocol.Json.{Library}
use veri_swarm_flight.Protocol.Receipt.{Receipt, receipt_digest}
use veri_swarm_flight.Protocol.Verifier.{
  Verifier, VerificationResult, digests, sequences, objection, claim_sequence, consume_receipt,
  verify, init_verifier,
}
use veri_swarm_flight.Protocol.Verifier.Replay.{Call, verify_run}

module _ {ℓ κ} {K : Type ℓ} {V : Type κ} ⦃e : Eq K⦄ where
  length-delete-le : (k : K) (m : Dict K V) → length (delete k m) ≤ length m
  unfolding delete
  length-delete-le k [] = omega arith
  length-delete-le k ((j, v) ∷ m) = ground (arith, length-delete-le k m)

  length-delete-lt : (k : K) (m : Dict K V) → has_key k m ≡ true → length (delete k m) < length m
  unfolding delete has_key
  length-delete-lt k [] h = cc
  length-delete-lt k ((j, v) ∷ m) h = ground (arith, length-delete-lt k m)

  length-move_to_end-le : (k : K) (m : Dict K V) → length (move_to_end k m) ≤ length m
  unfolding move_to_end
  length-move_to_end-le k m = elim (Option-cases (get k m)) [
    | inl absent ↦ rw (absent, move_to_end) (omega arith)
    | inr (v, found) ↦
        rw (found, move_to_end)
          (omega (
            arith,
            length-append (delete k m) ((k, v) ∷ []),
            length-delete-lt k m (has_key_of_get k v m found),
          ))
  ]

module _ {F B : Type 0} (lib : Library F B) where
  -- No cache is larger than its limit.
  pub record IsBounded (v : Verifier) : Type 0 where
    pub digests_fit : (scope : String) → length (digests v scope) ≤ v.replay_cache_size
    pub sequences_fit :
        (scope drone : String) → length (sequences v scope drone) ≤ v.replay_cache_size

  -- A scope's digests are replaced.
  seen-IsBounded :
      (v : Verifier) (scope : String) (m : Dict String (Unit {0}))
      → IsBounded v
      → length m ≤ v.replay_cache_size
      → IsBounded (record v { seen = set_item scope m v.seen })
  seen-IsBounded v scope m b fits = record {
    digests_fit = λ s. ground (arith, get-set_item scope s m v.seen, b.digests_fit s);
    sequences_fit = b.sequences_fit;
  }

  -- A drone's sequence numbers are replaced.
  seen_sequences-IsBounded :
      (v : Verifier) (scope drone : String) (m : Dict ℤ (Unit {0}))
      → IsBounded v
      → length m ≤ v.replay_cache_size
      → IsBounded (record v {
        seen_sequences =
            set_item scope (set_item drone m (get_or scope [] v.seen_sequences)) v.seen_sequences;
      })
  seen_sequences-IsBounded v scope drone m b fits = record {
    digests_fit = b.digests_fit;
    sequences_fit = λ s d. ground (
      arith,
      get-set_item scope s (set_item drone m (get_or scope [] v.seen_sequences)) v.seen_sequences,
      get-set_item drone d m (get_or scope [] v.seen_sequences),
      b.sequences_fit scope d,
      b.sequences_fit s d,
      eq_iff s scope,
    );
  }

  either-IsBounded :
      (flag : Bool) (x y : Verifier × VerificationResult)
      → IsBounded x.0
      → IsBounded y.0
      → IsBounded (if flag then x else y).0
  either-IsBounded true x y bx by' = bx
  either-IsBounded false x y bx by' = by'

  claim_sequence-IsBounded :
      (v : Verifier) (r : Receipt F) (scope : String)
      → IsBounded v
      → IsBounded (claim_sequence lib v r scope).0
  unfolding claim_sequence
  claim_sequence-IsBounded v r scope b =
      elim (Bool-cases (has_key r.sequence (sequences v scope r.drone_id))) [
        | inl known ↦
            rw (known, claim_sequence)
              (seen-IsBounded v scope (delete (receipt_digest lib r) (digests v scope)) b (
                omega (
                  arith,
                  length-delete-le (receipt_digest lib r) (digests v scope),
                  b.digests_fit scope,
                )))
        | inr new ↦
            rw (new, claim_sequence)
              (seen_sequences-IsBounded v scope r.drone_id _ b
                (length-trim-le v.replay_cache_size _))
      ]

  consume_receipt-IsBounded :
      (v : Verifier) (r : Receipt F) (scope : String)
      → IsBounded v
      → IsBounded (consume_receipt lib v r scope).0
  unfolding consume_receipt
  consume_receipt-IsBounded v r scope b =
      let kept =
        seen-IsBounded v scope
          (trim v.replay_cache_size (set_item (receipt_digest lib r) tt (digests v scope))) b
          (length-trim-le v.replay_cache_size _) in
      elim (Bool-cases (has_key (receipt_digest lib r) (digests v scope))) [
        | inl known ↦
            rw (known, consume_receipt)
              (seen-IsBounded v scope (move_to_end (receipt_digest lib r) (digests v scope)) b (
                omega (
                  arith,
                  length-move_to_end-le (receipt_digest lib r) (digests v scope),
                  b.digests_fit scope,
                )))
        | inr new ↦
            rw (new, consume_receipt)
              (either-IsBounded v.enforce_sequence _ _ (claim_sequence-IsBounded _ r scope kept)
                kept)
      ]

  verify-IsBounded :
      (v : Verifier) (c : Call F)
      → IsBounded v
      → IsBounded (verify lib v c.packet c.now c.scope c.consume).0
  unfolding verify
  verify-IsBounded v c b = elim (Option-cases (objection lib v c.packet c.now)) [
    | inr (reason, refusal) ↦ rw (refusal, verify) b
    | inl clear ↦ elim (Bool-cases c.consume) [
      | inl yes' ↦ rw (clear, yes', verify) (consume_receipt-IsBounded v c.packet.receipt c.scope b)
      | inr no' ↦ rw (clear, no', verify) b
    ]
  ]

  run-IsBounded :
      (v : Verifier) (cs : List (Call F)) → IsBounded v → IsBounded (verify_run lib v cs)
  unfolding verify_run
  run-IsBounded v [] b = b
  run-IsBounded v (c ∷ cs) b =
      run-IsBounded (verify lib v c.packet c.now c.scope c.consume).0 cs (verify-IsBounded v c b)

  init_verifier-IsBounded :
      (peer_keys : Dict String String) (settings v : Verifier) (size : ℤ)
      → init_verifier lib peer_keys settings size ≡ ok v
      → IsBounded v
  unfolding init_verifier get
  init_verifier-IsBounded peer_keys settings v size h = record {
    digests_fit = λ s. ground arith;
    sequences_fit = λ s d. ground arith;
  }

  -- From the verifier that `__init__` makes, no run of calls of `verify` ever lets a cache outgrow
  -- its limit: neither the digests of any scope nor the sequence numbers of any drone in it.
  pub verify_run-IsBounded :
      (peer_keys : Dict String String) (settings v : Verifier) (size : ℤ) (cs : List (Call F))
      → init_verifier lib peer_keys settings size ≡ ok v
      → IsBounded (verify_run lib v cs)
  verify_run-IsBounded peer_keys settings v size cs made =
      run-IsBounded v cs (init_verifier-IsBounded peer_keys settings v size made)
