-- ===== src/Protocol/Verifier/Replay.antt =====
-- codebase/protocol/receipts.py: replay protection over a run of verifications.
use veri_swarm_flight.Base.{
  ℕ, suc, ◌+◌, ◌<◌, ◌≡◌, subst, eq_of_test, inl, inr, Bool, true, false, ◌&&◌, none, List, [], ◌∷◌,
  String, string_eq, arith, ◌==◌, Bool-cases, Option-cases, if◌then◌else◌, length, ap, eq_refl,
}
use native.Mathlib.Nat.{add-zero}
use veri_swarm_flight.Base.Int.{ℤ, int_eq}
use veri_swarm_flight.Base.Dict.{Dict, set_item, has_key, delete, move_to_end, trim, get-set_item}
use veri_swarm_flight.Base.Dict.Age.{
  Young, Young-set_item_self, Young-append, Young-trim, Young-delete, Young-move_to_end, Young-mono,
  set_item_new,
}
use veri_swarm_flight.Protocol.Json.{Library}
use veri_swarm_flight.Protocol.Receipt.{Receipt, SignedReceipt, receipt_digest}
use veri_swarm_flight.Protocol.Verifier.{
  Verifier, digests, sequences, objection, claim_sequence, consume_receipt, verify,
}

-- One call of `verify`: the packet, the clock, the scope, and whether it is consumed.
pub record Call (F : Type 0) : Type 0 where
  pub packet : SignedReceipt F
  pub now : ℤ
  pub scope : String
  pub consume : Bool

module _ {F B : Type 0} (lib : Library F B) where
  -- The verifier after a run of calls.
  unfoldable pub verify_run : Verifier → List (Call F) → Verifier
  verify_run v [] = v
  verify_run v (c ∷ cs) = verify_run (verify lib v c.packet c.now c.scope c.consume).0 cs

  -- The digest is remembered in the scope, with at most `n` younger ones.
  abbrev Remembered : String → String → ℕ → Verifier → Type 0
  Remembered scope digest n v = Young digest n (digests v scope)

  -- What consuming a receipt makes of the digests of its scope.
  consumed : Verifier → Receipt F → String → Dict String (Unit {0})
  consumed v r scope =
      let x = receipt_digest lib r in
      let old = digests v scope in
      let grown = trim v.replay_cache_size (set_item x tt old) in
      if has_key x old
      then move_to_end x old
      else if v.enforce_sequence && has_key r.sequence (sequences v scope r.drone_id)
      then delete x grown
      else grown

  consume-digests :
      (v : Verifier) (r : Receipt F) (at scope : String)
      → digests (consume_receipt lib v r at).0 scope
        ≡ (if scope == at then consumed v r at else digests v scope)
  unfolding consume_receipt claim_sequence consumed
  consume-digests v r at scope =
      let x = receipt_digest lib r in
      let grown = trim v.replay_cache_size (set_item x tt (digests v at)) in
      ground (
        arith,
        get-set_item at scope (move_to_end x (digests v at)) v.seen,
        get-set_item at scope grown v.seen,
        get-set_item at at grown v.seen,
        get-set_item at scope (delete x grown) (set_item at grown v.seen),
        eq_refl at,
      )

  consume-size :
      (v : Verifier) (r : Receipt F) (at : String)
      → (consume_receipt lib v r at).0.replay_cache_size ≡ v.replay_cache_size
  unfolding consume_receipt claim_sequence
  consume-size v r at = ground arith

  -- Consuming any receipt ages what is remembered by one at most.
  consumed-Young :
      (v : Verifier) (r : Receipt F) (scope d : String) (n : ℕ)
      → n + 1 < v.replay_cache_size
      → Young d n (digests v scope)
      → Young d (n + 1) (consumed v r scope)
  unfolding consumed
  consumed-Young v r scope d n room y = elim (Bool-cases (has_key x old)) [
    | inl seen ↦ rw (seen, consumed) (Young-move_to_end d x n old y)
    | inr new ↦
        let kept = grown_Young new in
        rw (new, consumed)
          (elim (Bool-cases
            (v.enforce_sequence && has_key r.sequence (sequences v scope r.drone_id))) [
              | inl double ↦
                  rw (double, consumed)
                    (Young-delete d x (n + 1) _
                      (λ e. ground (arith, y.present, new, ap (λ k. has_key k old) e)) kept)
              | inr single ↦ rw (single, consumed) kept
            ])
  ]
    where
      x : String
      x = receipt_digest lib r

      old : Dict String (Unit {0})
      old = digests v scope

      grown_Young :
          has_key x old ≡ false → Young d (n + 1) (trim v.replay_cache_size (set_item x tt old))
      grown_Young new =
          Young-trim v.replay_cache_size (n + 1) d (set_item x tt old) room
            (rw (set_item_new x tt old new) (Young-append d n old (x, tt) y))

  verify-size :
      (v : Verifier) (s : SignedReceipt F) (now : ℤ) (at : String) (consume : Bool)
      → (verify lib v s now at consume).0.replay_cache_size ≡ v.replay_cache_size
  unfolding verify
  verify-size v s now at consume = ground (arith, consume-size v s.receipt at)

  consume-Young :
      (v : Verifier) (r : Receipt F) (at scope d : String) (n : ℕ)
      → n + 1 < v.replay_cache_size
      → Young d n (digests v scope)
      → Young d (n + 1) (digests (consume_receipt lib v r at).0 scope)
  consume-Young v r at scope d n room y =
      rw (consume-digests v r at scope) (elim (Bool-cases (scope == at)) [
        | inl same ↦
            let e : scope ≡ at = eq_of_test scope at same in
            rw same (consumed-Young v r at d n room (subst (λ z. Young d n (digests v z)) e y))
        | inr other ↦ rw other (Young-mono d n (digests v scope) y)
      ])

  verify-Young :
      (v : Verifier) (s : SignedReceipt F) (now : ℤ) (at scope d : String) (consume : Bool) (n : ℕ)
      → n + 1 < v.replay_cache_size
      → Young d n (digests v scope)
      → Young d (n + 1) (digests (verify lib v s now at consume).0 scope)
  unfolding verify
  verify-Young v s now at scope d consume n room y = elim (Option-cases (objection lib v s now)) [
    | inr (reason, e) ↦ rw (e, verify) (Young-mono d n (digests v scope) y)
    | inl e ↦
        rw (e, verify)
          (elim (Bool-cases consume) [
            | inl c ↦ rw c (consume-Young v s.receipt at scope d n room y)
            | inr c ↦ rw c (Young-mono d n (digests v scope) y)
          ])
  ]

  verify_run-Young :
      (v : Verifier) (cs : List (Call F)) (scope d : String) (n : ℕ)
      → n + length cs < v.replay_cache_size
      → Young d n (digests v scope)
      → Young d (n + length cs) (digests (verify_run v cs) scope)
  unfolding verify_run
  verify_run-Young v [] scope d n room y = rw add-zero y
  verify_run-Young v (c ∷ cs) scope d n room y =
      let v' : Verifier = (verify lib v c.packet c.now c.scope c.consume).0 in
      let room' : n + 1 + length cs < v'.replay_cache_size =
        omega (arith, verify-size v c.packet c.now c.scope c.consume) in
      let e : n + 1 + length cs ≡ n + suc (length cs) = omega arith in
      rw (← e) (
        verify_run-Young v' cs scope d (n + 1) room'
          (verify-Young v c.packet c.now c.scope scope d c.consume n (omega arith) y))

  consumed_new :
      (v : Verifier) (r : Receipt F) (scope : String)
      → has_key (receipt_digest lib r) (digests v scope) ≡ false
      → (v.enforce_sequence && has_key r.sequence (sequences v scope r.drone_id)) ≡ false
      → consumed v r scope
        ≡ trim v.replay_cache_size (set_item (receipt_digest lib r) tt (digests v scope))
  unfolding consumed
  consumed_new v r scope new single = ground arith

  -- A call that accepts met no objection, a new digest and a new sequence number.
  pub accepted_inv :
      (v : Verifier) (s : SignedReceipt F) (now : ℤ) (scope : String)
      → (verify lib v s now scope true).1.passed ≡ true
      → (objection lib v s now ≡ none)
        × (has_key (receipt_digest lib s.receipt) (digests v scope) ≡ false)
        × ((v.enforce_sequence && has_key s.receipt.sequence (sequences v scope s.receipt.drone_id))
            ≡ false)
  unfolding verify consume_receipt claim_sequence
  accepted_inv v s now scope h = (ground arith, ground arith, ground arith)

  -- An accepted receipt is the youngest of its scope.
  accepted-Young :
      (v : Verifier) (s : SignedReceipt F) (now : ℤ) (scope : String)
      → (verify lib v s now scope true).1.passed ≡ true
      → 0 < v.replay_cache_size
      → Young (receipt_digest lib s.receipt) 0 (digests (verify lib v s now scope true).0 scope)
  unfolding verify
  accepted-Young v s now scope h room =
      let (clear, new, single) = accepted_inv v s now scope h in
      rw (clear, verify)
        (rw (consume-digests v s.receipt scope scope, eq_refl scope)
          (rw (consumed_new v s.receipt scope new single)
            (Young-trim v.replay_cache_size 0 _ _ room (Young-set_item_self _ tt _ new))))

  -- What is remembered is refused.
  remembered_refused :
      (v : Verifier) (s : SignedReceipt F) (now : ℤ) (scope : String)
      → has_key (receipt_digest lib s.receipt) (digests v scope) ≡ true
      → (verify lib v s now scope true).1.passed ≡ false
  unfolding verify consume_receipt
  remembered_refused v s now scope seen = ground arith

  -- A receipt that was accepted and consumed is not accepted again in its scope, under any
  -- signature and at any time, as long as fewer further calls of `verify` were made in between
  -- than the replay cache has places.
  pub replay_refused :
      (v : Verifier) (s t : SignedReceipt F) (now later : ℤ) (scope : String) (cs : List (Call F))
      → (verify lib v s now scope true).1.passed ≡ true
      → t.receipt ≡ s.receipt
      → length cs < v.replay_cache_size
      → (verify lib (verify_run (verify lib v s now scope true).0 cs) t later scope true).1.passed
        ≡ false
  replay_refused v s t now later scope cs h same room = remembered_refused _ t later scope (
      rw same
        (verify_run-Young (verify lib v s now scope true).0 cs scope (receipt_digest lib s.receipt)
          0 (omega (arith, verify-size v s now scope true))
          (accepted-Young v s now scope h (omega arith))).present)
