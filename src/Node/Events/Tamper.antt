-- ===== src/Node/Events/Tamper.antt =====
-- codebase/node/events.py: what the final hash of a log that verifies pins down.
use veri_swarm_flight.Base.{
  ℕ, suc, ◌≡◌, ◌≢◌, ◌⊎◌, refl, sym, ◌∙◌, ap, subst, true, Option, none, some, List, [], ◌∷◌, String,
  string_eq, arith, inl, inr, Eq, Bool-cases, ok, length, eq_of_test,
}
use veri_swarm_flight.Node.Events.{
  Field, absent, words, other, Payload, Event, Line, malformed, bare, entry, Codec,
  last_complete_from, last_complete, hash_of, is_text, verify_event_chain,
}
use veri_swarm_flight.Node.Events.Chain.{Links, Chained, verify_from-Chained}

-- `read_events`, for a log without bare values.
abbrev pub records : {P : Type 0} → List (Line P) → List (Event P)
records [] = []
records (malformed ∷ lines) = records lines
records (bare ∷ lines) = records lines
records (entry e ∷ lines) = e ∷ records lines

abbrev as_lines : {P : Type 0} → List (Event P) → List (Line P)
as_lines [] = []
as_lines (e ∷ es) = entry e ∷ as_lines es

-- Two texts that differ and have one digest.
abbrev pub Collision : {B : Type 0} → (B → String) → Type 0
Collision {B} digest = (x : B) × (y : B) × (x ≢ y) × (digest x ≡ digest y)

is_text-eq : (v : Field) (p q : String) → is_text v p ≡ true → is_text v q ≡ true → p ≡ q
is_text-eq absent p q h k = sym (eq_of_test "" p h) ∙ eq_of_test "" q k
is_text-eq (words s) p q h k = sym (eq_of_test s p h) ∙ eq_of_test s q k
is_text-eq (other s) p q h k = cc

module _ {P B : Type 0} ⦃same : Eq B⦄ (codec : Codec P B) where
  -- Different payloads have different canonical texts.
  abbrev pub IsFaithful : Type 0
  IsFaithful = (a b : Payload P) (x : B) → codec.dumps a ≡ some x → codec.dumps b ≡ some x → a ≡ b

  Chained-records :
      (p : String) (n : ℕ) (lines : List (Line P)) (f : String)
      → Chained codec p n lines f
      → Chained codec p n (as_lines (records lines)) f
  Chained-records p n [] f c = c
  Chained-records p n (malformed ∷ lines) f c = Chained-records p n lines f c
  Chained-records p n (bare ∷ lines) f c = absurd c
  Chained-records p n (entry e ∷ lines) f (h, l, c) = (h, l, Chained-records h (suc n) lines f c)

  hash_of-Chained :
      (p : String) (n : ℕ) (acc : Option (Event P)) (lines : List (Line P)) (f : String)
      → hash_of acc ≡ p
      → Chained codec p n lines f
      → hash_of (last_complete_from acc lines) ≡ f
  unfolding last_complete_from hash_of
  hash_of-Chained p n acc [] f h c = h ∙ c
  hash_of-Chained p n acc (malformed ∷ lines) f h c = hash_of-Chained p n acc lines f h c
  hash_of-Chained p n acc (bare ∷ lines) f h c = absurd c
  hash_of-Chained p n acc (entry e ∷ lines) f h (k, l, c) =
      hash_of-Chained k (suc n) (some e) lines f (rw (l.hashed, hash_of) refl) c

  -- One hash has one record.
  Links-eq :
      (p q : String) (n m : ℕ) (e d : Event P) (h : String)
      → IsFaithful
      → Links codec p n e h
      → Links codec q m d h
      → Collision codec.sha256_hex ⊎ ((e ≡ d) × (p ≡ q))
  Links-eq p q n m e d h faithful l k = elim (Bool-cases (same.beq l.bytes k.bytes)) [
    | inr differ ↦ inl (
      l.bytes,
      k.bytes,
      λ agree. ground (arith, same.beq_iff l.bytes k.bytes),
      l.digest ∙ sym k.digest,
    )
    | inl agree ↦
        let b : l.bytes ≡ k.bytes = (same.beq_iff l.bytes k.bytes).0 agree in
        let payload : e.payload ≡ d.payload =
          faithful e.payload d.payload k.bytes (l.printed ∙ ap some b) k.printed in
        let event : e ≡ d =
          λ i. record { payload = payload i; event_hash = (l.hashed ∙ sym k.hashed) i } in
        inr (
          event,
          is_text-eq d.payload.prev_hash p q
              (subst (λ x. is_text x.prev_hash p ≡ true) payload l.follows) k.follows,
        )
  ]

  Chained-eq :
      (p q : String) (n : ℕ) (es ds : List (Event P)) (f : String)
      → IsFaithful
      → length es ≡ length ds
      → Chained codec p n (as_lines es) f
      → Chained codec q n (as_lines ds) f
      → Collision codec.sha256_hex ⊎ ((es ≡ ds) × (p ≡ q))
  Chained-eq p q n [] [] f faithful size c d = inr (refl, c ∙ sym d)
  Chained-eq p q n [] (y ∷ ds) f faithful size c d = absurd (omega (arith, size))
  Chained-eq p q n (x ∷ es) [] f faithful size c d = absurd (omega (arith, size))
  Chained-eq p q n (x ∷ es) (y ∷ ds) f faithful size (h, l, c) (k, m, d) =
      elim (Chained-eq h k (suc n) es ds f faithful (omega (arith, size)) c d) [
        | inl clash ↦ inl clash
        | inr (rest, e) ↦ elim (Links-eq p q n n x y k faithful (subst (Links codec p n x) e l) m) [
          | inl clash ↦ inl clash
          | inr (first, before) ↦ inr (λ i. first i ∷ rest i, before)
        ]
      ]

  -- Two logs that `verify_event_chain` accepts, with equally many records and the same hash in the
  -- last one, hold the same records, or else two texts with the same SHA-256 digest are known; this
  -- takes that different payloads have different canonical texts.
  pub final_hash_pins_records :
      (xs ys : List (Line P))
      → IsFaithful
      → verify_event_chain codec xs ≡ ok (true, "ok")
      → verify_event_chain codec ys ≡ ok (true, "ok")
      → length (records xs) ≡ length (records ys)
      → hash_of (last_complete xs) ≡ hash_of (last_complete ys)
      → Collision codec.sha256_hex ⊎ (records xs ≡ records ys)
  unfolding verify_event_chain hash_of
  final_hash_pins_records xs ys faithful good fine size last =
      let (f, c) = verify_from-Chained codec "" 1 xs "ok" good in
      let (g, d) = verify_from-Chained codec "" 1 ys "ok" fine in
      let e : g ≡ f =
        sym (hash_of-Chained "" 1 none ys g refl d)
        ∙ sym last
        ∙ hash_of-Chained "" 1 none xs f refl c in
      elim (Chained-eq "" "" 1 (records xs) (records ys) f faithful size
        (Chained-records "" 1 xs f c)
        (subst (Chained codec "" 1 (as_lines (records ys))) e (Chained-records "" 1 ys g d))) [
          | inl clash ↦ inl clash
          | inr (equal, start) ↦ inr equal
        ]
