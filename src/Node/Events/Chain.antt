-- ===== src/Node/Events/Chain.antt =====
-- codebase/node/events.py: what `verify_event_chain` accepts, without the loop.
use veri_swarm_flight.Base.{
  ℕ, suc, ◌≡◌, refl, sym, ◌∙◌, ap, subst, inl, inr, Bool, true, false, Option, none, some, List, [],
  ◌∷◌, ◌++◌, String, string_eq, arith, eq_iff, eq_refl, Option-cases, Result-cases, Result, ok,
  raise,
}
use veri_swarm_flight.Base.Int.{pos, int_beq_iff}
use veri_swarm_flight.Node.Events.{
  words, Seq, missing, number, castable, strange, Event, Line, malformed, bare, entry, Codec,
  last_complete_from, seq_of, hash_of, is_number, is_text, check_event, verify_from,
}

is_number-eq : (s : Seq) (n : ℕ) → is_number s n ≡ true → s ≡ number (pos n)
is_number-eq missing n h = cc
is_number-eq (number k) n h = ap number ((int_beq_iff k (pos n)).0 h)
is_number-eq (castable m s) n h = cc
is_number-eq (strange s) n h = cc

pub last_complete_from-append :
    {P : Type 0} (acc : Option (Event P)) (lines : List (Line P)) (e : Event P)
    → last_complete_from acc (lines ++ entry e ∷ []) ≡ some e
unfolding last_complete_from
last_complete_from-append acc [] e = refl
last_complete_from-append acc (malformed ∷ lines) e = last_complete_from-append acc lines e
last_complete_from-append acc (bare ∷ lines) e = last_complete_from-append none lines e
last_complete_from-append acc (entry x ∷ lines) e = last_complete_from-append (some x) lines e

module _ {P B : Type 0} (codec : Codec P B) where
  -- The record has number `n`, names the hash `p` and carries its own hash `h`.
  pub record Links (p : String) (n : ℕ) (e : Event P) (h : String) : Type 0 where
    pub numbered : e.payload.seq ≡ number (pos n)
    pub follows : is_text e.payload.prev_hash p ≡ true
    pub hashed : e.event_hash ≡ words h
    pub bytes : B
    pub printed : codec.dumps e.payload ≡ some bytes
    pub digest : codec.sha256_hex bytes ≡ h

  -- The lines form a chain from the hash `p` and the number `n` to the hash `f`.
  abbrev pub Chained : String → ℕ → List (Line P) → String → Type 0
  Chained p n [] f = p ≡ f
  Chained p n (malformed ∷ lines) f = Chained p n lines f
  Chained p n (bare ∷ lines) f = ⊥
  Chained p n (entry e ∷ lines) f = (h : String) × Links p n e h × Chained h (suc n) lines f

  pub check_event-Links :
      (p : String) (n : ℕ) (e : Event P) (h : String)
      → check_event codec p n e ≡ ok (true, h)
      → Links p n e h
  unfolding check_event
  check_event-Links p n e h c = elim (Option-cases (codec.dumps e.payload)) [
    | inl unprintable ↦ absurd (ground arith)
    | inr (bytes, printed) ↦ record {
      numbered = is_number-eq e.payload.seq n (ground arith);
      follows = ground arith;
      hashed = ground arith;
      bytes = bytes;
      printed = printed;
      digest = ground (arith, eq_iff (codec.sha256_hex bytes) h);
    }
  ]

  pub Links-check_event :
      (p : String) (n : ℕ) (e : Event P) (h : String)
      → Links p n e h
      → check_event codec p n e ≡ ok (true, h)
  unfolding check_event
  Links-check_event p n e h l = ground (
    arith,
    l.numbered,
    l.follows,
    l.hashed,
    l.printed,
    l.digest,
    eq_refl h,
    int_beq_iff (pos n) (pos n),
  )

  pub verify_from-Chained :
      (p : String) (n : ℕ) (lines : List (Line P)) (reason : String)
      → verify_from codec p n lines ≡ ok (true, reason)
      → (f : String) × Chained p n lines f
  unfolding verify_from
  verify_from-Chained p n [] reason h = (p, refl)
  verify_from-Chained p n (malformed ∷ lines) reason h = verify_from-Chained p n lines reason h
  verify_from-Chained p n (bare ∷ lines) reason h = cc
  verify_from-Chained p n (entry e ∷ lines) reason h =
      elim (Result-cases (check_event codec p n e)) [
        | inr (err, bad) ↦
            let stop : ◌≡◌ {A = Result (Bool × String)} (raise err) (ok (true, reason)) =
              sym (rw (bad, verify_from) refl) ∙ h in
            cc
        | inl ((true, claimed), good) ↦
            let rest : verify_from codec claimed (suc n) lines ≡ ok (true, reason) =
              sym (rw (good, verify_from) refl) ∙ h in
            let (f, chained) = verify_from-Chained claimed (suc n) lines reason rest in
            (f, (claimed, check_event-Links p n e claimed good, chained))
        | inl ((false, other), bad) ↦
            let stop : ◌≡◌ {A = Result (Bool × String)} (ok (false, other)) (ok (true, reason)) =
              sym (rw (bad, verify_from) refl) ∙ h in
            cc
      ]

  pub Chained-verify_from :
      (p : String) (n : ℕ) (lines : List (Line P)) (f : String)
      → Chained p n lines f
      → verify_from codec p n lines ≡ ok (true, "ok")
  unfolding verify_from
  Chained-verify_from p n [] f c = refl
  Chained-verify_from p n (malformed ∷ lines) f c = Chained-verify_from p n lines f c
  Chained-verify_from p n (bare ∷ lines) f c = absurd c
  Chained-verify_from p n (entry e ∷ lines) f (h, l, c) =
      rw (Links-check_event p n e h l, verify_from) (Chained-verify_from h (suc n) lines f c)

  -- The chain ends in record number `last`, and grows by what links to it.
  pub record Ends (p : String) (n : ℕ) (acc : Option (Event P)) (lines : List (Line P))
      : Type 0 where
    pub last : ℕ
    pub numbered : seq_of (last_complete_from acc lines) ≡ ok (pos last)
    pub grows :
        (e : Event P) (h : String)
        → Links (hash_of (last_complete_from acc lines)) (suc last) e h
        → Chained p (suc n) (lines ++ entry e ∷ []) h

  pub Chained-Ends :
      (p : String) (n : ℕ) (acc : Option (Event P)) (lines : List (Line P)) (f : String)
      → seq_of acc ≡ ok (pos n)
      → hash_of acc ≡ p
      → Chained p (suc n) lines f
      → Ends p n acc lines
  unfolding last_complete_from seq_of hash_of
  Chained-Ends p n acc [] f at hash c = record {
    last = n;
    numbered = at;
    grows = λ e h l. (h, subst (λ q. Links q (suc n) e h) hash l, refl);
  }
  Chained-Ends p n acc (malformed ∷ lines) f at hash c =
      let ends = Chained-Ends p n acc lines f at hash c in
      record { last = ends.last; numbered = ends.numbered; grows = ends.grows }
  Chained-Ends p n acc (bare ∷ lines) f at hash c = absurd c
  Chained-Ends p n acc (entry e ∷ lines) f at hash (h, l, c) =
      let ends =
        Chained-Ends h (suc n) (some e) lines f (rw (l.numbered, seq_of) refl)
          (rw (l.hashed, hash_of) refl) c in
      record {
        last = ends.last;
        numbered = ends.numbered;
        grows = λ x k m. (h, l, ends.grows x k m);
      }
