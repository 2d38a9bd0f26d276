-- ===== src/Node/Events/Writers.antt =====
-- codebase/node/events.py: several writers that append to one log, each under the file's lock.
use veri_swarm_flight.Base.{
  ℕ, suc, ◌≡◌, ◌⊎◌, refl, sym, ◌∙◌, ap, subst, Bool, true, false, not, none, some, List, [], ◌∷◌,
  String, string_eq, eq_refl, arith, inl, inr, Option-cases, Result, ok, raise, all,
}
use veri_swarm_flight.Base.Int.{ℤ, pos, ◌+ℤ◌, ◌≤ℤ◌, max_ℤ}
use veri_swarm_flight.Base.Dict.{Dict, get, set_item, get-set_item}
use veri_swarm_flight.Node.Events.{
  words, number, Event, Line, entry, File, Write, done, unsynced, unended, cut, refused,
  append_text, write_line, Codec, last_complete, seq_of, hash_of, open_log, Emission, emit,
  payload_after, verify_event_chain,
}
use veri_swarm_flight.Node.Events.Chain.{
  Links, Chained, Chained-Ends, last_complete_from-append, verify_from-Chained, Chained-verify_from,
}

-- The file, and the next number of each open writer.
pub record Session (P : Type 0) : Type 0 where
  pub file : File P
  pub writers : Dict String ℤ

-- A process opens the log, or one of the writers emits.
pub data Turn (P : Type 0) : Type 0 where
  opens : String → Bool → Turn P
  emits : String → Emission P → Turn P

-- The write leaves whole lines.
abbrev pub is_whole : Write → Bool
is_whole done = true
is_whole unsynced = true
is_whole unended = false
is_whole cut = false
is_whole refused = true

-- The turn does not empty the log, and leaves no line without its newline.
abbrev pub keeps : {P : Type 0} → Turn P → Bool
keeps (opens w truncate) = not truncate
keeps (emits w c) = is_whole c.write

pub whole_cases : (x : Write) → is_whole x ≡ true → (x ≡ done) ⊎ (x ≡ unsynced) ⊎ (x ≡ refused)
whole_cases done h = inl refl
whole_cases unsynced h = inr (inl refl)
whole_cases unended h = cc
whole_cases cut h = cc
whole_cases refused h = inr (inr refl)

module _ {P B : Type 0} (codec : Codec P B) where
  unfoldable pub step : Session P → Turn P → Session P
  step s (opens w truncate) = elim (open_log s.file truncate) [
    | raise e ↦ s
    | ok (file, next) ↦ record { file = file; writers = set_item w next s.writers }
  ]
  step s (emits w c) = elim (get w s.writers) [
    | none ↦ s
    | some next ↦
        let (after, file, event) = emit codec next s.file c in
        record { file = file; writers = set_item w after s.writers }
  ]

  unfoldable pub run : Session P → List (Turn P) → Session P
  run s [] = s
  run s (t ∷ ts) = run (step s t) ts

  -- The log verifies and ends in a newline, and no writer is ahead of it.
  pub record IsSound (s : Session P) : Type 0 where
    pub ended : s.file.ended ≡ true
    pub final : String
    pub chained : Chained codec "" 1 s.file.lines final
    pub last : ℕ
    pub numbered : seq_of (last_complete s.file.lines) ≡ ok (pos last)
    pub behind : (w : String) (next : ℤ) → get w s.writers ≡ some next → next ≤ℤ pos (suc last)

  same_number : {a b : ℕ} → ◌≡◌ {A = Result ℤ} (ok (pos a)) (ok (pos b)) → a ≡ b
  same_number h = cc

  pub after_pos : (n : ℕ) → pos n +ℤ pos 1 ≡ pos (suc n)
  unfolding ◌+ℤ◌
  after_pos n = ground arith

  -- A writer that is not ahead takes the next number.
  next_number :
      (next : ℤ) (last : ℕ)
      → next ≤ℤ pos (suc last)
      → max_ℤ next (pos last +ℤ pos 1) ≡ pos (suc last)
  unfolding ◌+ℤ◌
  next_number next last h = ground arith

  pub unchanged-IsSound :
      (s : Session P) (w : String) (next : ℤ) (sound : IsSound s)
      → next ≤ℤ pos (suc sound.last)
      → IsSound (record { file = s.file; writers = set_item w next s.writers })
  unchanged-IsSound s w next sound h = record {
    ended = sound.ended;
    final = sound.final;
    chained = sound.chained;
    last = sound.last;
    numbered = sound.numbered;
    behind = λ v n found. ground (arith, get-set_item w v next s.writers, sound.behind v n);
  }

  extended-IsSound :
      (s : Session P) (w : String) (next : ℤ) (e : Event P) (h : String) (sound : IsSound s)
      → Links codec (hash_of (last_complete s.file.lines)) (suc sound.last) e h
      → next ≤ℤ pos (suc (suc sound.last))
      → IsSound
          (record { file = append_text s.file (entry e) true; writers = set_item w next s.writers })
  unfolding append_text seq_of hash_of
  extended-IsSound s w next e h sound l at =
      let lines = s.file.lines in
      let ends = Chained-Ends codec "" 0 none lines sound.final refl refl sound.chained in
      let same : sound.last ≡ ends.last = same_number (sym (sound.numbered) ∙ ends.numbered) in
      rw (sound.ended) (record {
        ended = refl;
        final = h;
        chained =
            ends.grows e h
              (subst (λ n. Links codec (hash_of (last_complete lines)) (suc n) e h) same l);
        last = suc sound.last;
        numbered = rw (last_complete_from-append none lines e) (rw (l.numbered, seq_of) refl);
        behind = λ v n found. ground (arith, get-set_item w v next s.writers, at, sound.behind v n);
      })

  -- Where the number and the hash of the last record are known.
  emitted :
      (next : ℤ) (file : List (Line P)) (last : ℕ) (c : Emission P) (bytes : B)
      → next ≤ℤ pos (suc last)
      → seq_of (last_complete file) ≡ ok (pos last)
      → codec.dumps (payload_after (last_complete file) (pos last) next c) ≡ some bytes
      → Links codec
          (hash_of (last_complete file))
          (suc last)
          (record {
            payload = payload_after (last_complete file) (pos last) next c;
            event_hash = words (codec.sha256_hex bytes);
          })
          (codec.sha256_hex bytes)
  emitted next file last c bytes h at printed = record {
    numbered = ap number (next_number next last h);
    follows = eq_refl (hash_of (last_complete file));
    hashed = refl;
    bytes = bytes;
    printed = printed;
    digest = refl;
  }

  pub emits-IsSound :
      (s : Session P) (w : String) (c : Emission P) (next : ℤ) (sound : IsSound s)
      → is_whole c.write ≡ true
      → next ≤ℤ pos (suc sound.last)
      → IsSound (record {
        file = (emit codec next s.file c).1;
        writers = set_item w (emit codec next s.file c).0 s.writers;
      })
  unfolding emit write_line
  emits-IsSound s w c next sound whole h =
      let lines = s.file.lines in
      let payload = payload_after (last_complete lines) (pos sound.last) next c in
      elim (Option-cases (codec.dumps payload)) [
        | inl unprintable ↦
            rw (sound.numbered, emit) (rw (unprintable, emit) (unchanged-IsSound s w next sound h))
        | inr (bytes, printed) ↦
            let links = emitted next lines sound.last c bytes h sound.numbered printed in
            elim (whole_cases c.write whole) [
              | inl written ↦
                  rw (sound.numbered, emit)
                    (rw (printed, emit)
                      (rw (written, emit)
                        (rw written (
                          extended-IsSound s w _ _ _ sound links (
                            rw (next_number next sound.last h, after_pos (suc sound.last))
                              (omega arith))))))
              | inr (inl late) ↦
                  rw (sound.numbered, emit)
                    (rw (printed, emit)
                      (rw (late, emit)
                        (rw late (extended-IsSound s w next _ _ sound links (omega (arith, h))))))
              | inr (inr full) ↦
                  rw (sound.numbered, emit)
                    (rw (printed, emit)
                      (rw (full, emit) (rw full (unchanged-IsSound s w next sound h))))
            ]
      ]

  pub step-IsSound : (s : Session P) (t : Turn P) → keeps t ≡ true → IsSound s → IsSound (step s t)
  unfolding step emit open_log
  step-IsSound s (opens w true) kept sound = cc
  step-IsSound s (opens w false) kept sound =
      rw (sound.numbered, step)
        (rw (after_pos sound.last)
          (unchanged-IsSound s w (pos (suc sound.last)) sound (omega arith)))
  step-IsSound s (emits w c) kept sound = elim (Option-cases (get w s.writers)) [
    | inl e ↦ rw (e, step) sound
    | inr (next, e) ↦ rw (e, step) (emits-IsSound s w c next sound kept (sound.behind w next e))
  ]

  run-IsSound :
      (s : Session P) (ts : List (Turn P)) → all keeps ts ≡ true → IsSound s → IsSound (run s ts)
  unfolding run
  run-IsSound s [] kept sound = sound
  run-IsSound s (t ∷ ts) kept sound =
      run-IsSound (step s t) ts (ground arith) (step-IsSound s t (ground arith) sound)

  pub start-IsSound :
      (lines : List (Line P)) (reason : String)
      → verify_event_chain codec lines ≡ ok (true, reason)
      → IsSound (record { file = record { lines = lines; ended = true }; writers = [] })
  unfolding verify_event_chain get seq_of hash_of
  start-IsSound lines reason valid =
      let (f, chained) = verify_from-Chained codec "" 1 lines reason valid in
      let ends = Chained-Ends codec "" 0 none lines f refl refl chained in
      record {
        ended = refl;
        final = f;
        chained = chained;
        last = ends.last;
        numbered = ends.numbered;
        behind = λ w n found. cc;
      }

  pub IsSound-verify_event_chain :
      (s : Session P) → IsSound s → verify_event_chain codec s.file.lines ≡ ok (true, "ok")
  unfolding verify_event_chain
  IsSound-verify_event_chain s sound =
      Chained-verify_from codec "" 1 s.file.lines sound.final sound.chained

  -- On a log that `verify_event_chain` accepts, that ends in a newline and that no process has
  -- opened yet, any number of writers may open it without truncating, and emit in any order, with
  -- payloads that have no JSON and with writes that are refused, or raise after the whole line was
  -- written, among them: as long as no write leaves a line without its newline,
  -- `verify_event_chain` still accepts the log.
  pub run-verify_event_chain :
      (lines : List (Line P)) (ts : List (Turn P))
      → verify_event_chain codec lines ≡ ok (true, "ok")
      → all keeps ts ≡ true
      → let start : Session P = record {
        file = record { lines = lines; ended = true };
        writers = [];
      } in
        verify_event_chain codec (run start ts).file.lines ≡ ok (true, "ok")
  run-verify_event_chain lines ts valid kept =
      let start : Session P = record {
        file = record { lines = lines; ended = true };
        writers = [];
      } in
      IsSound-verify_event_chain (run start ts)
        (run-IsSound start ts kept (start-IsSound lines "ok" valid))
