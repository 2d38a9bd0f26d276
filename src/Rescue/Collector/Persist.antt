-- ===== src/Rescue/Collector/Persist.antt =====
-- codebase/rescue/collector.py: what an emission adds to the log, and how the books follow the log.
use veri_swarm_flight.Base.{
  ◌≡◌, ◌⊎◌, refl, sym, true, ◌∙◌, subst, inl, inr, some, List, [], ◌∷◌, ◌++◌, String, string_eq,
  Option-cases, Result-cases, Result, ok, raise, ◌>>=◌,
}
use veri_swarm_flight.Base.Int.{ℤ, pos}
use veri_swarm_flight.Base.Dict.{get, get_or, set_item}
use veri_swarm_flight.Node.Events.{
  File, unsynced, words, write_line, append_text, Event, Line, malformed, bare, entry, Codec,
  Emission, emit, seq_of, last_complete, log_kind, payload_after,
}
use veri_swarm_flight.Node.Events.Writers.{Session, IsSound, emits-IsSound, is_whole, whole_cases}
use veri_swarm_flight.Rescue.Collector.{
  Projection, RescueEvent, Content, Books, restore_event, restore_lines, emit_as,
}

-- A record of the emission was added to the file.
pub record Appended {P : Type 0} (file after : File P) (c : Emission P) (e : Event P) : Type 0 where
  pub grown : after.lines ≡ file.lines ++ entry e ∷ []
  pub kind : e.payload.kind ≡ some c.kind
  pub rest : e.payload.rest ≡ c.rest

-- A write that leaves whole lines: the record is added and returned, or a diagnostic is returned, and
-- the file is as before, or the record was added without being synced.
pub emit-Appended :
    {P B : Type 0} (codec : Codec P B) (next : ℤ) (file : File P) (c : Emission P)
    → file.ended ≡ true
    → is_whole c.write ≡ true
    → let x = emit codec next file c in
      Appended file x.1 c x.2
      ⊎ ((x.1 ≡ file) × (x.2.payload.kind ≡ some log_kind))
      ⊎ ((e : Event P) × Appended file x.1 c e
          × (x.2.payload.kind ≡ some log_kind)
          × (c.write ≡ unsynced))
unfolding emit write_line append_text
emit-Appended codec next file c ended whole =
    elim (Result-cases (seq_of (last_complete file.lines))) [
      | inr (e, failed) ↦ rw (failed, emit) (inr (inl (refl, refl)))
      | inl (n, found) ↦
          let payload = payload_after (last_complete file.lines) n next c in
          elim (Option-cases (codec.dumps payload)) [
            | inl unprintable ↦ rw (found, emit) (rw (unprintable, emit) (inr (inl (refl, refl))))
            | inr (bytes, printed) ↦ elim (whole_cases c.write whole) [
              | inl written ↦
                  rw (found, emit)
                    (rw (printed, emit)
                      (rw (written, emit)
                        (rw written
                          (inl (record { grown = rw ended refl; kind = refl; rest = refl })))))
              | inr (inl late) ↦
                  rw (found, emit)
                    (rw (printed, emit)
                      (rw (late, emit)
                        (rw late (
                          inr (
                            inr (
                              record {
                                payload = payload;
                                event_hash = words (codec.sha256_hex bytes);
                              },
                              record { grown = rw ended refl; kind = refl; rest = refl },
                              refl,
                              refl,
                            ))))))
              | inr (inr full) ↦
                  rw (found, emit)
                    (rw (printed, emit) (rw (full, emit) (rw full (inr (inl (refl, refl))))))
            ]
          ]
    ]

>>=-ok : {S : Type 0} (x : Result (Books S)) → (x >>= λ next. ok next) ≡ x
>>=-ok (ok books) = refl
>>=-ok (raise e) = refl

pub restore_lines-append :
    {X S : Type 0} (canonical : RescueEvent X → String) (proj : Projection X S) (mission : String)
    (books : Books S) (lines : List (Line (Content X))) (e : Event (Content X))
    → restore_lines canonical proj mission books (lines ++ entry e ∷ []) ≡ (
        restore_lines canonical proj mission books lines >>= λ after.
        restore_event canonical proj mission after e)
unfolding restore_lines
restore_lines-append canonical proj mission books [] e =
    >>=-ok (restore_event canonical proj mission books e)
restore_lines-append canonical proj mission books (malformed ∷ lines) e =
    restore_lines-append canonical proj mission books lines e
restore_lines-append canonical proj mission books (bare ∷ lines) e = refl
restore_lines-append canonical proj mission books (entry x ∷ lines) e =
    elim (Result-cases (restore_event canonical proj mission books x)) [
      | inr (error, failed) ↦ rw (failed, restore_lines) refl
      | inl (after, done) ↦
          rw (done, restore_lines) (restore_lines-append canonical proj mission after lines e)
    ]

-- The books after one more record.
pub restore_more :
    {X S : Type 0} (canonical : RescueEvent X → String) (proj : Projection X S) (mission : String)
    (books : Books S) (start : Books S) (lines : List (Line (Content X))) (e : Event (Content X))
    → restore_lines canonical proj mission start lines ≡ ok books
    → restore_lines canonical proj mission start (lines ++ entry e ∷ [])
      ≡ restore_event canonical proj mission books e
restore_more canonical proj mission books start lines e h =
    restore_lines-append canonical proj mission start lines e ∙ rw h refl

-- The emission of an open writer.
pub emit_as-IsSound :
    {X B : Type 0} (codec : Codec (Content X) B) (writer : String) (s : Session (Content X))
    (c : Emission (Content X)) (next : ℤ)
    → is_whole c.write ≡ true
    → get writer s.writers ≡ some next
    → IsSound codec s
    → IsSound codec (emit_as codec writer s c).0
unfolding emit_as
emit_as-IsSound codec writer s c next whole found sound =
    let number : get_or writer (pos 1) s.writers ≡ next = rw (found, get_or) refl in
    subst
      (λ n. IsSound codec (record {
        file = (emit codec n s.file c).1;
        writers = set_item writer (emit codec n s.file c).0 s.writers;
      }))
      (sym number)
      (emits-IsSound codec s writer c next sound whole (sound.behind writer next found))
