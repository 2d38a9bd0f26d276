-- ===== src/Rescue/Collector/Restore.antt =====
-- codebase/rescue/collector.py: a collector that starts anew knows what the former one knew.
use veri_swarm_flight.Base.{
  ◌≡◌, refl, sym, ◌∙◌, ap, subst, inl, inr, true, false, List, [], String, string_eq, arith,
  Bool-cases, Result-cases, >>=-eq-ok, Result, ok, raise, runtime_error, all,
}
use veri_swarm_flight.Base.Int.{ℤ, pos, ◌+ℤ◌}
use veri_swarm_flight.Base.Dict.{set_item}
use veri_swarm_flight.Node.Events.{
  File, Line, Codec, open_log, seq_of, last_complete, verify_event_chain,
}
use veri_swarm_flight.Node.Events.Writers.{
  Session, IsSound, after_pos, unchanged-IsSound, start-IsSound, IsSound-verify_event_chain,
}
use veri_swarm_flight.Base.Text.{concat}
use veri_swarm_flight.Rescue.Collector.{
  Projection, RescueEvent, Content, Books, Collector, no_books, restore_lines, restore,
  init_collector,
}
use veri_swarm_flight.Rescue.Collector.Mirror.{Act, is_other, act_all, Mirrors, get-set_item_same}
use veri_swarm_flight.Rescue.Collector.Others.{AllProject, act_all-Mirrors}

module _ {X B S : Type 0} (codec : Codec (Content X) B) (canonical : RescueEvent X → String)
    (proj : Projection X S) where
  open_log-file :
      (file : File (Content X)) (x : File (Content X) × ℤ) → open_log file false ≡ ok x → x.0 ≡ file
  unfolding open_log
  open_log-file file x h = elim (Result-cases (seq_of (last_complete file.lines))) [
    | inr (e, failed) ↦ absurd (ground (arith, failed))
    | inl (n, found) ↦
        let same : ◌≡◌ {A = Result (File (Content X) × ℤ)} (ok (file, n +ℤ pos 1)) (ok x) =
          sym (rw (found, open_log) refl) ∙ h in
        let e : (file, n +ℤ pos 1) ≡ x = cc in sym (ap (λ y. y.0) e)
  ]

  restore-eq-ok :
      (mission : String) (lines : List (Line (Content X))) (books : Books S)
      → restore codec canonical proj mission lines ≡ ok books
      → (reason : String) × (verify_event_chain codec lines ≡ ok (true, reason))
        × (restore_lines canonical proj mission (no_books proj mission) lines ≡ ok books)
  unfolding restore
  restore-eq-ok mission lines books h =
      let (v, valid, rest) = >>=-eq-ok (verify_event_chain codec lines) _ books h in
      elim (Bool-cases v.0) [
        | inl fine ↦ (v.1, valid ∙ (λ i. ok (fine i, v.1)), sym (rw fine refl) ∙ rest)
        | inr broken ↦
            let stop : ◌≡◌ {A = Result (Books S)}
                (raise (runtime_error (concat "event_log_chain_invalid:" v.1))) (ok books) =
              sym (rw broken refl) ∙ rest in
            cc
      ]

  opened_sound :
      (s : Session (Content X)) (sound : IsSound codec s)
      → open_log s.file false ≡ ok (s.file, pos sound.last +ℤ pos 1)
  unfolding open_log
  opened_sound s sound = rw (sound.numbered, open_log) refl

  restore_sound :
      (mission : String) (s : Session (Content X)) (books : Books S)
      → IsSound codec s
      → restore_lines canonical proj mission (no_books proj mission) s.file.lines ≡ ok books
      → restore codec canonical proj mission s.file.lines ≡ ok books
  unfolding restore
  restore_sound mission s books sound h = rw (IsSound-verify_event_chain codec s sound, restore) h

  made :
      {x y : Collector S × Session (Content X)}
      → ◌≡◌ {A = Result (Collector S × Session (Content X))} (ok x) (ok y)
      → x ≡ y
  made h = cc

  started :
      (mission writer : String) (lines : List (Line (Content X))) (books : Books S)
      (opened : File (Content X) × ℤ)
      → open_log (record { lines = lines; ended = true }) false ≡ ok opened
      → (reason : String) → verify_event_chain codec lines ≡ ok (true, reason)
      → restore_lines canonical proj mission (no_books proj mission) lines ≡ ok books
      → Mirrors codec canonical proj (
        record { mission_id = mission; writer = writer; books = books },
        record { file = opened.0; writers = set_item writer opened.1 [] },
      )
  started mission writer lines books opened o reason valid mirrored =
      let file : File (Content X) = record { lines = lines; ended = true } in
      let empty : Session (Content X) = record { file = file; writers = [] } in
      let sound = start-IsSound codec lines reason valid in
      let both : ◌≡◌ {A = Result (File (Content X) × ℤ)} (ok (file, pos sound.last +ℤ pos 1))
          (ok opened) =
        sym (opened_sound empty sound) ∙ o in
      let e : (file, pos sound.last +ℤ pos 1) ≡ opened = cc in
      subst
        (λ p. Mirrors codec canonical proj (
          record { mission_id = mission; writer = writer; books = books },
          record { file = p.0; writers = set_item writer p.1 [] },
        ))
        e
        (record {
          sound =
              unchanged-IsSound codec empty writer (pos sound.last +ℤ pos 1) sound
                (rw (after_pos codec sound.last) (omega arith));
          next = pos sound.last +ℤ pos 1;
          is_open = get-set_item_same codec canonical proj writer (pos sound.last +ℤ pos 1) [];
          mirrored = mirrored;
        })

  -- A collector that was made of a log mirrors it.
  init-Mirrors :
      (mission writer : String) (lines : List (Line (Content X)))
      (x : Collector S × Session (Content X))
      → init_collector codec canonical proj mission writer
          (record { file = record { lines = lines; ended = true }; writers = [] })
        ≡ ok x
      → Mirrors codec canonical proj x × (x.0.writer ≡ writer) × (x.0.mission_id ≡ mission)
  unfolding init_collector
  init-Mirrors mission writer lines x h =
      let file : File (Content X) = record { lines = lines; ended = true } in
      let (opened, o, h1) = >>=-eq-ok (open_log file false) _ x h in
      let (books, restored, h2) =
        >>=-eq-ok (restore codec canonical proj mission opened.0.lines) _ x h1 in
      let same = open_log-file file opened o in
      let (reason, valid, mirrored) =
        restore-eq-ok mission lines books
          (subst (λ f. restore codec canonical proj mission f.lines ≡ ok books) same restored) in
      let e : (
        record { mission_id = mission; writer = writer; books = books },
        record { file = opened.0; writers = set_item writer opened.1 [] },
      )
          ≡ x =
        made h2 in
      subst
        (λ y. Mirrors codec canonical proj y × (y.0.writer ≡ writer) × (y.0.mission_id ≡ mission)) e
        (started mission writer lines books opened o reason valid mirrored, refl, refl)

  -- A collector can be made of a log that is mirrored.
  Mirrors-init :
      (x : Collector S × Session (Content X)) (writer : String)
      → Mirrors codec canonical proj x
      → (s : Session (Content X)) × (init_collector codec canonical proj x.0.mission_id writer x.1
          ≡ ok (record x.0 { writer = writer }, s))
  unfolding init_collector
  Mirrors-init (c, s) writer m = (
    record { file = s.file; writers = set_item writer (pos m.sound.last +ℤ pos 1) s.writers },
    rw (opened_sound s m.sound, init_collector)
        (rw (restore_sound c.mission_id s c.books m.sound m.mirrored) refl),
  )

  -- A collector that starts anew on the log of another one knows what that one knew: after any
  -- history of candidates, in which some are refused and some writes fail, and of other writers that
  -- join and emit what is no rescue event, a new collector of the same mission can be made of the
  -- log, its chain is intact, and it has the same events, the same last sequence numbers and the
  -- same projection. The log is one that ends in a newline, writes leave whole lines, those of the
  -- collector do not raise after their line was written, and the projection raises on no event of
  -- the history with a new identity.
  pub restore_after :
      (mission writer new : String) (lines : List (Line (Content X)))
      (x : Collector S × Session (Content X)) (acts : List (Act X))
      → init_collector codec canonical proj mission writer
          (record { file = record { lines = lines; ended = true }; writers = [] })
        ≡ ok x
      → all (is_other writer) acts ≡ true
      → AllProject codec canonical proj x acts
      → (s : Session (Content X)) × (init_collector codec canonical proj mission new
            (act_all codec canonical proj x acts).1
          ≡ ok (
            record {
              mission_id = mission;
              writer = new;
              books = (act_all codec canonical proj x acts).0.books;
            },
            s,
          ))
  restore_after mission writer new lines x acts h others fine =
      let (m, w, n) = init-Mirrors mission writer lines x h in
      let (after, named) =
        act_all-Mirrors codec canonical proj x acts writer mission (w, n) others fine m in
      let (s, e) = Mirrors-init (act_all codec canonical proj x acts) new after in
      (
        s,
        subst
            (λ z.
              init_collector codec canonical proj z new (act_all codec canonical proj x acts).1
              ≡ ok (
                record {
                  mission_id = z;
                  writer = new;
                  books = (act_all codec canonical proj x acts).0.books;
                },
                s,
              ))
            named e,
      )
