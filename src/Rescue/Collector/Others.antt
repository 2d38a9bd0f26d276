-- ===== src/Rescue/Collector/Others.antt =====
-- codebase/rescue/collector.py: the books beside other writers, and over a history.
use veri_swarm_flight.Base.{
  ◌≡◌, sym, ◌∙◌, subst, inl, inr, true, false, none, some, List, [], ◌∷◌, String, string_eq, ◌==◌,
  eq_iff, arith, Option-cases, ok, all,
}
use veri_swarm_flight.Base.Int.{ℤ, pos, ◌+ℤ◌}
use veri_swarm_flight.Base.Dict.{get, get_or, set_item, get-set_item}
use veri_swarm_flight.Node.Events.{Write, Event, Codec, Emission, emit, open_log, rescue_kind}
use veri_swarm_flight.Node.Events.Writers.{Session, is_whole, after_pos, unchanged-IsSound}
use veri_swarm_flight.Rescue.Collector.{
  Projection, RescueEvent, Content, Collector, is_kind, no_books, restore_lines, emit_as, enter,
  collect_event,
}
use veri_swarm_flight.Rescue.Collector.Persist.{
  Appended, emit-Appended, restore_more, emit_as-IsSound,
}
use veri_swarm_flight.Rescue.Collector.Mirror.{
  Act, Projects, takes, joins, writes, is_other, act, act_all, Mirrors, restore_event-other,
  takes-Mirrors,
}

module _ {X B S : Type 0} (codec : Codec (Content X) B) (canonical : RescueEvent X → String)
    (proj : Projection X S) where
  joins-Mirrors :
      (c : Collector S) (s : Session (Content X)) (w : String)
      → (w == c.writer) ≡ false
      → Mirrors codec canonical proj (c, s)
      → Mirrors codec canonical proj (act codec canonical proj (c, s) (joins w))
  unfolding act open_log
  joins-Mirrors c s w other m =
      rw (m.sound.numbered, act)
        (record {
          sound =
              unchanged-IsSound codec s w (pos m.sound.last +ℤ pos 1) m.sound
                (rw (after_pos codec m.sound.last) (omega arith));
          next = m.next;
          is_open = ground (
            arith,
            get-set_item w c.writer (pos m.sound.last +ℤ pos 1) s.writers,
            m.is_open,
            eq_iff w c.writer,
            eq_iff c.writer w,
          );
          mirrored = m.mirrored;
        })

  writes-Mirrors :
      (c : Collector S) (s : Session (Content X)) (w : String) (emission : Emission (Content X))
      → (w == c.writer) ≡ false
      → (emission.kind == rescue_kind) ≡ false
      → is_whole emission.write ≡ true
      → Mirrors codec canonical proj (c, s)
      → Mirrors codec canonical proj (act codec canonical proj (c, s) (writes w emission))
  unfolding act emit_as
  writes-Mirrors c s w emission other unlike whole m = elim (Option-cases (get w s.writers)) [
    | inl closed ↦ rw (closed, act) m
    | inr (n, found) ↦
        let next = get_or w (pos 1) s.writers in
        let event = (emit codec next s.file emission).2 in
        let after = (emit codec next s.file emission).0 in
        let sound = emit_as-IsSound codec w s emission n whole found m.sound in
        let still : get c.writer (set_item w after s.writers) ≡ some m.next = ground (
          arith,
          get-set_item w c.writer after s.writers,
          m.is_open,
          eq_iff w c.writer,
          eq_iff c.writer w,
        ) in
        let start = no_books proj c.mission_id in
        let passed : (e : Event (Content X))
            → Appended s.file (emit codec next s.file emission).1 emission e
            → restore_lines canonical proj c.mission_id start
                (emit codec next s.file emission).1.lines
              ≡ ok c.books =
          λ e added.
            let foreign_kind : is_kind e.payload.kind rescue_kind ≡ false = rw added.kind unlike in
            subst (λ f. restore_lines canonical proj c.mission_id start f ≡ ok c.books)
              (sym added.grown)
              (restore_more canonical proj c.mission_id c.books start s.file.lines e m.mirrored
                ∙ restore_event-other codec canonical proj c.mission_id c.books e foreign_kind) in
        let mirrored : restore_lines canonical proj c.mission_id start
              (emit codec next s.file emission).1.lines
            ≡ ok c.books =
          elim (emit-Appended codec next s.file emission m.sound.ended whole) [
            | inr (inl (same, kind)) ↦ rw same m.mirrored
            | inl added ↦ passed event added
            | inr (inr (e, added, kind, late)) ↦ passed e added
          ] in
        subst
          (λ o.
            Mirrors codec canonical proj
              (elim o [ none ↦ (c, s) | some k ↦ (c, (emit_as codec w s emission).0) ]))
          (sym found)
          (record { sound = sound; next = m.next; is_open = still; mirrored = mirrored })
  ]

  act-Mirrors :
      (x : Collector S × Session (Content X)) (a : Act X)
      → is_other x.0.writer a ≡ true
      → Projects codec canonical proj x a
      → Mirrors codec canonical proj x
      → Mirrors codec canonical proj (act codec canonical proj x a)
  act-Mirrors (c, s) (takes e now write) other fine m =
      takes-Mirrors codec canonical proj c s e now write other fine m
  act-Mirrors (c, s) (joins w) other fine m = joins-Mirrors c s w (ground arith) m
  act-Mirrors (c, s) (writes w emission) other fine m =
      writes-Mirrors c s w emission (ground arith) (ground arith) (ground arith) m

  -- The collector keeps its names.
  collect_event-names :
      (c : Collector S) (s : Session (Content X)) (e : RescueEvent X) (now : ℤ) (write : Write)
      → ((collect_event codec canonical proj c s e now write).0.writer ≡ c.writer)
        × ((collect_event codec canonical proj c s e now write).0.mission_id ≡ c.mission_id)
  unfolding collect_event enter
  collect_event-names c s e now write = (ground arith, ground arith)

  pub act-names :
      (x : Collector S × Session (Content X)) (a : Act X)
      → ((act codec canonical proj x a).0.writer ≡ x.0.writer)
        × ((act codec canonical proj x a).0.mission_id ≡ x.0.mission_id)
  unfolding act
  act-names (c, s) (takes e now write) = collect_event-names c s e now write
  act-names (c, s) (joins w) = (ground arith, ground arith)
  act-names (c, s) (writes w emission) = (ground arith, ground arith)

  -- It takes every new event of a history.
  abbrev pub AllProject : Collector S × Session (Content X) → List (Act X) → Type 0
  AllProject x [] = Unit {0}
  AllProject x (a ∷ acts) =
      Projects codec canonical proj x a × AllProject (act codec canonical proj x a) acts

  pub act_all-Mirrors :
      (x : Collector S × Session (Content X)) (acts : List (Act X)) (writer mission : String)
      → (x.0.writer ≡ writer) × (x.0.mission_id ≡ mission)
      → all (is_other writer) acts ≡ true
      → AllProject x acts
      → Mirrors codec canonical proj x
      → Mirrors codec canonical proj (act_all codec canonical proj x acts)
        × ((act_all codec canonical proj x acts).0.mission_id ≡ mission)
  unfolding act_all
  act_all-Mirrors x [] writer mission (w, n) others fine m = (m, n)
  act_all-Mirrors x (a ∷ acts) writer mission (w, n) others (now, later) m =
      let (w', n') = act-names x a in
      let apart : is_other x.0.writer a ≡ true =
        subst (λ z. is_other z a ≡ true) (sym w) (ground arith) in
      act_all-Mirrors (act codec canonical proj x a) acts writer mission (w' ∙ w, n' ∙ n)
        (ground arith) later (act-Mirrors x a apart now m)
