-- ===== src/Rescue/Collector/Mirror.antt =====
-- codebase/rescue/collector.py: the books of a collector are those that its log gives, whatever it and
-- other writers do.
use veri_swarm_flight.Base.{
  ◌&&◌, ◌≡◌, ◌≢◌, refl, sym, ◌∙◌, subst, inl, inr, Bool, true, false, not, none, some, List, [],
  ◌∷◌, String, string_eq, ◌==◌, eq_refl, eq_iff, arith, Bool-cases, Option-cases, ok, raise, leb,
}
use veri_swarm_flight.Base.Int.{ℤ, pos}
use veri_swarm_flight.Base.Dict.{Dict, get, get_or, set_item, get-set_item}
use veri_swarm_flight.Node.Events.{
  Event, Write, done, unsynced, unended, cut, refused, Codec, Emission, emit, open_log, rescue_kind,
}
use veri_swarm_flight.Node.Events.Writers.{Session, IsSound, is_whole}
use veri_swarm_flight.Rescue.Collector.{
  Projection, RescueEvent, Content, rescue, Books, Collector, is_kind, later_of, no_books,
  restore_event, restore_lines, emit_as, enter, collect_event,
}
use veri_swarm_flight.Rescue.Collector.Persist.{emit-Appended, restore_more, emit_as-IsSound}

-- The collector takes a candidate, at a time, or another writer opens the log or emits.
pub data Act (X : Type 0) : Type 0 where
  takes : RescueEvent X → ℤ → Write → Act X
  joins : String → Act X
  writes : String → Emission (Content X) → Act X

-- The write is done or leaves nothing.
abbrev pub is_settled : Write → Bool
is_settled done = true
is_settled unsynced = false
is_settled unended = false
is_settled cut = false
is_settled refused = true

-- The other writers have names of their own, do not write rescue events, and leave whole lines; no
-- write of the collector raises after its line was written.
abbrev pub is_other : {X : Type 0} → String → Act X → Bool
is_other writer (takes e now write) = is_settled write
is_other writer (joins w) = not (w == writer)
is_other writer (writes w c) = not (w == writer) && not (c.kind == rescue_kind) && is_whole c.write

settled-is_whole : (x : Write) → is_settled x ≡ true → is_whole x ≡ true
settled-is_whole done h = refl
settled-is_whole unsynced h = cc
settled-is_whole unended h = cc
settled-is_whole cut h = cc
settled-is_whole refused h = refl

settled_synced : (x : Write) → is_settled x ≡ true → x ≢ unsynced
settled_synced x settled late = cc (subst (λ y. is_settled y ≡ true) late settled)

module _ {X B S : Type 0} (codec : Codec (Content X) B) (canonical : RescueEvent X → String)
    (proj : Projection X S) where
  unfoldable pub act : Collector S × Session (Content X) → Act X → Collector S × Session (Content X)
  act (c, s) (takes e now write) =
      let (c', s', result) = collect_event codec canonical proj c s e now write in (c', s')
  act (c, s) (joins w) = elim (open_log s.file false) [
    | raise e ↦ (c, s)
    | ok (file, next) ↦ (c, record { file = file; writers = set_item w next s.writers })
  ]
  act (c, s) (writes w emission) = elim (get w s.writers) [
    | none ↦ (c, s)
    | some next ↦ (c, (emit_as codec w s emission).0)
  ]

  unfoldable pub act_all :
      Collector S × Session (Content X) → List (Act X) → Collector S × Session (Content X)
  act_all x [] = x
  act_all x (a ∷ acts) = act_all (act x a) acts

  -- The books are those that the log gives.
  pub record Mirrors (x : Collector S × Session (Content X)) : Type 0 where
    pub sound : IsSound codec x.1
    pub next : ℤ
    pub is_open : get x.0.writer x.1.writers ≡ some next
    pub mirrored :
        restore_lines canonical proj x.0.mission_id (no_books proj x.0.mission_id) x.1.file.lines
        ≡ ok x.0.books

  -- What `collect` enters is what a restoration enters.
  restore_event-entered :
      (mission : String) (books : Books S) (r : RescueEvent X) (e : Event (Content X))
      → e.payload.kind ≡ some rescue_kind
      → e.payload.rest ≡ rescue r
      → r.mission_id ≡ mission
      → leb r.source_seq (get_or r.source 0 books.last_source_seq) ≡ false
      → (proj.apply e books.projection).1 ≡ none
      → restore_event canonical proj mission books e
        ≡ ok (record {
          by_event_id = set_item r.event_id (canonical r) books.by_event_id;
          last_source_seq = set_item r.source r.source_seq books.last_source_seq;
          projection = (proj.apply e books.projection).0;
        })
  unfolding restore_event
  restore_event-entered mission books r e kind rest home later fine =
      let here : (r.mission_id == mission) ≡ true = (eq_iff r.mission_id mission).1 home in
      let newest : later_of r.source_seq (get_or r.source 0 books.last_source_seq) ≡ r.source_seq =
        ground arith in
      simp (kind, rest, here, newest, fine)

  -- Another event is passed over.
  pub restore_event-other :
      (mission : String) (books : Books S) (e : Event (Content X))
      → is_kind e.payload.kind rescue_kind ≡ false
      → restore_event canonical proj mission books e ≡ ok books
  unfolding restore_event
  restore_event-other mission books e other = rw (other, restore_event) refl

  pub get-set_item_same :
      (w : String) (n : ℤ) (writers : Dict String ℤ) → get w (set_item w n writers) ≡ some n
  get-set_item_same w n writers = get-set_item w w n writers ∙ rw (eq_refl w) refl

  abbrev emission_of : RescueEvent X → ℤ → Write → Emission (Content X)
  emission_of e now write = record { kind = rescue_kind; rest = rescue e; now = now; write = write }

  -- The projection takes the event that would be entered, if its identity is new.
  abbrev pub Projects : Collector S × Session (Content X) → Act X → Type 0
  Projects (c, s) (takes e now write) =
      get e.event_id c.books.by_event_id ≡ none
      → (proj.apply (emit_as codec c.writer s (emission_of e now write)).1 c.books.projection).1
        ≡ none
  Projects (c, s) (joins w) = Unit {0}
  Projects (c, s) (writes w emission) = Unit {0}

  enter-Mirrors :
      (c : Collector S) (s : Session (Content X)) (e : RescueEvent X) (now : ℤ) (write : Write)
      → is_settled write ≡ true
      → e.mission_id ≡ c.mission_id
      → leb e.source_seq (get_or e.source 0 c.books.last_source_seq) ≡ false
      → (proj.apply (emit_as codec c.writer s (emission_of e now write)).1 c.books.projection).1
        ≡ none
      → Mirrors (c, s)
      → let x = enter canonical proj c e (emit_as codec c.writer s (emission_of e now write)) in
        Mirrors (x.0, x.1)
  unfolding enter emit_as
  enter-Mirrors c s e now write settled home later fine m =
      let next = get_or c.writer (pos 1) s.writers in
      let emission = emission_of e now write in
      let after = (emit codec next s.file emission).0 in
      let event = (emit codec next s.file emission).2 in
      let whole = settled-is_whole write settled in
      let sound = emit_as-IsSound codec c.writer s emission m.next whole m.is_open m.sound in
      elim (emit-Appended codec next s.file emission m.sound.ended whole) [
        | inl added ↦
            rw (added.kind, enter)
              (record {
                sound = sound;
                next = after;
                is_open = get-set_item_same c.writer after s.writers;
                mirrored =
                    subst
                      (λ f.
                        restore_lines canonical proj c.mission_id (no_books proj c.mission_id) f
                        ≡ ok (record {
                          by_event_id = set_item e.event_id (canonical e) c.books.by_event_id;
                          last_source_seq = set_item e.source e.source_seq c.books.last_source_seq;
                          projection = (proj.apply event c.books.projection).0;
                        }))
                      (sym added.grown)
                      (restore_more canonical proj c.mission_id c.books (no_books proj c.mission_id)
                          s.file.lines event m.mirrored
                        ∙ restore_event-entered c.mission_id c.books e event added.kind added.rest
                            home later fine);
              })
        | inr (inl (same, kind)) ↦
            rw (kind, enter)
              (record {
                sound = sound;
                next = after;
                is_open = get-set_item_same c.writer after s.writers;
                mirrored = rw same m.mirrored;
              })
        | inr (inr (other, added, kind, late)) ↦ absurd (settled_synced write settled late)
      ]

  pub takes-Mirrors :
      (c : Collector S) (s : Session (Content X)) (e : RescueEvent X) (now : ℤ) (write : Write)
      → is_settled write ≡ true
      → Projects (c, s) (takes e now write)
      → Mirrors (c, s)
      → Mirrors (act (c, s) (takes e now write))
  unfolding act collect_event
  takes-Mirrors c s e now write settled fine m = elim (Bool-cases (e.mission_id == c.mission_id)) [
    | inr stranger ↦ rw (stranger, collect_event) m
    | inl home ↦ elim (Option-cases (get e.event_id c.books.by_event_id)) [
      | inr (existing, known) ↦ elim (Bool-cases (existing == canonical e)) [
        | inl same ↦ rw (home, known, collect_event) (rw same m)
        | inr differ ↦ rw (home, known, collect_event) (rw differ m)
      ]
      | inl new ↦ elim (Bool-cases (leb e.source_seq (get_or e.source 0 c.books.last_source_seq))) [
        | inl old ↦ rw (home, new, collect_event) (rw old m)
        | inr later ↦
            rw (home, new, collect_event)
              (rw later (
                enter-Mirrors c s e now write settled ((eq_iff e.mission_id c.mission_id).0 home)
                  later (fine new) m))
      ]
    ]
  ]
