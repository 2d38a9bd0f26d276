-- ===== src/Rescue/Collector/Replay.antt =====
-- codebase/rescue/collector.py: the delivery of an event that was accepted changes nothing.
use veri_swarm_flight.Base.{
  ◌≡◌, refl, sym, ◌∙◌, ap, inl, inr, true, none, some, List, [], ◌∷◌, String, string_eq, ◌==◌,
  eq_refl, eq_iff, arith, Option-cases, ok,
}
use veri_swarm_flight.Base.Int.{ℤ}
use veri_swarm_flight.Base.Dict.{get, get-set_item}
use veri_swarm_flight.Node.Events.{Write, Codec}
use veri_swarm_flight.Node.Events.Writers.{Session}
use veri_swarm_flight.Rescue.Collector.{
  Projection, RescueEvent, Content, Collector, CollectResult, enter, collect_event,
}
use veri_swarm_flight.Rescue.Collector.Mirror.{Act, takes, joins, writes, act, act_all}
use veri_swarm_flight.Rescue.Collector.Others.{act-names}

module _ {X B S : Type 0} (codec : Codec (Content X) B) (canonical : RescueEvent X → String)
    (proj : Projection X S) where
  -- The event is of the mission, and its text is in the books.
  abbrev Known : Collector S → RescueEvent X → Type 0
  Known c e =
      (e.mission_id ≡ c.mission_id) × (get e.event_id c.books.by_event_id ≡ some (canonical e))

  collect_event-Known :
      (c : Collector S) (s : Session (Content X)) (e : RescueEvent X) (now : ℤ) (write : Write)
      (r : CollectResult X)
      → (collect_event codec canonical proj c s e now write).2 ≡ ok r
      → Known (collect_event codec canonical proj c s e now write).0 e
  unfolding collect_event enter
  collect_event-Known c s e now write r h = (
    ground (arith, eq_iff e.mission_id c.mission_id),
    elim (Option-cases (get e.event_id c.books.by_event_id)) [
      | inr (existing, found) ↦ ground (arith, found, eq_iff existing (canonical e))
      | inl new ↦ ground (
        arith,
        new,
        get-set_item e.event_id e.event_id (canonical e) c.books.by_event_id,
        eq_refl e.event_id,
      )
    ],
  )

  collect_event-keeps :
      (c : Collector S) (s : Session (Content X)) (e : RescueEvent X) (now : ℤ) (write : Write)
      (id text : String)
      → get id c.books.by_event_id ≡ some text
      → get id (collect_event codec canonical proj c s e now write).0.books.by_event_id ≡ some text
  unfolding collect_event enter
  collect_event-keeps c s e now write id text found = ground (
    arith,
    get-set_item e.event_id id (canonical e) c.books.by_event_id,
    eq_iff id e.event_id,
    ap (λ k. get k c.books.by_event_id) {x = id} {y = e.event_id},
  )

  act-keeps :
      (x : Collector S × Session (Content X)) (a : Act X) (id text : String)
      → get id x.0.books.by_event_id ≡ some text
      → get id (act codec canonical proj x a).0.books.by_event_id ≡ some text
  unfolding act
  act-keeps (c, s) (takes e now write) id text found =
      collect_event-keeps c s e now write id text found
  act-keeps (c, s) (joins w) id text found = ground (arith, found)
  act-keeps (c, s) (writes w emission) id text found = ground (arith, found)

  act_all-Known :
      (x : Collector S × Session (Content X)) (acts : List (Act X)) (e : RescueEvent X)
      → Known x.0 e
      → Known (act_all codec canonical proj x acts).0 e
  unfolding act_all
  act_all-Known x [] e k = k
  act_all-Known x (a ∷ acts) e (home, found) =
      let (w, n) = act-names codec canonical proj x a in
      act_all-Known (act codec canonical proj x a) acts e
        (home ∙ sym n, act-keeps x a e.event_id (canonical e) found)

  Known-collect_event :
      (c : Collector S) (s : Session (Content X)) (e : RescueEvent X) (now : ℤ) (write : Write)
      → Known c e
      → collect_event codec canonical proj c s e now write
        ≡ (c, s, ok (record { accepted = true; duplicate = true; event = none; warning = none }))
  unfolding collect_event
  Known-collect_event c s e now write (home, found) =
      let here : (e.mission_id == c.mission_id) ≡ true =
        (eq_iff e.mission_id c.mission_id).1 home in
      rw (here, found, collect_event) (rw (eq_refl (canonical e)) refl)

  -- Replay is idempotent: once an event was accepted, then after any history of candidates and of
  -- other writers, its delivery is answered as a duplicate, at any time and whether or not the file
  -- can be written, and changes neither the collector nor the log.
  pub collect_event_replayed :
      (c : Collector S) (s : Session (Content X)) (e : RescueEvent X) (now later : ℤ)
      (write still : Write) (r : CollectResult X) (acts : List (Act X))
      → (collect_event codec canonical proj c s e now write).2 ≡ ok r
      → let first = collect_event codec canonical proj c s e now write in
        let x = act_all codec canonical proj (first.0, first.1) acts in
        collect_event codec canonical proj x.0 x.1 e later still ≡ (
          x.0,
          x.1,
          ok (record { accepted = true; duplicate = true; event = none; warning = none }),
        )
  collect_event_replayed c s e now later write still r acts h =
      let first = collect_event codec canonical proj c s e now write in
      let x = act_all codec canonical proj (first.0, first.1) acts in
      Known-collect_event x.0 x.1 e later still
        (act_all-Known (first.0, first.1) acts e (collect_event-Known c s e now write r h))
