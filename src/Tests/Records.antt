-- ===== src/Tests/Records.antt =====
-- A collector that takes events, among other writers, and one that is made of its log.
use veri_swarm_flight.Base.{
  ℕ, suc, ◌≡◌, refl, true, false, none, some, List, [], ◌∷◌, String, string_eq, ok, Result, length,
}
use veri_swarm_flight.Base.Int.{pos}
use veri_swarm_flight.Base.Text.{concat}
use veri_swarm_flight.Node.Events.{done, refused, empty_file, Payload, Codec, Emission, show_seq}
use veri_swarm_flight.Node.Events.Writers.{Session}
use veri_swarm_flight.Node.Events.Tamper.{records}
use veri_swarm_flight.Rescue.Collector.{
  Projection, RescueEvent, Content, foreign, Collector, CollectResult, restore_event, restore_lines,
  restore, init_collector, emit_as, enter, collect_event,
}
use veri_swarm_flight.Rescue.Collector.Mirror.{Act, takes, joins, writes, act, act_all}
use veri_swarm_flight.Rescue.Collector.Others.{AllProject}
use veri_swarm_flight.Rescue.Collector.Restore.{restore_after}
use veri_swarm_flight.Rescue.Collector.Replay.{collect_event_replayed}
use veri_swarm_flight.Tests.Log.{program as log}

program : Unit {0}
unfolding log restore_event restore_lines restore init_collector emit_as enter collect_event act
    act_all
program = tt

abbrev codec : Codec (Content ℕ) (Payload (Content ℕ))
codec = record {
  dumps = λ p. some p;
  sha256_hex = λ p. concat "h" (show_seq p.seq);
  failure = foreign none;
}

abbrev text_of : RescueEvent ℕ → String
text_of e = concat e.event_id e.source

-- A projection that counts the events.
abbrev counter : Projection ℕ ℕ
counter = record { start = λ mission. 0; apply = λ e n. (suc n, none) }

abbrev sighting : String → String → ℕ → RescueEvent ℕ
sighting id source n = record {
  mission_id = "m";
  event_id = id;
  source = source;
  source_seq = n;
  rest = 7;
}

abbrev pose : Emission (Content ℕ)
pose = record { kind = "pose"; rest = foreign none; now = pos 5; write = done }

-- Accepted, joined by another writer, accepted with a gap, refused as older, not written.
abbrev acts : List (Act ℕ)
acts =
    takes (sighting "e1" "v1" 1) (pos 1) done
    ∷ joins "console"
    ∷ writes "console" pose
    ∷ takes (sighting "e2" "v1" 4) (pos 2) done
    ∷ takes (sighting "e3" "v1" 3) (pos 3) done
    ∷ takes (sighting "e4" "v2" 1) (pos 4) refused
    ∷ []

abbrev start : Result (Collector ℕ × Session (Content ℕ))
start =
    init_collector codec text_of counter "m" "collector"
      (record { file = empty_file; writers = [] })

abbrev opened : Collector ℕ × Session (Content ℕ)
opened = elim start [
  | ok x ↦ x
  | other ↦ (
    record {
      mission_id = "";
      writer = "";
      books = record { by_event_id = []; last_source_seq = []; projection = 0 };
    },
    record { file = empty_file; writers = [] },
  )
]

starts : start ≡ ok opened
unfolding program
starts = refl

three_records : length (records (act_all codec text_of counter opened acts).1.file.lines) ≡ 3
unfolding program
three_records = refl

two_projected : (act_all codec text_of counter opened acts).0.books.projection ≡ 2
unfolding program
two_projected = refl

projects : AllProject codec text_of counter opened acts
unfolding program
projects = (λ h. refl, (tt, (tt, (λ h. refl, (λ h. refl, (λ h. refl, tt))))))

restore_after_example :
    (s : Session (Content ℕ)) × (init_collector codec text_of counter "m" "again"
        (act_all codec text_of counter opened acts).1
      ≡ ok (
        record {
          mission_id = "m";
          writer = "again";
          books = (act_all codec text_of counter opened acts).0.books;
        },
        s,
      ))
restore_after_example =
    restore_after codec text_of counter "m" "collector" "again" [] opened acts starts refl projects

abbrev first : Collector ℕ × Session (Content ℕ) × Result (CollectResult ℕ)
first = collect_event codec text_of counter opened.0 opened.1 (sighting "e1" "v1" 1) (pos 1) done

abbrev nothing : CollectResult ℕ
nothing = record { accepted = false; duplicate = false; event = none; warning = none }

abbrev answer : CollectResult ℕ
answer = elim first.2 [ ok r ↦ r | other ↦ nothing ]

accepts : first.2 ≡ ok answer
unfolding program
accepts = refl

collect_event_replayed_example :
    let x = act_all codec text_of counter (first.0, first.1) acts in
    collect_event codec text_of counter x.0 x.1 (sighting "e1" "v1" 1) (pos 9) refused
    ≡ (x.0, x.1, ok (record { accepted = true; duplicate = true; event = none; warning = none }))
collect_event_replayed_example =
    collect_event_replayed codec text_of counter opened.0 opened.1 (sighting "e1" "v1" 1) (pos 1)
      (pos 9) done refused answer acts accepts
