-- ===== src/Tests/Queue.antt =====
-- A queue of three events, and collectors that answer in turn.
use veri_swarm_flight.Base.{
  ℕ, ◌≡◌, ◌≢◌, refl, true, false, none, some, List, [], ◌∷◌, String, string_eq, eq_iff, Result, ok,
  runtime_error, arith, if◌then◌else◌, eqb, length,
}
use veri_swarm_flight.Base.Int.{ℤ, pos}
use veri_swarm_flight.Base.Text.{concat, prefix, decimal}
use veri_swarm_flight.Rescue.Outbox.{Row, Outbox, find_row, find_dead, reused, enqueue}
use veri_swarm_flight.Rescue.Outbox.Flush.{
  Counts, no_counts, Reply, network_error, uncaught, answered, judge_reply, move_to_dead_letter,
  attempt, settle, flush_row, flush_loop, flush,
}
use veri_swarm_flight.Rescue.Outbox.Conserve.{Conserved, flush-Conserved}
use veri_swarm_flight.Rescue.Outbox.Drain.{AreBounded, Drained, flush-Drained}
use veri_swarm_flight.Rescue.Outbox.Requests.{
  Request, puts, flushes, serve, queue_all, enqueue_again,
}
use veri_swarm_flight.Tests.Data.{whole}

program : Unit {0}
unfolding find_row find_dead enqueue judge_reply move_to_dead_letter attempt settle flush_row
    flush_loop flush serve prefix decimal
program = tt

abbrev digest : String → String
digest s = concat "h:" s

abbrev empty : Outbox
empty = record { rows = []; dead = [] }

abbrev three_puts : List (Request ℤ)
three_puts = puts "e1" "one" ∷ puts "e2" "two" ∷ puts "e3" "three" ∷ puts "e1" "one" ∷ []

abbrev queued : Outbox
queued = serve digest empty three_puts

-- The first event is confirmed at the second attempt, the second one is refused for good, and the
-- collector is gone at the third.
abbrev replies : ℕ → String → Reply
replies n json =
    if eqb n 0
    then answered 503 false false false none
    else if eqb n 1
    then answered 202 true true false none
    else if eqb n 2
    then answered 409 false false false (some "sequence_replayed")
    else network_error "URLError"

abbrev flushed : Result (Outbox × Counts)
flushed = flush digest replies (pos 3) (pos 100) (pos 1) (pos 0) queued

abbrev outcome : Outbox × Counts
outcome = elim flushed [ ok x ↦ x | other ↦ (empty, no_counts) ]

flushes_one : flushed ≡ ok outcome
unfolding program
flushes_one = refl

three_left : (length outcome.0.rows ≡ 1) × (length outcome.0.dead ≡ 1) × (outcome.1.attempts ≡ 5)
unfolding program
three_left = (refl, refl, refl)

flush-Conserved_example : Conserved replies queued no_counts outcome.0 outcome.1
flush-Conserved_example =
    flush-Conserved digest replies (pos 3) (pos 100) (pos 1) (pos 0) queued outcome.0 outcome.1
      flushes_one

abbrev kind_collector : ℕ → String → Reply
kind_collector n json = answered 200 true true true none

bounded : AreBounded (pos 3) (pos 3) (pos 0) (pos 0)
bounded = record {
  timed = refl;
  some_events = omega arith;
  some_retries = (omega arith, omega arith);
  backs_off = (refl, refl);
}

abbrev three : List Row
three =
    record {
      event_id = "e1";
      canonical_json = "one";
      content_sha256 = "h:one";
      attempts = 0;
      last_error = none;
    }
    ∷ record {
      event_id = "e2";
      canonical_json = "two";
      content_sha256 = "h:two";
      attempts = 4;
      last_error = some "http_503";
    }
    ∷ []

flush-Drained_example :
    (x : Outbox × Counts) × (flush digest kind_collector
        (pos 3)
        (pos 3)
        (pos 0)
        (pos 0)
        (record { rows = three; dead = [] })
      ≡ ok x)
    × Drained 2 (record { rows = three; dead = [] }) no_counts x
flush-Drained_example =
    flush-Drained digest kind_collector (pos 3) (pos 3) (pos 0) (pos 0)
      (record { rows = three; dead = [] }) (λ n json. refl) bounded (refl, (refl, tt)) (omega arith)

abbrev stored : Outbox
stored = serve {F = ℤ} digest empty (puts "e1" "one" ∷ [])

first_put :
    enqueue digest empty "e1" "one"
    ≡ ok (stored, record { accepted = true; duplicate = false; event_id = "e1" })
unfolding program
first_put = refl

two_is_not_one : ◌≢◌ {A = String} "two" "one"
two_is_not_one h = cc ((eq_iff "two" "one").1 h)

enqueue_again_example :
    let later = queue_all digest stored (("e2", "two") ∷ ("e1", "other") ∷ []) in
    (enqueue digest later "e1" "one"
      ≡ ok (later, record { accepted = false; duplicate = true; event_id = "e1" }))
    × (enqueue digest later "e1" "two" ≡ reused)
enqueue_again_example =
    enqueue_again digest empty stored "e1" "one" "two" _ (("e2", "two") ∷ ("e1", "other") ∷ [])
      first_put two_is_not_one

abbrev requests : List (Request ℤ)
requests =
    puts "e1" "one"
    ∷ flushes replies (pos 3) (pos 100) (pos 0) (pos 0)
    ∷ puts "e2" "two"
    ∷ flushes replies (pos 3) (pos 100) (pos 2) (pos 0)
    ∷ []

-- The first event is delivered; at the second one the network raises what `flush` does not catch.
abbrev breaking : ℕ → String → Reply
breaking n json =
    if eqb n 0 then answered 202 true true false none else uncaught (runtime_error "IncompleteRead")

abbrev broken : Result (Outbox × Counts)
broken = flush digest breaking (pos 3) (pos 100) (pos 1) (pos 0) queued

abbrev broken_outcome : Outbox × Counts
broken_outcome = elim broken [ ok x ↦ x | other ↦ (empty, no_counts) ]

two_kept :
    (length broken_outcome.0.rows ≡ 2)
    × (broken_outcome.1.failure ≡ some (runtime_error "IncompleteRead"))
unfolding program
two_kept = (refl, refl)
