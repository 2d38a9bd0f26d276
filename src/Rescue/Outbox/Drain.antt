-- ===== src/Rescue/Outbox/Drain.antt =====
-- codebase/rescue/outbox.py: a flush empties the queue when the collector confirms what is posted.
use veri_swarm_flight.Base.{
  ℕ, zero, suc, ◌+◌, ◌≤◌, ◌≡◌, refl, ap, ◌∙◌, Bool, true, false, List, [], ◌∷◌, String, string_eq,
  ◌==◌, eq_iff, arith, ok, if◌then◌else◌, length,
}
use veri_swarm_flight.Base.Int.{ℤ, pos, pos_part, ◌≤ℤ◌}
use veri_swarm_flight.Base.Floats.{Floats, float}
use veri_swarm_flight.Rescue.Outbox.{Row, Dead, Outbox}
use veri_swarm_flight.Rescue.Outbox.Flush.{
  Reply, Judgement, delivered, rejected, transient, permanent, abandoned, judge_reply,
  record_attempt, Counts, Progress, no_counts, attempt, settle, flush_row, flush_loop, flush,
}
use veri_swarm_flight.Rescue.Outbox.Delivery.{is_confirmed, is_delivered, judge_reply-delivered}

-- Every text has the digest that was stored with it.
abbrev pub AllIntact : (String → String) → List Row → Type 0
AllIntact sha256 [] = Unit {0}
AllIntact sha256 (r ∷ rows) = (sha256 r.canonical_json ≡ r.content_sha256) × AllIntact sha256 rows

-- The queue is empty, and so many rows were delivered, each in one attempt.
pub record Drained (n : ℕ) (o : Outbox) (c : Counts) (x : Outbox × Counts) : Type 0 where
  pub empty : x.0.rows ≡ []
  pub same_dead : x.0.dead ≡ o.dead
  pub counted : x.1.delivered ≡ c.delivered + n
  pub dead_counted : x.1.dead_lettered ≡ c.dead_lettered
  pub tries : x.1.attempts ≡ c.attempts + n
  pub unstopped : x.1.stopped_reason ≡ c.stopped_reason
  pub unfailed : x.1.failure ≡ c.failure

delivered_verdict : (v : Judgement) → is_delivered v ≡ true → (d : Bool) × (v ≡ delivered d)
delivered_verdict (delivered d) h = (d, refl)
delivered_verdict (rejected reason) h = cc
delivered_verdict (transient reason) h = cc
delivered_verdict (permanent reason) h = cc
delivered_verdict (abandoned e) h = cc

module _ (sha256 : String → String) (post : ℕ → String → Reply) where
  first_attempt :
      (left n : ℕ) (r : Row) (d : Bool)
      → judge_reply (post n r.canonical_json) ≡ delivered d
      → attempt post left n r ≡ (record_attempt r, suc n, delivered d)
  unfolding attempt
  first_attempt zero n r d e = rw (e, attempt) refl
  first_attempt (suc left) n r d e = rw (e, attempt) (rw e refl)

  drained :
      (dead : List Dead) (c : Counts)
      → Drained 0 (record { rows = []; dead = dead }) c (record { rows = []; dead = dead }, c)
  drained dead c = record {
    empty = refl;
    same_dead = refl;
    counted = omega arith;
    dead_counted = refl;
    tries = omega arith;
    unstopped = refl;
    unfailed = refl;
  }

  -- A row that is delivered.
  abbrev after : Bool → Counts → List Row → List Dead → Progress
  after d c rest dead = record {
    outbox = record { rows = rest; dead = dead };
    totals = record c {
      delivered = c.delivered + 1;
      duplicates = c.duplicates + (if d then 1 else 0);
      attempts = suc c.attempts;
    };
    goes_on = true;
  }

  flush_row-after :
      (retries : ℕ) (c : Counts) (r : Row) (rest : List Row) (dead : List Dead)
      → ((n : ℕ) (json : String) → is_confirmed (post n json) ≡ true)
      → sha256 r.canonical_json ≡ r.content_sha256
      → (d : Bool) × (flush_row sha256 post retries c r rest dead ≡ after d c rest dead)
  unfolding flush_row settle
  flush_row-after retries c r rest dead good intact =
      let reply = post c.attempts r.canonical_json in
      let (d, e) =
        delivered_verdict (judge_reply reply)
          (judge_reply-delivered reply ∙ good c.attempts r.canonical_json) in
      let whole : (sha256 r.canonical_json == r.content_sha256) ≡ true =
        (eq_iff (sha256 r.canonical_json) r.content_sha256).1 intact in
      (d, rw (first_attempt retries c.attempts r d e, whole) refl)

  flush_loop-Drained :
      (rows : List Row) (left retries : ℕ) (dead : List Dead) (c : Counts)
      → ((n : ℕ) (json : String) → is_confirmed (post n json) ≡ true)
      → AllIntact sha256 rows
      → length rows ≤ left
      → (x : Outbox × Counts) × (flush_loop sha256 post left retries
            (record { rows = rows; dead = dead })
            c
          ≡ x)
        × Drained (length rows) (record { rows = rows; dead = dead }) c x
  unfolding flush_loop
  flush_loop-Drained [] zero retries dead c good intact room =
      ((record { rows = []; dead = dead }, c), refl, drained dead c)
  flush_loop-Drained [] (suc left) retries dead c good intact room =
      ((record { rows = []; dead = dead }, c), refl, drained dead c)
  flush_loop-Drained (r ∷ rows) zero retries dead c good intact room = absurd (omega (arith, room))
  flush_loop-Drained (r ∷ rows) (suc left) retries dead c good (whole, intact) room =
      let (d, e) = flush_row-after retries c r rows dead good whole in
      let next = (after d c rows dead).totals in
      let (x, more, done) =
        flush_loop-Drained rows left retries dead next good intact (omega (arith, room)) in
      (
        x,
        ap
              (λ p. elim p.goes_on [
                | true ↦ flush_loop sha256 post left retries p.outbox p.totals
                | false ↦ (p.outbox, p.totals)
              ])
              e
            ∙ more,
        record {
          empty = done.empty;
          same_dead = done.same_dead;
          counted = omega (arith, done.counted);
          dead_counted = done.dead_counted;
          tries = omega (arith, done.tries);
          unstopped = done.unstopped;
          unfailed = done.unfailed;
        },
      )

-- The arguments of `flush` pass its checks.
pub record AreBounded {F : Type 0} ⦃fl : Floats F⦄ (timeout : F) (max_events retries : ℤ)
    (backoff : F) : Type 0 where
  pub timed : fl.le timeout (float 0) ≡ false
  pub some_events : pos 1 ≤ℤ max_events
  pub some_retries : (pos 0 ≤ℤ retries) × (retries ≤ℤ pos 10)
  pub backs_off : (fl.lt backoff (float 0) ≡ false) × (fl.lt (float 30) backoff ≡ false)

pub flush_bounded :
    {F : Type 0} ⦃fl : Floats F⦄ (sha256 : String → String) (post : ℕ → String → Reply)
    (timeout : F) (max_events retries : ℤ) (backoff : F) (o : Outbox)
    → AreBounded timeout max_events retries backoff
    → flush sha256 post timeout max_events retries backoff o
      ≡ ok (flush_loop sha256 post (pos_part max_events) (pos_part retries) o no_counts)
unfolding flush
flush_bounded sha256 post timeout max_events retries backoff o bounded =
    let t = bounded.timed in
    let m = bounded.some_events in
    let (r0, r1) = bounded.some_retries in let (b0, b1) = bounded.backs_off in ground arith

-- If the collector confirms whatever is posted, the arguments of the flush are within their bounds,
-- and no stored text was damaged, then a flush that may deliver as many events as are queued
-- returns with an empty queue: it delivered every event in one attempt, moved none to the dead
-- letters, and names no reason to have stopped and no exception.
pub flush-Drained :
    {F : Type 0} ⦃fl : Floats F⦄ (sha256 : String → String) (post : ℕ → String → Reply)
    (timeout : F) (max_events retries : ℤ) (backoff : F) (o : Outbox)
    → ((n : ℕ) (json : String) → is_confirmed (post n json) ≡ true)
    → AreBounded timeout max_events retries backoff
    → AllIntact sha256 o.rows
    → pos (length o.rows) ≤ℤ max_events
    → (x : Outbox × Counts) × (flush sha256 post timeout max_events retries backoff o ≡ ok x)
      × Drained (length o.rows) o no_counts x
flush-Drained sha256 post timeout max_events retries backoff o good bounded intact room =
    let (x, e, done) =
      flush_loop-Drained sha256 post o.rows (pos_part max_events) (pos_part retries) o.dead
        no_counts good intact (omega (arith, room)) in
    (x, flush_bounded sha256 post timeout max_events retries backoff o bounded ∙ ap ok e, done)
