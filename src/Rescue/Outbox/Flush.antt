-- ===== src/Rescue/Outbox/Flush.antt =====
-- codebase/rescue/outbox.py: `RescueOutbox.flush`. Each reply of the collector is a function of the
-- attempt's number and the text that is posted.
use veri_swarm_flight.Base.{
  ℕ, zero, suc, ◌+◌, Bool, true, false, ◌&&◌, ◌||◌, Option, none, some, List, [], ◌∷◌, ◌++◌, String,
  string_eq, ◌!=◌, if◌then◌else◌, Result, ok, raise, Error, runtime_error, leb, eqb,
}
use veri_swarm_flight.Base.Int.{ℤ, pos, ltb_ℤ, pos_part}
use veri_swarm_flight.Base.Text.{concat, decimal, prefix}
use veri_swarm_flight.Base.Floats.{Floats, float}
use veri_swarm_flight.Rescue.Outbox.{Row, Dead, Outbox, find_dead}

-- How `_post_event` ends: an `OSError` by its class, a `RescueOutboxError` by its message, another
-- exception, which `flush` does not catch, or a status with `ok is True`, `accepted is True`,
-- `duplicate is True` and the `str` of `error`.
pub data Reply : Type 0 where
  network_error protocol_error : String → Reply
  uncaught : Error → Reply
  answered : ℕ → Bool → Bool → Bool → Option String → Reply

-- What comes of one attempt.
pub data Judgement : Type 0 where
  delivered : Bool → Judgement
  rejected : String → Judgement
  transient permanent : String → Judgement
  abandoned : Error → Judgement

abbrev pub error_text : ℕ → Option String → String
error_text status none = concat "http_" (decimal status)
error_text status (some text) = text

abbrev pub is_retryable : ℕ → Bool
is_retryable status = eqb status 408 || eqb status 425 || eqb status 429 || leb 500 status

-- The body of the loop over the retries, after `_post_event`.
unfoldable pub judge_reply : Reply → Judgement
judge_reply (network_error name) = transient (concat "network_error:" name)
judge_reply (protocol_error message) = transient (concat "collector_protocol_error:" message)
judge_reply (uncaught e) = abandoned e
judge_reply (answered status fine accepted duplicate error) =
    if eqb status 200 || eqb status 202
    then (if fine && accepted
        then delivered duplicate
        else transient "collector_protocol_error:acceptance_not_confirmed")
    else if eqb status 409
    then rejected (error_text status error)
    else let reason =
        concat "http_" (concat (decimal status) (concat ":" (error_text status error))) in
      if is_retryable status then transient reason else permanent reason

-- `_record_attempt` and `_record_last_error`.
abbrev pub record_attempt : Row → Row
record_attempt r = record r { attempts = r.attempts + 1; last_error = none }

abbrev pub record_last_error : String → Row → Row
record_last_error reason r = record r { last_error = some (prefix 512 reason) }

-- The row after an attempt.
abbrev pub note_verdict : Judgement → Row → Row
note_verdict (delivered duplicate) r = r
note_verdict (rejected reason) r = record_last_error reason r
note_verdict (transient reason) r = record_last_error reason r
note_verdict (permanent reason) r = record_last_error reason r
note_verdict (abandoned e) r = r

abbrev pub dead_row : Option ℕ → String → Row → Dead
dead_row status reason r = record {
  event_id = r.event_id;
  canonical_json = r.canonical_json;
  content_sha256 = r.content_sha256;
  attempts = r.attempts;
  status_code = status;
  reason = prefix 512 reason;
}

-- `_move_to_dead_letter`: `event_id` is unique in the table.
unfoldable pub move_to_dead_letter : Option ℕ → String → Row → List Dead → Result (List Dead)
unfolding find_dead
move_to_dead_letter status reason r dead = elim (find_dead r.event_id dead) [
  | some other ↦ raise (runtime_error "UNIQUE constraint failed: dead_letter.event_id")
  | none ↦ ok (dead ++ dead_row status reason r ∷ [])
]

-- The counters of a flush, and the exception that left it, if one did: its result is lost then, and
-- what the tables held by that time is kept.
pub record Counts : Type 0 where
  pub delivered : ℕ
  pub duplicates : ℕ
  pub dead_lettered : ℕ
  pub attempts : ℕ
  pub stopped_reason : Option String
  pub failure : Option Error

-- A state of the flush, and whether the loop goes on.
pub record Progress : Type 0 where
  pub outbox : Outbox
  pub totals : Counts
  pub goes_on : Bool

module _ (post : ℕ → String → Reply) where
  -- The loop over the retries, from the attempt with number `n` on. `post n json` is the reply to
  -- that attempt.
  unfoldable pub attempt : ℕ → ℕ → Row → Row × ℕ × Judgement
  unfolding judge_reply
  attempt zero n r =
      let verdict : Judgement = judge_reply (post n r.canonical_json) in
      (note_verdict verdict (record_attempt r), suc n, verdict)
  attempt (suc left) n r =
      let verdict : Judgement = judge_reply (post n r.canonical_json) in
      let noted : Row = note_verdict verdict (record_attempt r) in
      elim verdict [ transient reason ↦ attempt left (suc n) noted | other ↦ (noted, suc n, other) ]

-- The first row was moved to the dead letters, after `n` attempts in all.
abbrev pub buried_row : Counts → ℕ → List Row → List Dead → Progress
buried_row c n rest moved = record {
  outbox = record { rows = rest; dead = moved };
  totals = record c { dead_lettered = c.dead_lettered + 1; attempts = n };
  goes_on = true;
}

-- The exception leaves the flush; the first row is still there.
abbrev pub failed_row : Counts → ℕ → Row → List Row → List Dead → Error → Progress
failed_row c n r rest dead e = record {
  outbox = record { rows = r ∷ rest; dead = dead };
  totals = record c { attempts = n; failure = some e };
  goes_on = false;
}

-- What follows the attempts at the first row; `r` is the row after them.
unfoldable pub settle : Counts → List Row → List Dead → Row × ℕ × Judgement → Progress
unfolding move_to_dead_letter
settle c rest dead (r, n, delivered duplicate) = record {
  outbox = record { rows = rest; dead = dead };
  totals = record c {
    delivered = c.delivered + 1;
    duplicates = c.duplicates + (if duplicate then 1 else 0);
    attempts = n;
  };
  goes_on = true;
}
settle c rest dead (r, n, rejected reason) = elim (move_to_dead_letter (some 409) reason r dead) [
  | raise e ↦ failed_row c n r rest dead e
  | ok moved ↦ buried_row c n rest moved
]
settle c rest dead (r, n, transient reason) = record {
  outbox = record { rows = r ∷ rest; dead = dead };
  totals = record c { attempts = n; stopped_reason = some reason };
  goes_on = false;
}
settle c rest dead (r, n, permanent reason) = record {
  outbox = record { rows = r ∷ rest; dead = dead };
  totals = record c { attempts = n; stopped_reason = some reason };
  goes_on = false;
}
settle c rest dead (r, n, abandoned e) = failed_row c n r rest dead e

module _ (sha256 : String → String) (post : ℕ → String → Reply) where
  -- One round of the loop over the events.
  unfoldable pub flush_row : ℕ → Counts → Row → List Row → List Dead → Progress
  unfolding attempt settle
  flush_row retries c r rest dead =
      if sha256 r.canonical_json != r.content_sha256
      then elim (move_to_dead_letter none "outbox_content_hash_mismatch" r dead) [
        | raise e ↦ failed_row c c.attempts r rest dead e
        | ok moved ↦ buried_row c c.attempts rest moved
      ]
      else settle c rest dead (attempt post retries c.attempts r)

  -- The loop: `delivered + dead_lettered` grows by one in each round that goes on.
  unfoldable pub flush_loop : ℕ → ℕ → Outbox → Counts → Outbox × Counts
  unfolding flush_row
  flush_loop zero retries o c = (o, c)
  flush_loop (suc left) retries o c = elim o.rows [
    | [] ↦ (o, c)
    | r ∷ rest ↦
        let p : Progress = flush_row retries c r rest o.dead in
        elim p.goes_on [
          | true ↦ flush_loop left retries p.outbox p.totals
          | false ↦ (p.outbox, p.totals)
        ]
  ]

abbrev pub no_counts : Counts
no_counts = record {
  delivered = 0;
  duplicates = 0;
  dead_lettered = 0;
  attempts = 0;
  stopped_reason = none;
  failure = none;
}

-- `flush`, after the endpoint was checked: an error of its arguments, or the tables that it leaves;
--  the `pending` of its result is the number of rows.
unfoldable pub flush :
    {F : Type 0} ⦃fl : Floats F⦄
    → (String → String)
    → (ℕ → String → Reply)
    → F
    → ℤ
    → ℤ
    → F
    → Outbox
    → Result (Outbox × Counts)
unfolding flush_loop
flush ⦃fl⦄ sha256 post timeout max_events retries backoff o =
    if fl.le timeout (float 0) || ltb_ℤ max_events (pos 1)
    then raise (runtime_error "timeout and max_events must be positive")
    else if ltb_ℤ retries (pos 0) || ltb_ℤ (pos 10) retries
    then raise (runtime_error "transient_retries must be inside 0..10")
    else if fl.lt backoff (float 0) || fl.lt (float 30) backoff
    then raise (runtime_error "retry_backoff_s must be inside 0..30")
    else ok (flush_loop sha256 post (pos_part max_events) (pos_part retries) o no_counts)
