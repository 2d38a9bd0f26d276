-- ===== src/Node/Events.antt =====
-- codebase/node/events.py: `EventLog` and `verify_event_chain`. The file is the list of its lines as
-- `json.loads` reads them, without blank ones, and whether the last of them has its newline. A write
-- may be done, refused, or cut off. The numbers in it are finite. `P` is the type of what a record
-- holds besides the fields that are named here.
pub mod Chain
pub mod Writers
pub mod Tamper
use veri_swarm_flight.Base.{
  ℕ, suc, Bool, true, false, Option, none, some, List, [], ◌∷◌, ◌++◌, String, string_eq, ◌==◌,
  if◌then◌else◌, Result, ok, raise, type_error, value_error, attribute_error,
}
use veri_swarm_flight.Base.Int.{ℤ, pos, ◌+ℤ◌, max_ℤ, int_beq}
use veri_swarm_flight.Base.Text.{concat, decimal, decimal_ℤ}

-- `event.get(key)` of a text: no value, a text, or another value with its `str`.
pub data Field : Type 0 where
  absent : Field
  words other : String → Field

-- `event.get("seq")`: no value, an integer, or a value that equals none, which `int` takes for an
-- integer or refuses, with its `str`.
pub data Seq : Type 0 where
  missing : Seq
  number : ℤ → Seq
  castable : ℤ → String → Seq
  strange : String → Seq

-- A record without its `event_hash`.
pub record Payload (P : Type 0) : Type 0 where
  pub seq : Seq
  pub t : Option ℤ
  pub kind : Option String
  pub prev_hash : Field
  pub rest : P

pub record Event (P : Type 0) : Type 0 where
  pub payload : Payload P
  pub event_hash : Field

-- A line that is no JSON, one that is no object, and one that is.
pub data Line (P : Type 0) : Type 0 where
  malformed bare : Line P
  entry : Event P → Line P

-- The file; `ended` if it is empty or ends in a newline.
pub record File (P : Type 0) : Type 0 where
  pub lines : List (Line P)
  pub ended : Bool

-- What becomes of `fh.write(line + "\n")`, with `flush` and `fsync`: it is done; it raises when the
-- line was written (`unsynced`), or all of it but the newline (`unended`), or only a part of it that is
-- no JSON (`cut`), or nothing (`refused`).
pub data Write : Type 0 where
  done unsynced unended cut refused : Write

-- What the log takes from elsewhere: `json.dumps` of a payload (`none` where it raises), SHA-256, and
-- the other fields of the record that reports a failure.
pub record Codec (P B : Type 0) : Type 0 where
  pub dumps : Payload P → Option B
  pub sha256_hex : B → String
  pub failure : P

abbrev pub rescue_kind : String
rescue_kind = "rescue_event"

abbrev pub log_kind : String
log_kind = "log"

module _ {P : Type 0} where
  -- `_last_complete_event`: the newest line that is JSON, if it is an object.
  unfoldable pub last_complete_from : Option (Event P) → List (Line P) → Option (Event P)
  last_complete_from acc [] = acc
  last_complete_from acc (malformed ∷ lines) = last_complete_from acc lines
  last_complete_from acc (bare ∷ lines) = last_complete_from none lines
  last_complete_from acc (entry e ∷ lines) = last_complete_from (some e) lines

  abbrev pub last_complete : List (Line P) → Option (Event P)
  last_complete lines = last_complete_from none lines

  -- `int(last.get("seq", 0)) if last else 0`.
  unfoldable pub seq_of : Option (Event P) → Result ℤ
  seq_of none = ok (pos 0)
  seq_of (some e) = elim e.payload.seq [
    | missing ↦ ok (pos 0)
    | number n ↦ ok n
    | castable n s ↦ ok n
    | strange s ↦ raise (type_error s)
  ]

  -- `str(last.get("event_hash", "")) if last else ""`.
  unfoldable pub hash_of : Option (Event P) → String
  hash_of none = ""
  hash_of (some e) = elim e.event_hash [ absent ↦ "" | words s ↦ s | other s ↦ s ]

  abbrev pub empty_file : File P
  empty_file = record { lines = []; ended = true }

  -- `EventLog.__init__`: the file, and the next number of the writer.
  unfoldable pub open_log : File P → Bool → Result (File P × ℤ)
  open_log given truncate =
      let file : File P = if truncate then empty_file else given in
      elim (seq_of (last_complete file.lines)) [ raise e ↦ raise e | ok n ↦ ok (file, n +ℤ pos 1) ]

  -- A text that is appended to a line without its newline is one line with it, and no JSON.
  unfoldable pub glued : List (Line P) → List (Line P)
  glued [] = malformed ∷ []
  glued (x ∷ []) = malformed ∷ []
  glued (x ∷ y ∷ lines) = x ∷ glued (y ∷ lines)

  -- The file with a text at its end: `x` is what that text reads as on a line of its own.
  unfoldable pub append_text : File P → Line P → Bool → File P
  unfolding glued
  append_text file x ended = record {
    lines = if file.ended then file.lines ++ x ∷ [] else glued file.lines;
    ended = ended;
  }

  -- The file after a write.
  unfoldable pub write_line : Write → File P → Event P → File P
  unfolding append_text
  write_line done file e = append_text file (entry e) true
  write_line unsynced file e = append_text file (entry e) true
  write_line unended file e = append_text file (entry e) false
  write_line cut file e = append_text file malformed false
  write_line refused file e = file

-- One call of `emit`: the type, the other fields, the clock, and what becomes of the write.
pub record Emission (P : Type 0) : Type 0 where
  pub kind : String
  pub rest : P
  pub now : ℤ
  pub write : Write

-- `event.get("seq") != expected`, and `event.get("prev_hash", "") != previous`.
abbrev pub is_number : Seq → ℕ → Bool
is_number missing expected = false
is_number (number n) expected = int_beq n (pos expected)
is_number (castable n s) expected = false
is_number (strange s) expected = false

abbrev pub is_text : Field → String → Bool
is_text absent previous = "" == previous
is_text (words s) previous = s == previous
is_text (other s) previous = false

abbrev pub show_seq : Seq → String
show_seq missing = "None"
show_seq (number n) = decimal_ℤ n
show_seq (castable n s) = s
show_seq (strange s) = s

abbrev pub at_seq : String → ℕ → String
at_seq message n = concat message (concat ":seq=" (decimal n))

module _ {P : Type 0} where
  -- The payload that `emit` builds after the last record, which has number `n`.
  abbrev pub payload_after : Option (Event P) → ℤ → ℤ → Emission P → Payload P
  payload_after last n next c = record {
    seq = number (max_ℤ next (n +ℤ pos 1));
    t = some c.now;
    kind = some c.kind;
    prev_hash = words (hash_of last);
    rest = c.rest;
  }

module _ {P B : Type 0} (codec : Codec P B) where
  -- The diagnostic that is returned when the event could not be persisted.
  abbrev pub diagnostic : ℤ → Emission P → Event P
  diagnostic next c = record {
    payload = record {
      seq = number next;
      t = some c.now;
      kind = some log_kind;
      prev_hash = absent;
      rest = codec.failure;
    };
    event_hash = absent;
  }

  -- `EventLog.emit`: the writer's next number, the file, and the event.
  unfoldable pub emit : ℤ → File P → Emission P → ℤ × File P × Event P
  unfolding write_line
  emit next file c = elim (seq_of (last_complete file.lines)) [
    | raise e ↦ (next, file, diagnostic next c)
    | ok n ↦
        let payload = payload_after (last_complete file.lines) n next c in
        elim (codec.dumps payload) [
          | none ↦ (next, file, diagnostic next c)
          | some bytes ↦
              let event : Event P = record {
                payload = payload;
                event_hash = words (codec.sha256_hex bytes);
              } in
              let after : File P = write_line c.write file event in
              elim c.write [
                | done ↦ (max_ℤ next (n +ℤ pos 1) +ℤ pos 1, after, event)
                | failing ↦ (next, after, diagnostic next c)
              ]
        ]
  ]

  -- One round of the loop of `verify_event_chain`: the hash that the next record must name, or the
  -- reason to stop.
  unfoldable pub check_event : String → ℕ → Event P → Result (Bool × String)
  check_event previous expected e =
      if if is_number e.payload.seq expected then false else true
      then ok (
        false,
        concat "sequence_gap:expected="
            (concat (decimal expected) (concat ",got=" (show_seq e.payload.seq))),
      )
      else if if is_text e.payload.prev_hash previous then false else true
      then ok (false, at_seq "previous_hash_mismatch" expected)
      else elim e.event_hash [
        | absent ↦ ok (false, at_seq "missing_event_hash" expected)
        | other s ↦ ok (false, at_seq "missing_event_hash" expected)
        | words claimed ↦ elim (codec.dumps e.payload) [
          | none ↦ raise (value_error "not JSON compliant")
          | some bytes ↦
              if codec.sha256_hex bytes == claimed
              then ok (true, claimed)
              else ok (false, at_seq "event_hash_mismatch" expected)
        ]
      ]

  -- The loop; lines that are no JSON were skipped by `read_events`.
  unfoldable pub verify_from : String → ℕ → List (Line P) → Result (Bool × String)
  verify_from previous expected [] = ok (true, "ok")
  verify_from previous expected (malformed ∷ lines) = verify_from previous expected lines
  verify_from previous expected (bare ∷ lines) = raise (attribute_error "get")
  verify_from previous expected (entry e ∷ lines) = elim (check_event previous expected e) [
    | raise err ↦ raise err
    | ok (true, claimed) ↦ verify_from claimed (suc expected) lines
    | ok (false, reason) ↦ ok (false, reason)
  ]

  unfoldable pub verify_event_chain : List (Line P) → Result (Bool × String)
  unfolding verify_from check_event
  verify_event_chain lines = verify_from "" 1 lines
