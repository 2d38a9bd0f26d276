-- ===== src/Rescue/Outbox.antt =====
-- codebase/rescue/outbox.py: `RescueOutbox`. The tables are lists in the order of their primary
-- keys, so the row that a flush has read is the first one; one process holds the database, no
-- statement fails but by a constraint, and the columns of times are left out.
pub mod Flush
pub mod Delivery
pub mod Rounds
pub mod Conserve
pub mod Unique
pub mod Drain
pub mod Requests
use veri_swarm_flight.Base.{
  ℕ, zero, suc, ◌+◌, Bool, true, false, ◌&&◌, ◌||◌, Option, none, some, List, [], ◌∷◌, ◌++◌, String,
  string_eq, ◌==◌, ◌!=◌, if◌then◌else◌, Result, ok, raise, value_error, runtime_error, length,
  check_all, ◌>>◌, ltb, leb, eqb, any,
}
use veri_swarm_flight.Base.Int.{ℤ, pos, ltb_ℤ, pos_part}
use veri_swarm_flight.Base.Sets.{member}
use veri_swarm_flight.Base.Text.{concat, decimal, prefix}
use veri_swarm_flight.Base.Floats.{Floats, float}

-- A row of `outbox`, and one of `dead_letter`.
pub record Row : Type 0 where
  pub event_id : String
  pub canonical_json : String
  pub content_sha256 : String
  pub attempts : ℕ
  pub last_error : Option String

pub record Dead : Type 0 where
  pub event_id : String
  pub canonical_json : String
  pub content_sha256 : String
  pub attempts : ℕ
  pub status_code : Option ℕ
  pub reason : String

pub record Outbox : Type 0 where
  pub rows : List Row
  pub dead : List Dead

pub record EnqueueResult : Type 0 where
  pub accepted : Bool
  pub duplicate : Bool
  pub event_id : String

-- `SELECT canonical_json … WHERE event_id = ?`.
unfoldable pub find_row : String → List Row → Option String
find_row id [] = none
find_row id (r ∷ rows) = if id == r.event_id then some r.canonical_json else find_row id rows

unfoldable pub find_dead : String → List Dead → Option String
find_dead id [] = none
find_dead id (d ∷ dead) = if id == d.event_id then some d.canonical_json else find_dead id dead

abbrev pub reused : Result (Outbox × EnqueueResult)
reused = raise (runtime_error "event_id_reused_with_different_content")

-- `enqueue`, of an event that was validated: its identity and its canonical text.
unfoldable pub enqueue :
    (String → String) → Outbox → String → String → Result (Outbox × EnqueueResult)
unfolding find_row find_dead
enqueue sha256 o id canonical = elim (find_row id o.rows) [
  | some existing ↦
      if existing != canonical
      then reused
      else ok (o, record { accepted = false; duplicate = true; event_id = id })
  | none ↦ elim (find_dead id o.dead) [
    | some dead ↦
        if dead != canonical
        then reused
        else raise (runtime_error "event_id_previously_dead_lettered")
    | none ↦
        let row : Row = record {
          event_id = id;
          canonical_json = canonical;
          content_sha256 = sha256 canonical;
          attempts = 0;
          last_error = none;
        } in
        ok (
          record { rows = o.rows ++ row ∷ []; dead = o.dead },
          record { accepted = true; duplicate = false; event_id = id },
        )
  ]
]
