-- ===== src/Rescue/Collector.antt =====
-- codebase/rescue/collector.py: `RescueCollector` on the event log. A candidate is an event that
-- `validate_rescue_event` returned, and so is the content of a record if that function returns it;
-- the projection, which is told of each event that is entered, is an interface.
pub mod Persist
pub mod Mirror
pub mod Others
pub mod Restore
pub mod Replay
use veri_swarm_flight.Base.{
  ℕ, suc, ◌+◌, Bool, true, false, ◌&&◌, not, Option, none, some, List, [], ◌∷◌, ◌++◌, String,
  string_eq, ◌==◌, ◌!=◌, if◌then◌else◌, Result, ok, raise, Error, value_error, runtime_error,
  attribute_error, leb, ltb, eqb, ◌>>=◌,
}
use veri_swarm_flight.Base.Int.{ℤ, pos}
use veri_swarm_flight.Base.Dict.{Dict, get, get_or, set_item}
use veri_swarm_flight.Base.Text.{concat, decimal}
use veri_swarm_flight.Node.Events.{
  Event, Line, malformed, bare, entry, Write, Codec, Emission, emit, open_log, rescue_kind,
  verify_event_chain,
}
use veri_swarm_flight.Node.Events.Writers.{Session}

-- What the collector reads of an event; `rest` is all else.
pub record RescueEvent (X : Type 0) : Type 0 where
  pub mission_id : String
  pub event_id : String
  pub source : String
  pub source_seq : ℕ
  pub rest : X

-- The fields of a record: a rescue event, or others with their `mission_id`.
pub data Content (X : Type 0) : Type 0 where
  rescue : RescueEvent X → Content X
  foreign : Option String → Content X

-- The projection as the collector uses it: `MissionProjection(mission_id)`, and `apply`, with the state
-- that it leaves and the exception that it raises, if it raises one.
pub record Projection (X S : Type 0) : Type 0 where
  pub start : String → S
  pub apply : Event (Content X) → S → S × Option Error

-- `_by_event_id`, `_last_source_seq` and `projection`.
pub record Books (S : Type 0) : Type 0 where
  pub by_event_id : Dict String String
  pub last_source_seq : Dict String ℕ
  pub projection : S

-- `writer` is the name of its `EventLog` among the writers of the file.
pub record Collector (S : Type 0) : Type 0 where
  pub mission_id : String
  pub writer : String
  pub books : Books S

pub record CollectResult (X : Type 0) : Type 0 where
  pub accepted : Bool
  pub duplicate : Bool
  pub event : Option (Event (Content X))
  pub warning : Option String

abbrev pub is_kind : Option String → String → Bool
is_kind none kind = false
is_kind (some s) kind = s == kind

-- `max(a, b)`.
abbrev pub later_of : ℕ → ℕ → ℕ
later_of a b = if ltb a b then b else a

-- The message of a sequence number that is not above the last one, and the warning of a gap.
abbrev pub not_monotonic : ℕ → ℕ → String
not_monotonic last got =
    concat "source_sequence_not_monotonic:last="
      (concat (decimal last) (concat ",got=" (decimal got)))

abbrev pub gap_warning : ℕ → ℕ → Option String
gap_warning last got =
    if not (eqb last 0) && ltb (last + 1) got
    then some (
        concat "source_sequence_gap:expected="
          (concat (decimal (last + 1)) (concat ",got=" (decimal got))))
    else none

abbrev pub no_books : {X S : Type 0} → Projection X S → String → Books S
no_books proj mission = record {
  by_event_id = [];
  last_source_seq = [];
  projection = proj.start mission;
}

module _ {X S : Type 0} (canonical : RescueEvent X → String) (proj : Projection X S) where
  -- One round of the loop of `_restore`.
  unfoldable pub restore_event : String → Books S → Event (Content X) → Result (Books S)
  restore_event mission books e =
      if not (is_kind e.payload.kind rescue_kind) then ok books else elim e.payload.rest [
        | foreign other ↦
            if is_kind other mission
            then raise (runtime_error "persisted_rescue_event_invalid")
            else ok books
        | rescue r ↦
            if r.mission_id != mission
            then ok books
            else let (view, failed) = proj.apply e books.projection in
              elim failed [
                | some error ↦ raise error
                | none ↦ ok (record {
                  by_event_id = set_item r.event_id (canonical r) books.by_event_id;
                  last_source_seq =
                      set_item r.source
                        (later_of r.source_seq (get_or r.source 0 books.last_source_seq))
                        books.last_source_seq;
                  projection = view;
                })
              ]
      ]

  unfoldable pub restore_lines : String → Books S → List (Line (Content X)) → Result (Books S)
  restore_lines mission books [] = ok books
  restore_lines mission books (malformed ∷ lines) = restore_lines mission books lines
  restore_lines mission books (bare ∷ lines) = raise (attribute_error "get")
  restore_lines mission books (entry e ∷ lines) =
      restore_event mission books e >>= λ next. restore_lines mission next lines

  -- The end of `collect`, with what `emit` returned.
  unfoldable pub enter :
      Collector S
      → RescueEvent X
      → Session (Content X) × Event (Content X)
      → Collector S × Session (Content X) × Result (CollectResult X)
  enter c e (s, persisted) =
      if not (is_kind persisted.payload.kind rescue_kind)
      then (c, s, raise (runtime_error "event_persistence_failed"))
      else let (view, failed) = proj.apply persisted c.books.projection in
        (
          record c {
            books = record {
              by_event_id = set_item e.event_id (canonical e) c.books.by_event_id;
              last_source_seq = set_item e.source e.source_seq c.books.last_source_seq;
              projection = view;
            };
          },
          s,
          elim failed [
            | some error ↦ raise error
            | none ↦ ok (record {
              accepted = true;
              duplicate = false;
              event = some persisted;
              warning = gap_warning (get_or e.source 0 c.books.last_source_seq) e.source_seq;
            })
          ],
        )

module _ {X B : Type 0} (codec : Codec (Content X) B) where
  -- `self.log.emit`.
  unfoldable pub emit_as :
      String → Session (Content X) → Emission (Content X) → Session (Content X) × Event (Content X)
  emit_as writer s c =
      let (next, file, event) = emit codec (get_or writer (pos 1) s.writers) s.file c in
      (record { file = file; writers = set_item writer next s.writers }, event)

module _ {X B S : Type 0} (codec : Codec (Content X) B) (canonical : RescueEvent X → String)
    (proj : Projection X S) where
  -- `_restore`.
  unfoldable pub restore : String → List (Line (Content X)) → Result (Books S)
  unfolding restore_lines
  restore mission lines = verify_event_chain codec lines >>= λ (fine, reason).
      if fine
      then restore_lines canonical proj mission (no_books proj mission) lines
      else raise (runtime_error (concat "event_log_chain_invalid:" reason))

  -- `RescueCollector.__init__`.
  unfoldable pub init_collector :
      String → String → Session (Content X) → Result (Collector S × Session (Content X))
  unfolding restore
  init_collector mission writer s = open_log s.file false >>= λ (file, next).
      restore mission file.lines >>= λ books. ok (
        record { mission_id = mission; writer = writer; books = books },
        record { file = file; writers = set_item writer next s.writers },
      )

  -- `collect`, of an event, at a time, with what becomes of the write.
  unfoldable pub collect_event :
      Collector S
      → Session (Content X)
      → RescueEvent X
      → ℤ
      → Write
      → Collector S × Session (Content X) × Result (CollectResult X)
  unfolding emit_as enter
  collect_event c s e now write =
      if e.mission_id != c.mission_id
      then (
        c,
        s,
        raise (
            value_error (
              concat "mission_id mismatch: expected "
                (concat c.mission_id (concat ", got " e.mission_id)))),
      )
      else elim (get e.event_id c.books.by_event_id) [
        | some existing ↦
            if existing != canonical e
            then (c, s, raise (runtime_error "event_id_reused_with_different_content"))
            else (
              c,
              s,
              ok (record { accepted = true; duplicate = true; event = none; warning = none }),
            )
        | none ↦
            let last = get_or e.source 0 c.books.last_source_seq in
            if leb e.source_seq last
            then (c, s, raise (runtime_error (not_monotonic last e.source_seq)))
            else enter canonical proj c e (
                emit_as codec c.writer s
                  (record { kind = rescue_kind; rest = rescue e; now = now; write = write }))
      ]
