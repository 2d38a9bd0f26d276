-- ===== src/Rescue/Movement.antt =====
-- codebase/rescue/movement_security.py: `resolve_authorization` and `reassign_unfinished_cells`, over
-- a contract that `load_movement_contract` admits.
pub mod Laws
pub mod Release
use Prim.Native.String.{compare}
use Prim.Native.Nat.{Ordering}
use veri_swarm_flight.Base.{
  ℕ, zero, suc, ◌+◌, ◌%◌, Bool, true, false, not, ◌&&◌, ◌||◌, Option, none, some, List, [], ◌∷◌,
  ◌++◌, String, string_eq, ◌==◌, ◌!=◌, if◌then◌else◌, Result, ok, raise, value_error, type_error,
  ◌>>=◌, length,
}
use veri_swarm_flight.Base.Int.{ℤ, pos, ltb_ℤ, ◌-ℤ◌}
use veri_swarm_flight.Base.Sets.{member, subset}
use veri_swarm_flight.Base.Dict.{Dict, get}
use veri_swarm_flight.Base.Text.{concat}

pub record Cell : Type 0 where
  pub id : String
  pub owner : String

-- The parts of the contract that these functions read; `freshness_timeout_ms` is
-- `int(float(freshness_timeout_seconds) * 1000)`.
pub record Contract : Type 0 where
  pub roster : List String
  pub cells : List Cell
  pub freshness_timeout_ms : ℤ

-- A value of an authorization: a text, an integer that is no bool, another value that can be hashed,
-- or one that cannot.
pub data Value : Type 0 where
  words : String → Value
  whole : ℤ → Value
  other unhashable : Value

pub record Resolution : Type 0 where
  pub decision : String
  pub reason : String

pub record CellReassignment : Type 0 where
  pub cell_id : String
  pub from_node : String
  pub to_node : String

abbrev pub hold : String → Resolution
hold reason = record { decision = "HOLD"; reason = reason }

-- `authorization.get(key)`.
abbrev pub field_of : Dict String Value → String → Value
field_of m key = elim (get key m) [ none ↦ other | some v ↦ v ]

abbrev pub is_words : Value → String → Bool
is_words (words s) t = s == t
is_words (whole n) t = false
is_words other t = false
is_words unhashable t = false

abbrev pub decisions : List String
decisions = "ALLOW" ∷ "HOLD" ∷ "QUARANTINE" ∷ []

-- The tests after `decision`: the reason and the time of an authorization that is well formed.
unfoldable pub resolve_decision : Contract → String → Value → Value → ℤ → Resolution
resolve_decision c decision (words reason) (whole observed) now =
    if reason == "" || ltb_ℤ observed (pos 0) || ltb_ℤ now observed
    then hold "authorization_malformed"
    else if ltb_ℤ c.freshness_timeout_ms (now -ℤ observed)
    then hold "authorization_stale"
    else record { decision = decision; reason = reason }
resolve_decision c decision reason observed now = hold "authorization_malformed"

-- The tests from `decision` on; one that cannot be hashed raises in the test of membership.
unfoldable pub resolve_value : Contract → Dict String Value → Value → ℤ → Result Resolution
resolve_value c m (words d) now =
    if not (member d decisions)
    then ok (hold "authorization_malformed")
    else ok (resolve_decision c d (field_of m "reason") (field_of m "observed_at_ms") now)
resolve_value c m (whole n) now = ok (hold "authorization_malformed")
resolve_value c m other now = ok (hold "authorization_malformed")
resolve_value c m unhashable now = raise (type_error "unhashable type")

unfoldable pub resolve_mapping : Contract → String → Dict String Value → ℤ → Result Resolution
resolve_mapping c node m now =
    if not (is_words (field_of m "node") node)
    then ok (hold "authorization_malformed")
    else resolve_value c m (field_of m "decision") now

-- `resolve_authorization`, of a mapping or `None`.
unfoldable pub resolve_authorization :
    Contract → String → Option (Dict String Value) → ℤ → Result Resolution
resolve_authorization c node none now =
    if ltb_ℤ now (pos 0)
    then raise (value_error "now_ms_invalid")
    else ok (hold "authorization_missing")
resolve_authorization c node (some m) now =
    if ltb_ℤ now (pos 0) then raise (value_error "now_ms_invalid") else resolve_mapping c node m now

-- `sorted` of texts, by code points.
abbrev pub not_after : String → String → Bool
not_after s t = elim (compare s t) [ Ordering.gt ↦ false | _ ↦ true ]

unfoldable pub insert_text : String → List String → List String
insert_text s [] = s ∷ []
insert_text s (t ∷ ts) = if not_after s t then s ∷ t ∷ ts else t ∷ insert_text s ts

unfoldable pub sort_texts : List String → List String
unfolding insert_text
sort_texts [] = []
sort_texts (s ∷ ss) = insert_text s (sort_texts ss)

abbrev pub cell_ids : List Cell → List String
cell_ids [] = []
cell_ids (c ∷ cs) = c.id ∷ cell_ids cs

-- The cells of a node that are not completed.
unfoldable pub left_by : String → List String → List Cell → List String
left_by node completed [] = []
left_by node completed (c ∷ cs) =
    if c.owner == node && not (member c.id completed)
    then c.id ∷ left_by node completed cs
    else left_by node completed cs

-- `roster[i + 1:] + roster[:i]`, where the node is at `i`: `before` holds what was passed.
unfoldable pub rotate : String → List String → List String → List String
rotate node before [] = before
rotate node before (x ∷ xs) = if x == node then xs ++ before else rotate node (before ++ x ∷ []) xs

unfoldable pub keep_healthy : List String → List String → List String
keep_healthy healthy [] = []
keep_healthy healthy (x ∷ xs) =
    if member x healthy then x ∷ keep_healthy healthy xs else keep_healthy healthy xs

-- `xs[i]`, for an index in range.
unfoldable pub item : String → List String → ℕ → String
item default [] i = default
item default (x ∷ xs) zero = x
item default (x ∷ xs) (suc i) = item default xs i

-- The tuple of `reassign_unfinished_cells`, from an index on.
unfoldable pub assign : String → List String → ℕ → List String → List CellReassignment
unfolding item
assign node eligible i [] = []
assign node eligible i (cell ∷ rest) =
    record { cell_id = cell; from_node = node; to_node = item node eligible (i % length eligible) }
    ∷ assign node eligible (i + 1) rest

-- The unfinished cells, in turn to the eligible vehicles.
unfoldable pub hand_over : String → List String → List String → Result (List CellReassignment)
unfolding assign
hand_over node eligible [] = ok []
hand_over node [] (cell ∷ cells) = raise (value_error "no_healthy_vehicle_for_reassignment")
hand_over node (x ∷ xs) (cell ∷ cells) = ok (assign node (x ∷ xs) 0 (cell ∷ cells))

unfoldable pub reassign_unfinished_cells :
    Contract → String → List String → List String → Result (List CellReassignment)
reassign_unfinished_cells c node completed healthy =
    if not (member node c.roster)
    then raise (value_error (concat "unknown_vehicle:" node))
    else if member node healthy || not (subset healthy c.roster)
    then raise (value_error "healthy_roster_invalid")
    else if not (subset completed (cell_ids c.cells))
    then raise (value_error "completed_cells_unknown")
    else hand_over node (keep_healthy healthy (rotate node [] c.roster))
        (sort_texts (left_by node completed c.cells))
