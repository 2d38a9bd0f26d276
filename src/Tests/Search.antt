-- ===== src/Tests/Search.antt =====
-- The cells of a lost vehicle, and authorizations.
use veri_swarm_flight.Base.{
  ◌≡◌, ◌≢◌, ◌==◌, refl, true, false, some, List, [], ◌∷◌, String, string_eq, eq_iff, ok, raise,
  type_error, all,
}
use veri_swarm_flight.Base.Int.{pos, ◌-ℤ◌}
use veri_swarm_flight.Base.Sets.{member, subset}
use veri_swarm_flight.Base.Dict.{Dict, get}
use veri_swarm_flight.Rescue.Movement.{
  Contract, CellReassignment, Value, words, whole, unhashable, Resolution, resolve_authorization,
  resolve_decision, resolve_value, resolve_mapping, insert_text, sort_texts, left_by, rotate,
  keep_healthy, item, assign, hand_over, reassign_unfinished_cells,
}
use veri_swarm_flight.Rescue.Movement.Release.{IsAuthorized, resolve_authorization-IsAuthorized}
use veri_swarm_flight.Rescue.Movement.Laws.{count_if, is_owed, is_handover, reassign-left_by}

unfoldable pub program : Unit {0}
unfolding member subset get resolve_authorization resolve_decision resolve_value resolve_mapping
    insert_text sort_texts left_by rotate keep_healthy item assign hand_over
    reassign_unfinished_cells ◌-ℤ◌
program = tt

abbrev pub contract : Contract
contract = record {
  roster = "v1" ∷ "v2" ∷ "v3" ∷ [];
  cells =
      record { id = "c3"; owner = "v2" }
      ∷ record { id = "c1"; owner = "v2" }
      ∷ record { id = "c2"; owner = "v2" }
      ∷ record { id = "c4"; owner = "v1" }
      ∷ [];
  freshness_timeout_ms = pos 500;
}

abbrev take_over : String → String → CellReassignment
take_over cell node = record { cell_id = cell; from_node = "v2"; to_node = node }

abbrev handed : List CellReassignment
handed = take_over "c1" "v3" ∷ take_over "c3" "v1" ∷ []

abbrev healthy : List String
healthy = "v1" ∷ "v3" ∷ []

hands_over : reassign_unfinished_cells contract "v2" ("c2" ∷ []) healthy ≡ ok handed
unfolding program
hands_over = refl

reassign-left_by_example :
    ((id : String)
      → count_if (λ r. r.cell_id == id) handed
        ≡ count_if (is_owed "v2" ("c2" ∷ []) id) contract.cells)
    × (all (is_handover "v2" healthy) handed ≡ true)
    × (member "v2" healthy ≡ false)
reassign-left_by_example = reassign-left_by contract "v2" ("c2" ∷ []) healthy handed hands_over

-- A list in place of the decision raises where every other malformed value holds.
abbrev crafted : Dict String Value
crafted = ("node", words "v1") ∷ ("decision", unhashable) ∷ []

crafted_raises :
    resolve_authorization contract "v1" (some crafted) (pos 9)
    ≡ raise (type_error "unhashable type")
unfolding program
crafted_raises = refl

abbrev pub order : Dict String Value
order =
    ("node", words "v1")
    ∷ ("decision", words "ALLOW")
    ∷ ("reason", words "clear")
    ∷ ("observed_at_ms", whole (pos 600))
    ∷ []

abbrev allowed : Resolution
allowed = record { decision = "ALLOW"; reason = "clear" }

allows : resolve_authorization contract "v1" (some order) (pos 1000) ≡ ok allowed
unfolding program
allows = refl

allow_is_no_hold : allowed.decision ≢ "HOLD"
allow_is_no_hold h = cc ((eq_iff "ALLOW" "HOLD").1 h)

resolve_authorization-IsAuthorized_example :
    (m : Dict String Value) × (some order ≡ some m)
    × IsAuthorized contract "v1" m (pos 1000) "ALLOW"
resolve_authorization-IsAuthorized_example =
    resolve_authorization-IsAuthorized contract "v1" (some order) (pos 1000) allowed allows
      allow_is_no_hold
