-- ===== src/Rescue/Movement/Laws.antt =====
-- codebase/rescue/movement_security.py: who takes over the cells of a lost vehicle.
use native.Mathlib.Omega.{mod_fact}
use veri_swarm_flight.Base.{
  ℕ, zero, suc, ◌+◌, ◌%◌, ◌<◌, ◌≡◌, refl, subst, ap, ◌∙◌, inl, inr, not, Bool-cases, if◌then◌else◌,
  Bool, true, false, ◌&&◌, List, [], ◌∷◌, String, string_eq, ◌==◌, arith, eq_iff, ok, length, all,
}
use veri_swarm_flight.Base.Sets.{member}
use veri_swarm_flight.Rescue.Movement.{
  Contract, Cell, CellReassignment, insert_text, sort_texts, left_by, rotate, keep_healthy, item,
  assign, hand_over, reassign_unfinished_cells,
}

-- The cells that are reassigned.
abbrev pub reassigned : List CellReassignment → List String
reassigned [] = []
reassigned (r ∷ rs) = r.cell_id ∷ reassigned rs

-- From the lost vehicle to a healthy one.
abbrev pub is_handover : String → List String → CellReassignment → Bool
is_handover node healthy r = r.from_node == node && member r.to_node healthy

-- How many elements pass a test.
unfoldable pub count_if {ℓ} : {A : Type ℓ} → (A → Bool) → List A → ℕ
count_if test [] = 0
count_if test (x ∷ xs) = let rest = count_if test xs in if test x then suc rest else rest

-- The cell has this identity, belongs to the lost vehicle, and is not completed.
abbrev pub is_owed : String → List String → String → Cell → Bool
is_owed node completed id c = c.id == id && c.owner == node && not (member id completed)

abbrev names : String → String → Bool
names id s = s == id

count-insert_text :
    (id s : String) (ts : List String)
    → count_if (names id) (insert_text s ts) ≡ count_if (names id) (s ∷ ts)
unfolding insert_text count_if
count-insert_text id s [] = refl
count-insert_text id s (t ∷ ts) = ground (arith, count-insert_text id s ts)

count-sort_texts :
    (id : String) (ss : List String) → count_if (names id) (sort_texts ss) ≡ count_if (names id) ss
unfolding sort_texts count_if
count-sort_texts id [] = refl
count-sort_texts id (s ∷ ss) =
    count-insert_text id s (sort_texts ss)
    ∙ unfold count_if in ground (arith, count-sort_texts id ss)

count-left_by :
    (node id : String) (completed : List String) (cells : List Cell)
    → count_if (names id) (left_by node completed cells)
      ≡ count_if (is_owed node completed id) cells
unfolding left_by count_if
count-left_by node id completed [] = refl
count-left_by node id completed (c ∷ cells) = elim (Bool-cases (c.id == id)) [
  | inl here ↦
      let same : c.id ≡ id = (eq_iff c.id id).0 here in
      let agree : member c.id completed ≡ member id completed = ap (λ x. member x completed) same in
      ground (arith, count-left_by node id completed cells)
  | inr other ↦ ground (arith, count-left_by node id completed cells)
]

count-reassigned :
    (id : String) (rs : List CellReassignment)
    → count_if (λ r. r.cell_id == id) rs ≡ count_if (names id) (reassigned rs)
unfolding count_if
count-reassigned id [] = refl
count-reassigned id (r ∷ rs) = ground (arith, count-reassigned id rs)

member-keep_healthy :
    (a : String) (healthy xs : List String)
    → member a (keep_healthy healthy xs) ≡ true
    → member a healthy ≡ true
unfolding keep_healthy member
member-keep_healthy a healthy [] h = cc
member-keep_healthy a healthy (x ∷ xs) h =
    ground (arith, member-keep_healthy a healthy xs, eq_iff a x)

member-item :
    (d : String) (xs : List String) (i : ℕ) → i < length xs → member (item d xs i) xs ≡ true
unfolding item member
member-item d [] i h = absurd (omega arith)
member-item d (x ∷ xs) zero h = ground (arith, eq_iff x x)
member-item d (x ∷ xs) (suc i) h = ground (arith, member-item d xs i)

remainder-lt : (i n : ℕ) → i % suc n < suc n
remainder-lt i n = mod_fact i n

reassigned-assign :
    (node : String) (eligible : List String) (i : ℕ) (cells : List String)
    → reassigned (assign node eligible i cells) ≡ cells
unfolding assign
reassigned-assign node eligible i [] = refl
reassigned-assign node eligible i (c ∷ cells) =
    ap (λ l. c ∷ l) (reassigned-assign node eligible (i + 1) cells)

all-assign :
    (node x : String) (xs healthy : List String) (i : ℕ) (cells : List String)
    → ((a : String) → member a (x ∷ xs) ≡ true → member a healthy ≡ true)
    → all (is_handover node healthy) (assign node (x ∷ xs) i cells) ≡ true
unfolding assign
all-assign node x xs healthy i [] sub = refl
all-assign node x xs healthy i (c ∷ cells) sub = ground (
  arith,
  eq_iff node node,
  sub (item node (x ∷ xs) (i % length (x ∷ xs)))
      (member-item node (x ∷ xs) (i % length (x ∷ xs)) (remainder-lt i (length xs))),
  all-assign node x xs healthy (i + 1) cells sub,
)

hand_over-ok :
    (node : String) (healthy eligible cells : List String) (rs : List CellReassignment)
    → ((a : String) → member a eligible ≡ true → member a healthy ≡ true)
    → hand_over node eligible cells ≡ ok rs
    → (reassigned rs ≡ cells) × (all (is_handover node healthy) rs ≡ true)
unfolding hand_over
hand_over-ok node healthy eligible [] rs sub h =
    let e : [] ≡ rs = ground arith in
    subst (λ l. (reassigned l ≡ []) × (all (is_handover node healthy) l ≡ true)) e (refl, refl)
hand_over-ok node healthy [] (c ∷ cells) rs sub h = cc
hand_over-ok node healthy (x ∷ xs) (c ∷ cells) rs sub h =
    let e : assign node (x ∷ xs) 0 (c ∷ cells) ≡ rs = ground arith in
    subst (λ l. (reassigned l ≡ c ∷ cells) × (all (is_handover node healthy) l ≡ true)) e
      (
        reassigned-assign node (x ∷ xs) 0 (c ∷ cells),
        all-assign node x xs healthy 0 (c ∷ cells) sub,
      )

reassign-checked :
    (c : Contract) (node : String) (completed healthy : List String) (rs : List CellReassignment)
    → reassign_unfinished_cells c node completed healthy ≡ ok rs
    → (member node healthy ≡ false)
      × (hand_over node
            (keep_healthy healthy (rotate node [] c.roster))
            (sort_texts (left_by node completed c.cells))
          ≡ ok rs)
unfolding reassign_unfinished_cells
reassign-checked c node completed healthy rs h = (ground arith, ground arith)

-- When a vehicle is lost and the reassignment succeeds, a cell is handed over as often as the
-- contract lists it as owned by that vehicle and it was not completed, so no other cell changes
-- hands; and every one of them goes from the lost vehicle to a healthy one, which is another.
pub reassign-left_by :
    (c : Contract) (node : String) (completed healthy : List String) (rs : List CellReassignment)
    → reassign_unfinished_cells c node completed healthy ≡ ok rs
    → ((id : String)
        → count_if (λ r. r.cell_id == id) rs ≡ count_if (is_owed node completed id) c.cells)
      × (all (is_handover node healthy) rs ≡ true)
      × (member node healthy ≡ false)
reassign-left_by c node completed healthy rs h =
    let (lost, handed) = reassign-checked c node completed healthy rs h in
    let (cells, fine) =
      hand_over-ok node healthy (keep_healthy healthy (rotate node [] c.roster))
        (sort_texts (left_by node completed c.cells)) rs
        (λ a. member-keep_healthy a healthy (rotate node [] c.roster)) handed in
    (
      λ id.
          count-reassigned id rs
          ∙ ap (count_if (names id)) cells
          ∙ count-sort_texts id (left_by node completed c.cells)
          ∙ count-left_by node id completed c.cells,
      fine,
      lost,
    )
