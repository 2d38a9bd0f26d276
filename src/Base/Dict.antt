-- ===== src/Base/Dict.antt =====
-- Python's dictionaries and `OrderedDict`s, as association lists in insertion order, oldest first.
pub mod Age
pub mod Kept
use Prim.Native.Nat.{ℕ, zero, suc, ◌+◌, ◌≤◌, ◌<◌}
use mathlib.Core.Path.{◌≡◌, refl, ap}
use mathlib.Core.Logic.{◌↔◌, ◌≢◌, inl, inr}
use mathlib.Core.Bool.{Bool, true, false, ◌&&◌, ◌||◌}
use mathlib.Core.Option.{Option, none, some}
use mathlib.Core.List.{List, [], ◌∷◌, ◌++◌}
use native.Mathlib.Omega.{arith}
use veri_swarm_flight.Base.Tests.{Eq, ◌==◌, if◌then◌else◌, Bool-cases, ltb, eq_refl}
use veri_swarm_flight.Base.Lists.{length}
use veri_swarm_flight.Base.Sets.{member, distinct}

abbrev pub Dict {ℓ κ} : Type ℓ → Type κ → Type (ℓ ⊔ κ)
Dict K V = List (K × V)

-- The keys, in order.
abbrev pub keys {ℓ κ} : {K : Type ℓ} {V : Type κ} → Dict K V → List K
keys [] = []
keys ((k, v) ∷ m) = k ∷ keys m

-- `while len(d) > cap: d.popitem(last=False)`.
unfoldable pub trim {ℓ} : {A : Type ℓ} → ℕ → List A → List A
trim cap [] = []
trim cap (x ∷ xs) = if ltb cap (length (x ∷ xs)) then trim cap xs else x ∷ xs

module _ {ℓ κ} {K : Type ℓ} {V : Type κ} ⦃e : Eq K⦄ where
  -- `d.get(k)`.
  unfoldable pub get : K → Dict K V → Option V
  get k [] = none
  get k ((j, v) ∷ m) = if k == j then some v else get k m

  -- `d[k] = v`: in place for a key that is there, else at the end.
  unfoldable pub set_item : K → V → Dict K V → Dict K V
  set_item k v [] = (k, v) ∷ []
  set_item k v ((j, w) ∷ m) = if k == j then (j, v) ∷ m else (j, w) ∷ set_item k v m

  -- `d.pop(k, None)`.
  unfoldable pub delete : K → Dict K V → Dict K V
  delete k [] = []
  delete k ((j, w) ∷ m) = if k == j then m else (j, w) ∷ delete k m

  -- `k in d`.
  unfoldable pub has_key : K → Dict K V → Bool
  has_key k [] = false
  has_key k ((j, v) ∷ m) = k == j || has_key k m

  -- `d.get(k, default)`.
  abbrev pub get_or : K → V → Dict K V → V
  get_or k default m = elim (get k m) [ none ↦ default | some v ↦ v ]

  -- `d.setdefault(k, default)` as a dictionary; the value is `get_or k default d`.
  unfoldable pub set_default : K → V → Dict K V → Dict K V
  set_default k default m = if has_key k m then m else set_item k default m

  -- `d.move_to_end(k)` for a key that is there.
  unfoldable pub move_to_end : K → Dict K V → Dict K V
  move_to_end k m = elim (get k m) [ none ↦ m | some v ↦ delete k m ++ (k, v) ∷ [] ]

  pub has_key-get : (k : K) (m : Dict K V) → has_key k m ≡ false → get k m ≡ none
  unfolding has_key get
  has_key-get k [] h = refl
  has_key-get k ((j, v) ∷ m) h = ground (arith, has_key-get k m)

  pub has_key_of_get : (k : K) (v : V) (m : Dict K V) → get k m ≡ some v → has_key k m ≡ true
  unfolding has_key get
  has_key_of_get k v [] h = cc
  has_key_of_get k v ((j, w) ∷ m) h = ground (arith, has_key_of_get k v m)

  pub get_of_has_key : (k : K) (m : Dict K V) → has_key k m ≡ true → (v : V) × (get k m ≡ some v)
  unfolding has_key get
  get_of_has_key k [] h = cc
  get_of_has_key k ((j, w) ∷ m) h = elim (Bool-cases (k == j)) [
    | inl hit ↦ (w, rw hit)
    | inr miss ↦ let (v, found) = get_of_has_key k m (ground arith) in (v, rw miss found)
  ]

  pub has_key-member : (k : K) (m : Dict K V) → has_key k m ≡ member k (keys m)
  unfolding has_key member
  has_key-member k [] = refl
  has_key-member k ((j, v) ∷ m) = rw (has_key-member k m)

  pub get-set_item :
      (k j : K) (v : V) (m : Dict K V)
      → get j (set_item k v m) ≡ (if j == k then some v else get j m)
  unfolding get set_item
  get-set_item k j v [] = refl
  get-set_item k j v ((i, w) ∷ m) =
      ground
        (arith, e.beq_iff k j, e.beq_iff j k, e.beq_iff k i, e.beq_iff j i, get-set_item k j v m)

  pub has_key-set_item :
      (k j : K) (v : V) (m : Dict K V) → has_key j (set_item k v m) ≡ (j == k || has_key j m)
  unfolding has_key set_item
  has_key-set_item k j v [] = refl
  has_key-set_item k j v ((i, w) ∷ m) =
      ground (
        arith,
        e.beq_iff k j,
        e.beq_iff j k,
        e.beq_iff k i,
        e.beq_iff j i,
        has_key-set_item k j v m,
      )

  pub has_key-set_default :
      (k j : K) (v : V) (m : Dict K V) → has_key j (set_default k v m) ≡ (j == k || has_key j m)
  unfolding set_default
  has_key-set_default k j v m = ground (arith, has_key-set_item k j v m, e.beq_iff j k)

  pub distinct-set_item :
      (k : K) (v : V) (m : Dict K V)
      → distinct (keys m) ≡ true
      → distinct (keys (set_item k v m)) ≡ true
  unfolding set_item distinct
  distinct-set_item k v [] d = unfold member in refl
  distinct-set_item k v ((j, w) ∷ m) d = ground (
    arith,
    distinct-set_item k v m,
    has_key-member j (set_item k v m),
    has_key-member j m,
    has_key-set_item k j v m,
    e.beq_iff k j,
    e.beq_iff j k,
  )

  pub has_key-delete : (k j : K) (m : Dict K V) → j ≢ k → has_key j (delete k m) ≡ has_key j m
  unfolding has_key delete
  has_key-delete k j [] n = refl
  has_key-delete k j ((i, w) ∷ m) n =
      ground (arith, e.beq_iff k i, e.beq_iff j i, has_key-delete k j m n)

  pub get-delete_ne : (k j : K) (m : Dict K V) → j ≢ k → get j (delete k m) ≡ get j m
  unfolding get delete
  get-delete_ne k j [] n = refl
  get-delete_ne k j ((i, w) ∷ m) n =
      ground (arith, e.beq_iff k i, e.beq_iff j i, get-delete_ne k j m n)

  pub get-delete_self :
      (k : K) (m : Dict K V) → distinct (keys m) ≡ true → get k (delete k m) ≡ none
  unfolding get delete distinct
  get-delete_self k [] d = refl
  get-delete_self k ((i, w) ∷ m) d = ground (
    arith,
    e.beq_iff k i,
    get-delete_self k m,
    has_key-member i m,
    has_key-get k m,
    ap (λ c. has_key c m) {x = k} {y = i},
  )

  has_key-delete-le :
      (k j : K) (m : Dict K V) → has_key j m ≡ false → has_key j (delete k m) ≡ false
  unfolding has_key delete
  has_key-delete-le k j [] h = refl
  has_key-delete-le k j ((i, w) ∷ m) h = ground (arith, has_key-delete-le k j m)

  pub distinct-delete :
      (k : K) (m : Dict K V) → distinct (keys m) ≡ true → distinct (keys (delete k m)) ≡ true
  unfolding delete distinct
  distinct-delete k [] d = refl
  distinct-delete k ((i, w) ∷ m) d = ground (
    arith,
    distinct-delete k m,
    has_key-member i m,
    has_key-member i (delete k m),
    has_key-delete-le k i m,
  )

-- The loop leaves at most `cap` entries.
pub length-trim-le {ℓ} : {A : Type ℓ} (cap : ℕ) (m : List A) → length (trim cap m) ≤ cap
unfolding trim
length-trim-le cap [] = omega arith
length-trim-le cap (x ∷ m) = ground (arith, length-trim-le cap m)

pub trim_of_length-le {ℓ} : {A : Type ℓ} (cap : ℕ) (m : List A) → length m ≤ cap → trim cap m ≡ m
unfolding trim
trim_of_length-le cap [] h = refl
trim_of_length-le cap (x ∷ m) h = ground arith

-- What is appended last survives, if the capacity is positive.
pub trim-append {ℓ} :
    {A : Type ℓ} (cap : ℕ) (m : List A) (x : A)
    → 0 < cap
    → (rest : List A) × (trim cap (m ++ x ∷ []) ≡ rest ++ x ∷ [])
unfolding trim
trim-append cap [] x h = ([], ground arith)
trim-append cap (y ∷ m) x h = elim (Bool-cases (ltb cap (length (y ∷ m ++ x ∷ [])))) [
  | inl over ↦ let (rest, e) = trim-append cap m x h in (rest, rw over e)
  | inr fits ↦ (y ∷ m, rw fits)
]
