-- ===== src/Base/Sets.antt =====
-- Python's sets, as lists without repetition. The order of a set's list means nothing.
use Prim.Native.Nat.{◌+◌, ◌≤◌, ◌<◌}
use mathlib.Core.Path.{◌≡◌, refl, ap}
use mathlib.Core.Logic.{◌⊎◌, inl, inr}
use mathlib.Core.Bool.{Bool, true, false, ◌&&◌, ◌||◌}
use mathlib.Core.List.{List, [], ◌∷◌, ◌++◌}
use native.Mathlib.Omega.{arith}
use veri_swarm_flight.Base.Tests.{Eq, ◌==◌, if◌then◌else◌, Bool-cases, eq_refl}
use veri_swarm_flight.Base.Lists.{length, length-append}

module _ {ℓ} {A : Type ℓ} ⦃e : Eq A⦄ where
  -- `a in xs`.
  unfoldable pub member : A → List A → Bool
  member a [] = false
  member a (x ∷ xs) = a == x || member a xs

  -- `xs.add(a)`.
  unfoldable pub add : A → List A → List A
  add a xs = if member a xs then xs else a ∷ xs

  -- `xs.discard(a)` and `xs - {a}`.
  unfoldable pub discard : A → List A → List A
  discard a [] = []
  discard a (x ∷ xs) = if a == x then discard a xs else x ∷ discard a xs

  -- `set(xs)`.
  unfoldable pub of_list : List A → List A
  of_list [] = []
  of_list (x ∷ xs) = add x (of_list xs)

  -- `xs <= ys`.
  unfoldable pub subset : List A → List A → Bool
  subset [] ys = true
  subset (x ∷ xs) ys = member x ys && subset xs ys

  -- `not (xs & ys)`.
  unfoldable pub disjoint : List A → List A → Bool
  disjoint [] ys = true
  disjoint (x ∷ xs) ys = (if member x ys then false else true) && disjoint xs ys

  -- No element twice: what makes a list a set.
  unfoldable pub distinct : List A → Bool
  distinct [] = true
  distinct (x ∷ xs) = (if member x xs then false else true) && distinct xs

  pub member-add : (a b : A) (xs : List A) → member b (add a xs) ≡ (b == a || member b xs)
  unfolding add member
  member-add a b xs = elim (Bool-cases (member a xs)) [
    | inl old ↦ ground (arith, e.beq_iff b a, ap (λ c. member c xs) {x = a} {y = b})
    | inr new ↦ rw new refl
  ]

  pub member-discard :
      (a b : A) (xs : List A)
      → member b (discard a xs) ≡ ((if a == b then false else true) && member b xs)
  unfolding discard member
  member-discard a b [] = ground arith
  member-discard a b (x ∷ xs) =
      ground (arith, member-discard a b xs, e.beq_iff a b, e.beq_iff a x, e.beq_iff b x)

  pub distinct-add : (a : A) (xs : List A) → distinct xs ≡ true → distinct (add a xs) ≡ true
  unfolding add distinct
  distinct-add a xs d = ground arith

  pub distinct-of_list : (xs : List A) → distinct (of_list xs) ≡ true
  unfolding of_list
  distinct-of_list [] = unfold distinct in refl
  distinct-of_list (x ∷ xs) = distinct-add x (of_list xs) (distinct-of_list xs)

  pub member-of_list : (a : A) (xs : List A) → member a (of_list xs) ≡ member a xs
  unfolding of_list
  member-of_list a [] = refl
  member-of_list a (x ∷ xs) =
      rw (member-add x a (of_list xs), member-of_list a xs) (unfold member in refl)

  pub distinct-discard : (a : A) (xs : List A) → distinct xs ≡ true → distinct (discard a xs) ≡ true
  unfolding discard distinct
  distinct-discard a [] d = refl
  distinct-discard a (x ∷ xs) d = ground (arith, distinct-discard a xs, member-discard a x xs)

  length-discard-le : (a : A) (xs : List A) → length (discard a xs) ≤ length xs
  unfolding discard
  length-discard-le a [] = omega arith
  length-discard-le a (x ∷ xs) = ground (arith, length-discard-le a xs)

  pub length-discard-lt :
      (a : A) (xs : List A) → member a xs ≡ true → length (discard a xs) < length xs
  unfolding discard member
  length-discard-lt a [] m = cc
  length-discard-lt a (x ∷ xs) m = ground (arith, length-discard-lt a xs, length-discard-le a xs)

  -- A set that lies in another is no larger.
  pub length-le_of_members :
      (xs ys : List A)
      → distinct xs ≡ true
      → ((a : A) → member a xs ≡ true → member a ys ≡ true)
      → length xs ≤ length ys
  unfolding distinct member
  length-le_of_members [] ys d sub = omega arith
  length-le_of_members (x ∷ xs) ys d sub = omega (
    arith,
    length-discard-lt x ys (sub x (ground (arith, eq_refl x))),
    length-le_of_members xs (discard x ys) (ground arith)
        (λ a m. ground (arith, member-discard x a ys, sub a, e.beq_iff x a, d, m)),
  )

  pub member_of_disjoint :
      (xs ys : List A) (a : A) → disjoint xs ys ≡ true → member a xs ≡ true → member a ys ≡ false
  unfolding disjoint member
  member_of_disjoint [] ys a d m = cc
  member_of_disjoint (x ∷ xs) ys a d m = ground (arith, member_of_disjoint xs ys a, e.beq_iff a x)

  disjoint_or_common :
      (xs ys : List A)
      → (disjoint xs ys ≡ true) ⊎ ((a : A) × (member a xs ≡ true) × (member a ys ≡ true))
  unfolding disjoint member
  disjoint_or_common [] ys = inl refl
  disjoint_or_common (x ∷ xs) ys = elim (Bool-cases (member x ys)) [
    | inl here ↦ inr (x, ground (arith, eq_refl x), here)
    | inr miss ↦ elim (disjoint_or_common xs ys) [
      | inl apart ↦ inl (ground arith)
      | inr (a, l, r) ↦ inr (a, ground arith, r)
    ]
  ]

  member-append : (a : A) (xs ys : List A) → member a (xs ++ ys) ≡ (member a xs || member a ys)
  unfolding member
  member-append a [] ys = refl
  member-append a (x ∷ xs) ys = ground (arith, member-append a xs ys)

  distinct-append :
      (xs ys : List A)
      → distinct xs ≡ true
      → distinct ys ≡ true
      → disjoint xs ys ≡ true
      → distinct (xs ++ ys) ≡ true
  unfolding distinct disjoint
  distinct-append [] ys dx dy apart = dy
  distinct-append (x ∷ xs) ys dx dy apart =
      ground (arith, distinct-append xs ys, member-append x xs ys)

  -- Two disjoint parts of a set have together no more elements than the set.
  pub length-add-le_of_disjoint :
      (xs ys rs : List A)
      → distinct xs ≡ true
      → distinct ys ≡ true
      → disjoint xs ys ≡ true
      → ((a : A) → member a xs ≡ true → member a rs ≡ true)
      → ((a : A) → member a ys ≡ true → member a rs ≡ true)
      → length xs + length ys ≤ length rs
  length-add-le_of_disjoint xs ys rs dx dy apart sx sy = omega (
    arith,
    length-append xs ys,
    length-le_of_members (xs ++ ys) rs (distinct-append xs ys dx dy apart)
        (λ a m. ground (arith, member-append a xs ys, sx a, sy a, m)),
  )

  -- Two parts of a set with together more elements than the set share one.
  pub common_of_length :
      (xs ys rs : List A)
      → distinct xs ≡ true
      → distinct ys ≡ true
      → ((a : A) → member a xs ≡ true → member a rs ≡ true)
      → ((a : A) → member a ys ≡ true → member a rs ≡ true)
      → length rs < length xs + length ys
      → (a : A) × (member a xs ≡ true) × (member a ys ≡ true)
  common_of_length xs ys rs dx dy sx sy large = elim (disjoint_or_common xs ys) [
    | inl apart ↦ absurd (omega (arith, length-add-le_of_disjoint xs ys rs dx dy apart sx sy))
    | inr found ↦ found
  ]

  pub subset_of_members :
      (xs ys : List A) → ((a : A) → member a xs ≡ true → member a ys ≡ true) → subset xs ys ≡ true
  unfolding subset member
  subset_of_members [] ys sub = refl
  subset_of_members (x ∷ xs) ys sub =
      ground (arith, sub x, eq_refl x, subset_of_members xs ys (λ a m. ground (arith, sub a, m)))

  pub disjoint_of_members :
      (xs ys : List A)
      → ((a : A) → member a xs ≡ true → member a ys ≡ false)
      → disjoint xs ys ≡ true
  unfolding disjoint member
  disjoint_of_members [] ys apart = refl
  disjoint_of_members (x ∷ xs) ys apart =
      ground
        (arith, apart x, eq_refl x, disjoint_of_members xs ys (λ a m. ground (arith, apart a, m)))
