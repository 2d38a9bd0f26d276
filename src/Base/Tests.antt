-- ===== src/Base/Tests.antt =====
-- Boolean tests, the conditional, equality tests as an interface, and results that may be errors.
use Prim.Native.Nat.{ℕ, ◌≤◌, ◌<◌, compare, Ordering}
use Prim.Native.String.{String}
use mathlib.Core.Path.{◌≡◌, refl, sym, ◌∙◌}
use mathlib.Core.Logic.{◌↔◌, ◌⊎◌, inl, inr}
use mathlib.Core.Bool.{Bool, true, false, not, ◌&&◌, false≢true}
use mathlib.Core.Option.{Option, none, some}
use mathlib.Core.List.{List, [], ◌∷◌}
use native.Mathlib.Omega.{arith}
use text.Mathlib.Text.{◌==◌ as str_eq}
use text.Mathlib.TextEquality.{eq_iff}

abbrev pub ltb : ℕ → ℕ → Bool
ltb a b = elim (compare a b) [ Ordering.lt ↦ true | _ ↦ false ]

abbrev pub leb : ℕ → ℕ → Bool
leb a b = elim (compare a b) [ Ordering.gt ↦ false | _ ↦ true ]

abbrev pub eqb : ℕ → ℕ → Bool
eqb a b = elim (compare a b) [ Ordering.eq ↦ true | _ ↦ false ]

infix 1 if◌then◌else◌
abbrev pub if◌then◌else◌ {ℓ} : {A : Type ℓ} → Bool → A → A → A
if true then x else y = x
if false then x else y = y

pub leb→le : (a b : ℕ) → leb a b ≡ true → a ≤ b
leb→le a b h = ground arith

pub le→leb : (a b : ℕ) → a ≤ b → leb a b ≡ true
le→leb a b h = ground arith

pub ltb→lt : (a b : ℕ) → ltb a b ≡ true → a < b
ltb→lt a b h = ground arith

pub eqb_iff : (a b : ℕ) → (eqb a b ≡ true) ↔ (a ≡ b)
eqb_iff a b = ground arith

pub Bool-cases : (b : Bool) → (b ≡ true) ⊎ (b ≡ false)
Bool-cases true = inl refl
Bool-cases false = inr refl

pub Option-cases {ℓ} : {A : Type ℓ} (o : Option A) → (o ≡ none) ⊎ ((a : A) × (o ≡ some a))
Option-cases none = inl refl
Option-cases (some a) = inr (a, refl)

pub &&-left : (a b : Bool) → (a && b) ≡ true → a ≡ true
&&-left a b h = ground arith

pub &&-right : (a b : Bool) → (a && b) ≡ true → b ≡ true
&&-right a b h = ground arith

-- Equality as the source's `==` decides it.
pub record Eq {κ} (K : Type κ) : Type κ where
  pub beq : K → K → Bool
  pub beq_iff : (x y : K) → (beq x y ≡ true) ↔ (x ≡ y)

instance abbrev pub string_eq : Eq String
string_eq = record { beq = str_eq; beq_iff = eq_iff }

abbrev pub bool_beq : Bool → Bool → Bool
bool_beq true b = b
bool_beq false b = not b

pub bool_beq_iff : (a b : Bool) → (bool_beq a b ≡ true) ↔ (a ≡ b)
bool_beq_iff true b = ground arith
bool_beq_iff false b = ground arith

instance abbrev pub bool_eq : Eq Bool
bool_eq = record { beq = bool_beq; beq_iff = bool_beq_iff }

instance abbrev pub nat_eq : Eq ℕ
nat_eq = record { beq = eqb; beq_iff = eqb_iff }

infix 50 ◌!=◌ ◌==◌
abbrev pub ◌!=◌ {κ} : {K : Type κ} ⦃e : Eq K⦄ → K → K → Bool
◌!=◌ ⦃e⦄ x y = if e.beq x y then false else true

abbrev pub ◌==◌ {κ} : {K : Type κ} ⦃e : Eq K⦄ → K → K → Bool
◌==◌ ⦃e⦄ x y = e.beq x y

module _ {ℓ} {A : Type ℓ} ⦃e : Eq A⦄ where
  pub eq_refl : (a : A) → (a == a) ≡ true
  eq_refl a = (e.beq_iff a a).1 refl

  pub eq_of_test : (a b : A) → (a == b) ≡ true → a ≡ b
  eq_of_test a b = (e.beq_iff a b).0

  pub test-false : (a b : A) → ¬ (a ≡ b) → (a == b) ≡ false
  test-false a b n = elim (Bool-cases (a == b)) [
    | inl t ↦ absurd (n (eq_of_test a b t))
    | inr f ↦ f
  ]

  pub test_comm : (a b : A) → (a == b) ≡ (b == a)
  test_comm a b = ground (arith, e.beq_iff a b, e.beq_iff b a)

-- Python's exceptions, with their messages.
pub data Error : Type 0 where
  value_error type_error key_error overflow_error attribute_error runtime_error : String → Error

pub data Result {ℓ} (A : Type ℓ) : Type ℓ where
  ok : A → Result A
  raise : Error → Result A

pub Result-cases {ℓ} :
    {A : Type ℓ} (x : Result A) → ((a : A) × (x ≡ ok a)) ⊎ ((e : Error) × (x ≡ raise e))
Result-cases (ok a) = inl (a, refl)
Result-cases (raise e) = inr (e, refl)

infixl 5 ◌>>=◌ ◌>>◌
abbrev pub ◌>>=◌ {ℓ κ} : {A : Type ℓ} {B : Type κ} → Result A → (A → Result B) → Result B
ok a >>= f = f a
raise e >>= f = raise e

abbrev pub ◌>>◌ {ℓ} : {B : Type ℓ} → Result (Unit {0}) → Result B → Result B
m >> k = m >>= λ _. k

-- A chain that returned.
pub >>=-eq-ok {ℓ} :
    {A : Type ℓ} {B : Type ℓ} (m : Result A) (f : A → Result B) (b : B)
    → (m >>= f) ≡ ok b
    → (a : A) × (m ≡ ok a) × (f a ≡ ok b)
>>=-eq-ok (ok a) f b h = (a, refl, h)
>>=-eq-ok (raise e) f b h = cc

-- A run of `if bad: raise ValueError(message)`: the first that applies raises.
unfoldable pub check_all : List (Bool × String) → Result (Unit {0})
check_all [] = ok tt
check_all ((bad, message) ∷ checks) = if bad then raise (value_error message) else check_all checks

-- None of the checks applies.
abbrev pub AllPassed : List (Bool × String) → Type 0
AllPassed [] = Unit {0}
AllPassed ((bad, message) ∷ checks) = (bad ≡ false) × AllPassed checks

pub check_all-AllPassed :
    (checks : List (Bool × String)) → check_all checks ≡ ok tt → AllPassed checks
unfolding check_all
check_all-AllPassed [] h = tt
check_all-AllPassed ((true, message) ∷ checks) h = cc
check_all-AllPassed ((false, message) ∷ checks) h = (refl, check_all-AllPassed checks h)

pub check_all_of_AllPassed :
    (checks : List (Bool × String)) → AllPassed checks → check_all checks ≡ ok tt
unfolding check_all
check_all_of_AllPassed [] h = refl
check_all_of_AllPassed ((bad, message) ∷ checks) h = rw (h.0) (check_all_of_AllPassed checks h.1)

-- Construction that checks: `x` itself, if the checks pass.
pub checked-eq-ok {ℓ} :
    {A : Type ℓ} (checks : List (Bool × String)) (x y : A)
    → (check_all checks >> ok x) ≡ ok y
    → AllPassed checks × (y ≡ x)
checked-eq-ok checks x y h = go (check_all checks) refl h
  where
    go :
        (r : Result (Unit {0}))
        → check_all checks ≡ r
        → (r >> ok x) ≡ ok y
        → AllPassed checks × (y ≡ x)
    go (ok tt) e h' = (check_all-AllPassed checks e, ground arith)
    go (raise error) e h' = cc

pub not-eq-false : (b : Bool) → not b ≡ false → b ≡ true
not-eq-false true h = refl
not-eq-false false h = cc

-- A type with an equality test is discrete.
pub Eq-discrete {ℓ} : {A : Type ℓ} → Eq A → Discrete A
Eq-discrete e a b = elim (Bool-cases (e.beq a b)) [
  | inl same ↦ yes ((e.beq_iff a b).0 same)
  | inr other ↦ no (λ p. false≢true (sym other ∙ (e.beq_iff a b).1 p))
]
