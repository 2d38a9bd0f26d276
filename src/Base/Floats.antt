-- ===== src/Base/Floats.antt =====
-- Python's floats, as a type with the tests and operations that the program computes with. Which
-- numbers they are is not fixed: a law that a theorem needs is a hypothesis of that theorem.
use Prim.Native.Nat.{ℕ}
use mathlib.Core.Bool.{Bool}
use mathlib.Core.Option.{Option}

pub record Floats (F : Type 0) : Type 0 where
  -- `math.isfinite(x)`, `x <= y`, `x < y`, `x == y`.
  pub is_finite : F → Bool
  pub le : F → F → Bool
  pub lt : F → F → Bool
  pub eq : F → F → Bool
  -- `x + y`, `x - y`, `x * y`, `x / y`, `abs(x)`, `math.sqrt(x)`.
  pub plus : F → F → F
  pub minus : F → F → F
  pub times : F → F → F
  pub over : F → F → F
  pub magnitude : F → F
  pub sqrt : F → F
  -- `x ** 2`, `none` where it raises `OverflowError`.
  pub square : F → Option F
  -- `float(n)` of a small integer.
  pub of_nat : ℕ → F

module _ {F : Type 0} ⦃fl : Floats F⦄ where
  abbrev pub float : ℕ → F
  float n = fl.of_nat n

  -- `-1.0`.
  abbrev pub minus_one : F
  minus_one = fl.minus (fl.of_nat 0) (fl.of_nat 1)
