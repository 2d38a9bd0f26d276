-- ===== src/Rescue/Gate/Checks.antt =====
-- codebase/rescue/movement_security.py: the single checks of a command's limits.
use veri_swarm_flight.Base.{
  ◌≡◌, refl, Bool, true, false, not, ◌||◌, Option, none, String, string_eq, arith, Result, ok,
  raise,
}
use veri_swarm_flight.Base.Floats.{Floats, float}
use veri_swarm_flight.Rescue.Gate.{
  Quantity, amount, huge, other, finite_number, outside_limit, too_close, outside_bounds,
  unless_failed,
}

pub unless_failed_inv :
    (check : Result Bool) (failure : String) (next : Result (Option String))
    → unless_failed check failure next ≡ ok none
    → (check ≡ ok false) × (next ≡ ok none)
unless_failed_inv (ok true) failure next h = cc
unless_failed_inv (ok false) failure next h = (refl, h)
unless_failed_inv (raise e) failure next h = cc

module _ {F : Type 0} ⦃fl : Floats F⦄ where
  -- Both are numbers that are finite, and related.
  pub record Both (related : F → F → Bool) (v l : Quantity F) : Type 0 where
    pub value : F
    pub limit : F
    pub is_value : v ≡ amount value
    pub is_limit : l ≡ amount limit
    pub finite : (fl.is_finite value ≡ true) × (fl.is_finite limit ≡ true)
    pub holds : related value limit ≡ true

  abbrev pub is_moderate : F → F → Bool
  is_moderate x y = not (fl.lt x (float 0) || fl.lt y x)

  abbrev pub is_apart : F → F → Bool
  is_apart x y = not (fl.lt x y)

  pub outside_limit-Both : (v l : Quantity F) → outside_limit v l ≡ ok false → Both is_moderate v l
  unfolding outside_limit finite_number
  outside_limit-Both huge l h = cc
  outside_limit-Both other l h = cc
  outside_limit-Both (amount x) huge h = ground arith
  outside_limit-Both (amount x) other h = ground arith
  outside_limit-Both (amount x) (amount y) h = record {
    value = x;
    limit = y;
    is_value = refl;
    is_limit = refl;
    finite = (ground arith, ground arith);
    holds = ground arith;
  }

  pub too_close-Both : (v l : Quantity F) → too_close v l ≡ ok false → Both is_apart v l
  unfolding too_close finite_number
  too_close-Both huge l h = cc
  too_close-Both other l h = cc
  too_close-Both (amount x) huge h = ground arith
  too_close-Both (amount x) other h = ground arith
  too_close-Both (amount x) (amount y) h = record {
    value = x;
    limit = y;
    is_value = refl;
    is_limit = refl;
    finite = (ground arith, ground arith);
    holds = ground arith;
  }

  -- Both bounds are finite numbers, and the value lies between them.
  abbrev pub is_between : F → F → F → Bool
  is_between x a b = not (fl.lt x a || fl.lt b x)

  pub outside_bounds-Both :
      (x : F) (a b : Quantity F) → outside_bounds x a b ≡ ok false → Both (is_between x) a b
  unfolding outside_bounds finite_number
  outside_bounds-Both x huge b h = cc
  outside_bounds-Both x other b h = cc
  outside_bounds-Both x (amount a) huge h = ground arith
  outside_bounds-Both x (amount a) other h = ground arith
  outside_bounds-Both x (amount a) (amount b) h = record {
    value = a;
    limit = b;
    is_value = refl;
    is_limit = refl;
    finite = (ground arith, ground arith);
    holds = ground arith;
  }
