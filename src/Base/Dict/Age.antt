-- ===== src/Base/Dict/Age.antt =====
-- How many entries of an ordered dictionary are younger than a key: what decides when it is evicted.
use veri_swarm_flight.Base.Tests.{
  Eq, ◌==◌, if◌then◌else◌, Bool-cases, ltb, ltb→lt, eq_refl, Option-cases,
}
use veri_swarm_flight.Base.Lists.{length, length-append}
use veri_swarm_flight.Base.Dict.{
  Dict, get, has_key, set_item, delete, move_to_end, trim, has_key-delete,
}
use Prim.Native.Nat.{ℕ, ◌+◌, ◌≤◌, ◌<◌}
use mathlib.Core.Path.{◌≡◌, refl}
use mathlib.Core.Logic.{◌≢◌, inl, inr}
use mathlib.Core.Bool.{true, false, ◌||◌}
use mathlib.Core.List.{[], ◌∷◌, ◌++◌}
use native.Mathlib.Omega.{arith}

module _ {ℓ κ} {K : Type ℓ} {V : Type κ} ⦃e : Eq K⦄ where
  unfoldable pub younger : K → Dict K V → ℕ
  younger k [] = 0
  younger k ((j, v) ∷ m) = if k == j then length m else younger k m

  -- The key is there, with at most `n` younger entries.
  pub record Young (k : K) (n : ℕ) (m : Dict K V) : Type 0 where
    pub present : has_key k m ≡ true
    pub recent : younger k m ≤ n

  younger-lt-length : (k : K) (m : Dict K V) → has_key k m ≡ true → younger k m < length m
  unfolding younger has_key
  younger-lt-length k [] h = cc
  younger-lt-length k ((j, v) ∷ m) h = ground (arith, younger-lt-length k m)

  has_key-append : (k : K) (m n : Dict K V) → has_key k (m ++ n) ≡ (has_key k m || has_key k n)
  unfolding has_key
  has_key-append k [] n = refl
  has_key-append k ((j, v) ∷ m) n = ground (arith, has_key-append k m n)

  younger-append :
      (k : K) (m n : Dict K V) → has_key k m ≡ true → younger k (m ++ n) ≡ younger k m + length n
  unfolding younger has_key
  younger-append k [] n h = cc
  younger-append k ((j, v) ∷ m) n h = ground (arith, younger-append k m n, length-append m n)

  younger-append_new :
      (k : K) (m n : Dict K V) → has_key k m ≡ false → younger k (m ++ n) ≡ younger k n
  unfolding younger has_key
  younger-append_new k [] n h = refl
  younger-append_new k ((j, v) ∷ m) n h = ground (arith, younger-append_new k m n)

  -- A new key goes to the end.
  pub set_item_new :
      (k : K) (v : V) (m : Dict K V) → has_key k m ≡ false → set_item k v m ≡ m ++ (k, v) ∷ []
  unfolding set_item has_key
  set_item_new k v [] h = refl
  set_item_new k v ((j, w) ∷ m) h = ground (arith, set_item_new k v m)

  pub Young-set_item_self :
      (k : K) (v : V) (m : Dict K V) → has_key k m ≡ false → Young k 0 (set_item k v m)
  unfolding has_key younger
  Young-set_item_self k v m h = rw (set_item_new k v m h) (record {
    present = ground (arith, has_key-append k m ((k, v) ∷ []), eq_refl k);
    recent = ground (arith, younger-append_new k m ((k, v) ∷ []), eq_refl k);
  })

  pub Young-append :
      (k : K) (n : ℕ) (m : Dict K V) (x : K × V) → Young k n m → Young k (n + 1) (m ++ x ∷ [])
  Young-append k n m x y = record {
    present = ground (arith, has_key-append k m (x ∷ []), y.present);
    recent = omega (arith, younger-append k m (x ∷ []) y.present, y.recent);
  }

  pub Young-tail :
      (cap n : ℕ) (k j : K) (v : V) (m : Dict K V)
      → n < cap
      → cap < length ((j, v) ∷ m)
      → Young k n ((j, v) ∷ m)
      → Young k n m
  unfolding younger has_key
  Young-tail cap n k j v m h over y = record {
    present = ground (arith, y.present, y.recent);
    recent = ground (arith, y.present, y.recent);
  }

  -- The loop evicts only keys with `cap` or more younger entries.
  pub Young-trim :
      (cap n : ℕ) (k : K) (m : Dict K V) → n < cap → Young k n m → Young k n (trim cap m)
  unfolding trim
  Young-trim cap n k [] h y = y
  Young-trim cap n k ((j, v) ∷ m) h y = elim (Bool-cases (ltb cap (length ((j, v) ∷ m)))) [
    | inr fits ↦ rw fits y
    | inl over ↦ rw over (Young-trim cap n k m h (Young-tail cap n k j v m h (ltb→lt _ _ over) y))
  ]

  younger-le-length : (k : K) (m : Dict K V) → younger k m ≤ length m
  unfolding younger
  younger-le-length k [] = omega arith
  younger-le-length k ((j, v) ∷ m) = ground (arith, younger-le-length k m)

  length-delete-le : (j : K) (m : Dict K V) → length (delete j m) ≤ length m
  unfolding delete
  length-delete-le j [] = omega arith
  length-delete-le j ((i, v) ∷ m) = ground (arith, length-delete-le j m)

  younger-delete : (k j : K) (m : Dict K V) → younger k (delete j m) ≤ younger k m
  unfolding younger delete
  younger-delete k j [] = omega arith
  younger-delete k j ((i, v) ∷ m) =
      ground (arith, younger-le-length k m, younger-delete k j m, length-delete-le j m)

  pub Young-delete : (k j : K) (n : ℕ) (m : Dict K V) → k ≢ j → Young k n m → Young k n (delete j m)
  Young-delete k j n m h y = record {
    present = ground (arith, has_key-delete j k m h, y.present);
    recent = omega (arith, younger-delete k j m, y.recent);
  }

  Young-moved :
      (k j : K) (v : V) (n : ℕ) (m : Dict K V)
      → Young k n m
      → Young k (n + 1) (delete j m ++ (j, v) ∷ [])
  unfolding younger has_key
  Young-moved k j v n m y = elim (Bool-cases (has_key k (delete j m))) [
    | inl still ↦
        Young-append k n (delete j m) (j, v)
          (record { present = still; recent = omega (arith, younger-delete k j m, y.recent) })
    | inr gone ↦ record {
      present = ground (
        arith,
        has_key-append k (delete j m) ((j, v) ∷ []),
        has_key-delete j k m,
        y.present,
        e.beq_iff k j,
      );
      recent = ground (arith, younger-append_new k (delete j m) ((j, v) ∷ []) gone);
    }
  ]

  -- Moving a key to the end makes another at most one entry older.
  pub Young-move_to_end :
      (k j : K) (n : ℕ) (m : Dict K V) → Young k n m → Young k (n + 1) (move_to_end j m)
  unfolding move_to_end
  Young-move_to_end k j n m y = elim (Option-cases (get j m)) [
    | inl absent ↦
        rw (absent, move_to_end) (record { present = y.present; recent = omega (arith, y.recent) })
    | inr (v, found) ↦ rw (found, move_to_end) (Young-moved k j v n m y)
  ]

  pub Young-mono : (k : K) (n : ℕ) (m : Dict K V) → Young k n m → Young k (n + 1) m
  Young-mono k n m y = record { present = y.present; recent = omega (arith, y.recent) }
