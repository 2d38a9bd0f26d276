-- ===== src/Base/Dict/Kept.antt =====
-- An entry of an ordered dictionary of bounded size that is there to stay for a while.
use Prim.Native.Nat.{ℕ, ◌+◌, ◌<◌}
use mathlib.Core.Path.{◌≡◌, refl, sym, ap, ◌∙◌, subst}
use mathlib.Core.Logic.{inl, inr}
use mathlib.Core.Bool.{true, false}
use mathlib.Core.Option.{none, some}
use mathlib.Core.List.{[], ◌∷◌, ◌++◌}
use native.Mathlib.Omega.{arith}
use veri_swarm_flight.Base.Tests.{Eq, ◌==◌, Bool-cases, ltb, ltb→lt, eq_refl, Option-cases}
use veri_swarm_flight.Base.Lists.{length}
use veri_swarm_flight.Base.Sets.{distinct, member}
use veri_swarm_flight.Base.Dict.{
  Dict, keys, get, has_key, set_item, delete, move_to_end, trim, get-set_item, get-delete_ne,
  get-delete_self, distinct-set_item, distinct-delete,
}
use veri_swarm_flight.Base.Dict.Age.{
  Young, younger, Young-tail, Young-set_item_self, Young-append, Young-trim, Young-move_to_end,
  Young-mono, set_item_new,
}

module _ {ℓ κ} {K : Type ℓ} {V : Type κ} ⦃e : Eq K⦄ where
  -- The key has the value, with at most `n` younger entries, and no key is there twice.
  pub record Kept (k : K) (v : V) (n : ℕ) (m : Dict K V) : Type (ℓ ⊔ κ) where
    pub young : Young k n m
    pub value : get k m ≡ some v
    pub once : distinct (keys m) ≡ true

  has_key_of_none : (k : K) (m : Dict K V) → get k m ≡ none → has_key k m ≡ false
  unfolding get has_key
  has_key_of_none k [] h = refl
  has_key_of_none k ((j, v) ∷ m) h = ground (arith, has_key_of_none k m)

  move_to_end-set_item :
      (k : K) (v : V) (m : Dict K V)
      → get k m ≡ some v
      → distinct (keys m) ≡ true
      → move_to_end k m ≡ set_item k v (delete k m)
  unfolding move_to_end set_item
  move_to_end-set_item k v m found d =
      rw (found, move_to_end)
        (sym
          (set_item_new k v (delete k m) (has_key_of_none k (delete k m) (get-delete_self k m d))))

  pub distinct-move_to_end :
      (k : K) (m : Dict K V) → distinct (keys m) ≡ true → distinct (keys (move_to_end k m)) ≡ true
  unfolding move_to_end distinct
  distinct-move_to_end k m d = elim (Option-cases (get k m)) [
    | inl absent ↦ rw (absent, move_to_end) d
    | inr (v, found) ↦
        rw (move_to_end-set_item k v m found d)
          (distinct-set_item k v (delete k m) (distinct-delete k m d))
  ]

  pub get-move_to_end :
      (k j : K) (m : Dict K V) → distinct (keys m) ≡ true → get j (move_to_end k m) ≡ get j m
  unfolding move_to_end
  get-move_to_end k j m d = elim (Option-cases (get k m)) [
    | inl absent ↦ rw (absent, move_to_end) refl
    | inr (v, found) ↦ rw (move_to_end-set_item k v m found d) (
        ground (
          arith,
          get-set_item k j v (delete k m),
          get-delete_ne k j m,
          e.beq_iff j k,
          subst (λ x. get x m ≡ some v) {x = k} {y = j},
        ))
  ]

  member-keys-trim :
      (cap : ℕ) (k : K) (m : Dict K V)
      → member k (keys m) ≡ false
      → member k (keys (trim cap m)) ≡ false
  unfolding trim member
  member-keys-trim cap k [] h = h
  member-keys-trim cap k ((j, v) ∷ m) h = ground (arith, member-keys-trim cap k m)

  pub distinct-trim :
      (cap : ℕ) (m : Dict K V) → distinct (keys m) ≡ true → distinct (keys (trim cap m)) ≡ true
  unfolding trim distinct
  distinct-trim cap [] d = d
  distinct-trim cap ((j, v) ∷ m) d = ground (arith, distinct-trim cap m)

  -- What a dropped entry is not.
  passed :
      (cap n : ℕ) (k j : K) (v : V) (m : Dict K V)
      → n < cap
      → cap < length ((j, v) ∷ m)
      → Young k n ((j, v) ∷ m)
      → (k == j) ≡ false
  unfolding younger
  passed cap n k j v m h over y = ground (arith, y.recent)

  get-tail : (k j : K) (v : V) (m : Dict K V) → (k == j) ≡ false → get k ((j, v) ∷ m) ≡ get k m
  unfolding get
  get-tail k j v m h = rw h refl

  get-trim :
      (cap n : ℕ) (k : K) (m : Dict K V) → n < cap → Young k n m → get k (trim cap m) ≡ get k m
  unfolding trim
  get-trim cap n k [] h y = refl
  get-trim cap n k ((j, v) ∷ m) h y = elim (Bool-cases (ltb cap (length ((j, v) ∷ m)))) [
    | inr fits ↦ rw fits refl
    | inl over ↦
        let late = Young-tail cap n k j v m h (ltb→lt _ _ over) y in
        rw over (
          get-trim cap n k m h late
          ∙ sym (get-tail k j v m (passed cap n k j v m h (ltb→lt _ _ over) y)))
  ]

  delete-append :
      (k : K) (v : V) (m : Dict K V) → has_key k m ≡ false → delete k (m ++ (k, v) ∷ []) ≡ m
  unfolding delete has_key
  delete-append k v [] h = rw (eq_refl k) refl
  delete-append k v ((j, w) ∷ m) h = ground (arith, delete-append k v m)

  -- A new entry goes to the end, and stays there.
  pub move_to_end_new :
      (k : K) (v : V) (m : Dict K V)
      → has_key k m ≡ false
      → move_to_end k (set_item k v m) ≡ set_item k v m
  unfolding move_to_end
  move_to_end_new k v m h =
      let found : get k (set_item k v m) ≡ some v =
        ground (arith, get-set_item k k v m, eq_refl k) in
      rw (found, move_to_end)
        (rw (set_item_new k v m h) (ap (λ l. l ++ (k, v) ∷ []) (delete-append k v m h)))

  pub Kept-mono : (k : K) (v : V) (n : ℕ) (m : Dict K V) → Kept k v n m → Kept k v (n + 1) m
  Kept-mono k v n m c = record { young = Young-mono k n m c.young; value = c.value; once = c.once }

  pub Kept-trim :
      (cap : ℕ) (k : K) (v : V) (n : ℕ) (m : Dict K V)
      → n < cap
      → Kept k v n m
      → Kept k v n (trim cap m)
  Kept-trim cap k v n m h c = record {
    young = Young-trim cap n k m h c.young;
    value = get-trim cap n k m h c.young ∙ c.value;
    once = distinct-trim cap m c.once;
  }

  -- Another entry is moved to the end.
  pub Kept-move_to_end :
      (k j : K) (v : V) (n : ℕ) (m : Dict K V) → Kept k v n m → Kept k v (n + 1) (move_to_end j m)
  Kept-move_to_end k j v n m c = record {
    young = Young-move_to_end k j n m c.young;
    value = get-move_to_end j k m c.once ∙ c.value;
    once = distinct-move_to_end j m c.once;
  }

  -- The entry itself is moved to the end.
  pub move_to_end-Kept :
      (k : K) (v : V) (m : Dict K V)
      → get k m ≡ some v
      → distinct (keys m) ≡ true
      → Kept k v 0 (move_to_end k m)
  move_to_end-Kept k v m found d = record {
    young = rw (move_to_end-set_item k v m found d) (
        Young-set_item_self k v (delete k m)
          (has_key_of_none k (delete k m) (get-delete_self k m d)));
    value = get-move_to_end k k m d ∙ found;
    once = distinct-move_to_end k m d;
  }

  -- A new entry is added, this one or another.
  pub set_item-Kept :
      (k : K) (v : V) (m : Dict K V)
      → get k m ≡ none
      → distinct (keys m) ≡ true
      → Kept k v 0 (move_to_end k (set_item k v m))
  set_item-Kept k v m absent d =
      let new = has_key_of_none k m absent in
      rw (move_to_end_new k v m new) (record {
        young = Young-set_item_self k v m new;
        value = ground (arith, get-set_item k k v m, eq_refl k);
        once = distinct-set_item k v m d;
      })

  pub Kept-set_item :
      (k j : K) (v w : V) (n : ℕ) (m : Dict K V)
      → get j m ≡ none
      → Kept k v n m
      → Kept k v (n + 1) (move_to_end j (set_item j w m))
  Kept-set_item k j v w n m absent c =
      let new = has_key_of_none j m absent in
      rw (move_to_end_new j w m new) (record {
        young = rw (set_item_new j w m new) (Young-append k n m (j, w) c.young);
        value = ground (
          arith,
          get-set_item j k w m,
          c.value,
          absent,
          e.beq_iff k j,
          subst (λ x. get x m ≡ some v) {x = k} {y = j},
        );
        once = distinct-set_item j w m c.once;
      })
