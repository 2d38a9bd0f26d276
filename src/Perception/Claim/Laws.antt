-- ===== src/Perception/Claim/Laws.antt =====
-- codebase/perception/claim.py: what construction admits, and how two claims compare.
use veri_swarm_flight.Base.{
  ◌≤◌, ◌≡◌, ◌≢◌, refl, sym, subst, bool_beq_iff, inl, inr, true, false, Option, none, some, List,
  [], ◌∷◌, arith, ◌==◌, Bool-cases, AllPassed, checked-eq-ok, ok, length,
}
use veri_swarm_flight.Base.Int.{ℤ, pos, ltb_ℤ, ◌≤ℤ◌, ◌<ℤ◌, int_eq, int_beq_iff, eq_of_parts}
use veri_swarm_flight.Base.Floats.{Floats, float}
use veri_swarm_flight.Perception.Claim.{
  PerceptionClaim, insert_sorted, sorted_set, ids_eq, ids_beq_iff, claim_checks, construct_claim,
  compare_claims, claims_agree,
}

-- Each element is below the next.
abbrev pub Rising : List ℤ → Type 0
Rising [] = Unit {0}
Rising (x ∷ []) = Unit {0}
Rising (x ∷ y ∷ xs) = (x <ℤ y) × Rising (y ∷ xs)

abbrev Below : ℤ → List ℤ → Type 0
Below a [] = Unit {0}
Below a (x ∷ xs) = a <ℤ x

Rising-cons : (x : ℤ) (xs : List ℤ) → Below x xs → Rising xs → Rising (x ∷ xs)
Rising-cons x [] b r = tt
Rising-cons x (y ∷ xs) b r = (b, r)

Rising-tail : (x : ℤ) (xs : List ℤ) → Rising (x ∷ xs) → Below x xs × Rising xs
Rising-tail x [] r = (tt, tt)
Rising-tail x (y ∷ xs) r = r

Below-insert_sorted : (z a : ℤ) (xs : List ℤ) → z <ℤ a → Below z xs → Below z (insert_sorted a xs)
unfolding insert_sorted
Below-insert_sorted z a [] h b = h
Below-insert_sorted z a (x ∷ xs) h b = ground arith

insert_sorted-Rising : (a : ℤ) (xs : List ℤ) → Rising xs → Rising (insert_sorted a xs)
unfolding insert_sorted
insert_sorted-Rising a [] r = tt
insert_sorted-Rising a (x ∷ xs) r = elim (Bool-cases (ltb_ℤ a x)) [
  | inl below ↦ rw below (ground arith, r)
  | inr other ↦ elim (Bool-cases (a == x)) [
    | inl same ↦ rw (other, same) r
    | inr differ ↦
        rw (other, differ)
          (Rising-cons x (insert_sorted a xs)
            (Below-insert_sorted x a xs (ground (arith, int_beq_iff a x, eq_of_parts a x))
              (Rising-tail x xs r).0)
            (insert_sorted-Rising a xs (Rising-tail x xs r).1))
  ]
]

sorted_set-Rising : (xs : List ℤ) → Rising (sorted_set xs)
unfolding sorted_set
sorted_set-Rising [] = tt
sorted_set-Rising (x ∷ xs) = insert_sorted-Rising x (sorted_set xs) (sorted_set-Rising xs)

module _ {F : Type 0} ⦃fl : Floats F⦄ where
  -- What a constructed claim says is consistent.
  pub record IsConsistent (c : PerceptionClaim F) : Type 0 where
    pub rising : Rising c.class_ids
    pub count_range : (pos 0 ≤ℤ c.detection_count) × (c.detection_count ≤ℤ pos 4096)
    pub enough : pos (length c.class_ids) ≤ℤ c.detection_count
    pub present_count : c.detections_present ≡ true → pos 1 ≤ℤ c.detection_count
    pub present_ids : c.detections_present ≡ true → 1 ≤ length c.class_ids
    pub absent_count : c.detections_present ≡ false → c.detection_count ≡ pos 0
    pub present_measured : c.detections_present ≡ true → c.measured ≡ true
    pub absent_occupancy : c.detections_present ≡ false → fl.eq c.occupancy (float 0) ≡ true

  claim_checks-IsConsistent : (c : PerceptionClaim F) → AllPassed (claim_checks c) → IsConsistent c
  unfolding claim_checks
  claim_checks-IsConsistent c passed = record {
    rising =
        subst Rising
          (sym (ground (arith, ids_beq_iff c.class_ids (sorted_set c.class_ids), passed.1.1.0)))
          (sorted_set-Rising c.class_ids);
    count_range = (ground arith, ground arith);
    enough = ground arith;
    present_count = λ p. ground (arith, int_beq_iff c.detection_count (pos 0));
    present_ids = λ p. ground arith;
    absent_count = λ p. ground (arith, int_beq_iff c.detection_count (pos 0));
    present_measured = λ p. ground arith;
    absent_occupancy = λ p. ground arith;
  }

  -- A claim that construction admits is stored unchanged and is consistent: its class identifiers
  -- rise strictly, there are at most as many as detections, which are at most 4096, and detections
  -- are reported present exactly when some are counted, only by a measured claim; without
  -- detections the occupancy is zero.
  pub construct_claim-IsConsistent :
      (c d : PerceptionClaim F) → construct_claim c ≡ ok d → (d ≡ c) × IsConsistent c
  unfolding construct_claim
  construct_claim-IsConsistent c d h =
      let (passed, same) = checked-eq-ok (claim_checks c) c d h in
      (same, claim_checks-IsConsistent c passed)

  -- Between measured claims the comparison is symmetric.
  compare_claims_comm :
      (c o : Option (PerceptionClaim F)) (tolerance : F)
      → ((x y : F) → fl.magnitude (fl.minus x y) ≡ fl.magnitude (fl.minus y x))
      → compare_claims c o tolerance ≡ compare_claims o c tolerance
  unfolding compare_claims
  compare_claims_comm none none tolerance swap = refl
  compare_claims_comm none (some o) tolerance swap = refl
  compare_claims_comm (some c) none tolerance swap = refl
  compare_claims_comm (some c) (some o) tolerance swap = ground (
    arith,
    swap c.occupancy o.occupancy,
    bool_beq_iff c.detections_present o.detections_present,
    bool_beq_iff o.detections_present c.detections_present,
    ids_beq_iff c.class_ids o.class_ids,
    ids_beq_iff o.class_ids c.class_ids,
  )

  -- The comparison does not depend on which of the two drones made which claim, if `abs(x - y)`
  -- is `abs(y - x)`.
  pub claims_agree_comm :
      (c o : Option (PerceptionClaim F)) (tolerance : F)
      → ((x y : F) → fl.magnitude (fl.minus x y) ≡ fl.magnitude (fl.minus y x))
      → claims_agree c o tolerance ≡ claims_agree o c tolerance
  unfolding claims_agree
  claims_agree_comm c o tolerance swap = rw (compare_claims_comm c o tolerance swap)

  -- Whatever else two measured claims say, if one reports detections and the other an empty scene,
  -- they do not agree; and an agreement is only ever found between two measured claims.
  pub compare_claims_blind_band :
      (c o : PerceptionClaim F) (tolerance : F)
      → (c.measured ≡ true
          → o.measured ≡ true
          → c.detections_present ≢ o.detections_present
          → compare_claims (some c) (some o) tolerance ≡ some false)
        × (compare_claims (some c) (some o) tolerance ≡ some true
            → (c.measured ≡ true)
              × (o.measured ≡ true)
              × (c.detections_present ≡ o.detections_present))
  unfolding compare_claims
  compare_claims_blind_band c o tolerance = (
    λ m n d. ground (arith, bool_beq_iff c.detections_present o.detections_present),
    λ h. ground (arith, bool_beq_iff c.detections_present o.detections_present),
  )
