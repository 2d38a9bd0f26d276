-- ===== src/Rescue/Outbox/Conserve.antt =====
-- codebase/rescue/outbox.py: a flush loses nothing and keeps the order.
use veri_swarm_flight.Base.{
  ℕ, zero, suc, ◌+◌, ◌≤◌, ◌≡◌, refl, sym, subst, ◌∙◌, ap, inl, inr, List, [], ◌∷◌, ◌++◌, String,
  string_eq, arith, ok, length,
}
use veri_swarm_flight.Base.Int.{ℤ, pos_part}
use veri_swarm_flight.Base.Floats.{Floats}
use mathlib.Core.List.{append_assoc}
use veri_swarm_flight.Rescue.Outbox.{Row, Dead, Outbox}
use veri_swarm_flight.Rescue.Outbox.Flush.{
  Reply, Counts, Progress, no_counts, flush_row, flush_loop, flush,
}
use veri_swarm_flight.Rescue.Outbox.Delivery.{items, Settled, nothing, sent, buried}
use veri_swarm_flight.Rescue.Outbox.Rounds.{Sent, Buried, Held, flush_row-Round, flush-eq-ok}

-- What was taken off the queue, and what of it went to the dead letters.
pub record Conserved (post : ℕ → String → Reply) (o : Outbox) (c : Counts) (o' : Outbox)
    (c' : Counts) : Type 0 where
  pub taken : List Row
  pub moved : List Dead
  pub order : items o.rows ≡ items taken ++ items o'.rows
  pub kept : o'.dead ≡ o.dead ++ moved
  pub settled : Settled post c'.attempts taken moved
  pub counted : c'.delivered + c'.dead_lettered ≡ c.delivered + c.dead_lettered + length taken
  pub dead_counted : c'.dead_lettered ≡ c.dead_lettered + length moved
  pub later : c.attempts ≤ c'.attempts

module _ (post : ℕ → String → Reply) where
  append-nil : {A : Type 0} (xs : List A) → xs ++ [] ≡ xs
  append-nil [] = refl
  append-nil (x ∷ xs) = ap (λ l. x ∷ l) (append-nil xs)

  unmoved : (o : Outbox) (c : Counts) → Conserved post o c o c
  unmoved o c = record {
    taken = [];
    moved = [];
    order = refl;
    kept = sym (append-nil o.dead);
    settled = nothing;
    counted = omega arith;
    dead_counted = omega arith;
    later = omega arith;
  }

  Held-Conserved :
      (o : Outbox) (c : Counts) (r : Row) (rest : List Row) (p : Progress)
      → o.rows ≡ r ∷ rest
      → c.attempts ≤ p.totals.attempts
      → Held post c r rest o.dead p
      → Conserved post o c p.outbox p.totals
  Held-Conserved o c r rest p e later held = record {
    taken = [];
    moved = [];
    order = ap items e ∙ sym held.rows;
    kept = held.kept ∙ sym (append-nil o.dead);
    settled = nothing;
    counted = let (d, l) = held.counted in omega arith;
    dead_counted = let (d, l) = held.counted in omega arith;
    later = later;
  }

  -- A round that goes on, and the rounds after it.
  Sent-Conserved :
      (o : Outbox) (c : Counts) (r : Row) (rest : List Row) (p : Progress) (o' : Outbox)
      (c' : Counts)
      → o.rows ≡ r ∷ rest
      → c.attempts ≤ p.totals.attempts
      → Sent post c r rest o.dead p
      → Conserved post p.outbox p.totals o' c'
      → Conserved post o c o' c'
  Sent-Conserved o c r rest p o' c' e later s more =
      let f = s.confirmed in
      record {
        taken = r ∷ more.taken;
        moved = more.moved;
        order =
            ap items e
            ∙ (λ i. (r.event_id, r.canonical_json) ∷ (ap items (sym s.rows) ∙ more.order) i);
        kept = more.kept ∙ ap (λ d. d ++ more.moved) s.kept;
        settled =
            sent
              (record {
                number = f.number;
                made = omega (arith, f.made, more.later);
                confirmed = f.confirmed;
              })
              more.settled;
        counted = omega (arith, more.counted, s.counted, s.same);
        dead_counted = omega (arith, more.dead_counted, s.same);
        later = omega (arith, later, more.later);
      }

  Buried-Conserved :
      (o : Outbox) (c : Counts) (r : Row) (rest : List Row) (p : Progress) (o' : Outbox)
      (c' : Counts)
      → o.rows ≡ r ∷ rest
      → c.attempts ≤ p.totals.attempts
      → Buried post c r rest o.dead p
      → Conserved post p.outbox p.totals o' c'
      → Conserved post o c o' c'
  Buried-Conserved o c r rest p o' c' e later b more = record {
    taken = r ∷ more.taken;
    moved = b.letter ∷ more.moved;
    order =
        ap items e ∙ (λ i. (r.event_id, r.canonical_json) ∷ (ap items (sym b.rows) ∙ more.order) i);
    kept =
        more.kept
        ∙ ap (λ d. d ++ more.moved) b.kept
        ∙ append_assoc o.dead (b.letter ∷ []) more.moved;
    settled = buried b.same_item more.settled;
    counted = omega (arith, more.counted, b.counted, b.same);
    dead_counted = omega (arith, more.dead_counted, b.counted);
    later = omega (arith, later, more.later);
  }

module _ (sha256 : String → String) (post : ℕ → String → Reply) where
  -- What the loop makes of the tables.
  abbrev Keeps : ℕ → ℕ → Outbox → Counts → Type 0
  Keeps left retries o c =
      let x = flush_loop sha256 post left retries o c in Conserved post o c x.0 x.1

  flush_loop-Conserved : (left retries : ℕ) (o : Outbox) (c : Counts) → Keeps left retries o c
  unfolding flush_loop
  flush_loop-Conserved zero retries o c = unmoved post o c
  flush_loop-Conserved (suc left) retries o c =
      go o.rows o.dead (λ p. flush_loop-Conserved left retries p.outbox p.totals)
    where
      go :
          (rows : List Row) (dead : List Dead)
          → ((p : Progress) → Keeps left retries p.outbox p.totals)
          → Keeps (suc left) retries (record { rows = rows; dead = dead }) c
      go [] dead rest = unmoved post (record { rows = []; dead = dead }) c
      go (r ∷ rows) dead rest =
          let o : Outbox = record { rows = r ∷ rows; dead = dead } in
          let p = flush_row sha256 post retries c r rows dead in
          let round = flush_row-Round sha256 post retries c r rows dead in
          elim (round.fate) [
            | inl s ↦
                rw (s.goes_on, flush_loop)
                  (Sent-Conserved post o c r rows p _ _ refl round.later s (rest p))
            | inr (inl b) ↦
                rw (b.goes_on, flush_loop)
                  (Buried-Conserved post o c r rows p _ _ refl round.later b (rest p))
            | inr (inr k) ↦
                rw (k.goes_on, flush_loop) (Held-Conserved post o c r rows p refl round.later k)
          ]

-- A flush loses no event and keeps the order: the queue before it is the events that it took off,
-- followed by the queue after it; as many were taken as are counted as delivered and as dead, the
-- dead letters only grow, and each event that was taken was confirmed by the collector in an
-- attempt of this flush that posted its text, or is one of the new dead letters, in order. This holds
-- of the tables also where an exception leaves the flush.
pub flush-Conserved :
    {F : Type 0} ⦃fl : Floats F⦄ (sha256 : String → String) (post : ℕ → String → Reply)
    (timeout : F) (max_events retries : ℤ) (backoff : F) (o o' : Outbox) (c : Counts)
    → flush sha256 post timeout max_events retries backoff o ≡ ok (o', c)
    → Conserved post o no_counts o' c
unfolding flush
flush-Conserved sha256 post timeout max_events retries backoff o o' c h =
    subst (λ x. Conserved post o no_counts x.0 x.1)
      (flush-eq-ok sha256 post timeout max_events retries backoff o (o', c) h)
      (flush_loop-Conserved sha256 post (pos_part max_events) (pos_part retries) o no_counts)
