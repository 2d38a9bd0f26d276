-- ===== src/Rescue/Outbox/Rounds.antt =====
-- codebase/rescue/outbox.py: one round of the loop of `flush`.
use veri_swarm_flight.Base.{
  ℕ, suc, ◌≤◌, ◌≡◌, ◌⊎◌, refl, ◌∙◌, ap, inl, inr, true, false, Option, none, some, List, [], ◌∷◌,
  ◌++◌, String, string_eq, ◌==◌, arith, Bool-cases, Result-cases, ok,
}
use veri_swarm_flight.Base.Int.{ℤ, pos_part}
use veri_swarm_flight.Base.Floats.{Floats}
use veri_swarm_flight.Rescue.Outbox.Delivery.{item, items, Confirmed, Tried, attempt-Tried}
use veri_swarm_flight.Rescue.Outbox.{Row, Dead, Outbox}
use veri_swarm_flight.Rescue.Outbox.Flush.{
  Reply, Judgement, delivered, rejected, transient, permanent, dead_row, buried_row, failed_row,
  abandoned, move_to_dead_letter, Counts, Progress, attempt, settle, flush_row, flush_loop, flush,
  no_counts,
}

module _ (post : ℕ → String → Reply) where
  -- The row was delivered, or is the newest dead letter, or is the first one still.
  pub record Sent (c : Counts) (r : Row) (rest : List Row) (dead : List Dead) (p : Progress)
      : Type 0 where
    pub goes_on : p.goes_on ≡ true
    pub rows : p.outbox.rows ≡ rest
    pub kept : p.outbox.dead ≡ dead
    pub counted : p.totals.delivered ≡ suc c.delivered
    pub same : p.totals.dead_lettered ≡ c.dead_lettered
    pub confirmed : Confirmed post p.totals.attempts r

  pub record Buried (c : Counts) (r : Row) (rest : List Row) (dead : List Dead) (p : Progress)
      : Type 0 where
    pub goes_on : p.goes_on ≡ true
    pub rows : p.outbox.rows ≡ rest
    pub letter : Dead
    pub same_item : (letter.event_id ≡ r.event_id) × (letter.canonical_json ≡ r.canonical_json)
    pub kept : p.outbox.dead ≡ dead ++ letter ∷ []
    pub counted : p.totals.dead_lettered ≡ suc c.dead_lettered
    pub same : p.totals.delivered ≡ c.delivered

  pub record Held (c : Counts) (r : Row) (rest : List Row) (dead : List Dead) (p : Progress)
      : Type 0 where
    pub goes_on : p.goes_on ≡ false
    pub rows : items p.outbox.rows ≡ items (r ∷ rest)
    pub kept : p.outbox.dead ≡ dead
    pub counted : (p.totals.delivered ≡ c.delivered) × (p.totals.dead_lettered ≡ c.dead_lettered)

  -- One round of the loop.
  pub record Round (c : Counts) (r : Row) (rest : List Row) (dead : List Dead) (p : Progress)
      : Type 0 where
    pub later : c.attempts ≤ p.totals.attempts
    pub fate : Sent c r rest dead p ⊎ Buried c r rest dead p ⊎ Held c r rest dead p

  -- The first row is still there, in a progress that stops.
  held_back :
      (c : Counts) (r r' : Row) (rest : List Row) (dead : List Dead) (p : Progress)
      → item r' ≡ item r
      → p.outbox ≡ record { rows = r' ∷ rest; dead = dead }
      → (p.totals.delivered ≡ c.delivered) × (p.totals.dead_lettered ≡ c.dead_lettered)
      → p.goes_on ≡ false
      → c.attempts ≤ p.totals.attempts
      → Round c r rest dead p
  held_back c r r' rest dead p same at counted stops later = record {
    later = later;
    fate = inr (
        inr (record {
          goes_on = stops;
          rows = ap (λ o. items o.rows) at ∙ (λ i. same i ∷ items rest);
          kept = ap (λ o. o.dead) at;
          counted = counted;
        }));
  }

  moved_Round :
      (c : Counts) (r r' : Row) (rest : List Row) (dead moved : List Dead) (status : Option ℕ)
      (n : ℕ) (reason : String)
      → item r' ≡ item r
      → move_to_dead_letter status reason r' dead ≡ ok moved
      → c.attempts ≤ n
      → Round c r rest dead (buried_row c n rest moved)
  unfolding move_to_dead_letter
  moved_Round c r r' rest dead moved status n reason same e later = record {
    later = later;
    fate = inr (
        inl (record {
          goes_on = refl;
          rows = refl;
          letter = dead_row status reason r';
          same_item = (ap (λ x. x.0) same, ap (λ x. x.1) same);
          kept = ground arith;
          counted = omega arith;
          same = refl;
        }));
  }

  settle-Round :
      (c : Counts) (r : Row) (rest : List Row) (dead : List Dead) (t : Row × ℕ × Judgement)
      → Tried post c.attempts r t
      → Round c r rest dead (settle c rest dead t)
  unfolding settle
  settle-Round c r rest dead (r', n, delivered duplicate) tried = record {
    later = omega (arith, tried.later);
    fate = inl (record {
      goes_on = refl;
      rows = refl;
      kept = refl;
      counted = omega arith;
      same = refl;
      confirmed = tried.sure refl;
    });
  }
  settle-Round c r rest dead (r', n, rejected reason) tried =
      elim (Result-cases (move_to_dead_letter (some 409) reason r' dead)) [
        | inr (e, failed) ↦
            rw (failed, settle)
              (held_back c r r' rest dead (failed_row c n r' rest dead e) tried.same refl
                (refl, refl) refl (omega (arith, tried.later)))
        | inl (moved, e) ↦
            rw (e, settle)
              (moved_Round c r r' rest dead moved (some 409) n reason tried.same e
                (omega (arith, tried.later)))
      ]
  settle-Round c r rest dead (r', n, transient reason) tried =
      held_back c r r' rest dead _ tried.same refl (refl, refl) refl (omega (arith, tried.later))
  settle-Round c r rest dead (r', n, permanent reason) tried =
      held_back c r r' rest dead _ tried.same refl (refl, refl) refl (omega (arith, tried.later))
  settle-Round c r rest dead (r', n, abandoned x) tried =
      held_back c r r' rest dead _ tried.same refl (refl, refl) refl (omega (arith, tried.later))

module _ (sha256 : String → String) (post : ℕ → String → Reply) where
  pub flush_row-Round :
      (retries : ℕ) (c : Counts) (r : Row) (rest : List Row) (dead : List Dead)
      → Round post c r rest dead (flush_row sha256 post retries c r rest dead)
  unfolding flush_row
  flush_row-Round retries c r rest dead =
      elim (Bool-cases (sha256 r.canonical_json == r.content_sha256)) [
        | inl intact ↦
            rw (intact, flush_row)
              (settle-Round post c r rest dead (attempt post retries c.attempts r)
                (attempt-Tried post retries c.attempts r))
        | inr damaged ↦
            elim (Result-cases (move_to_dead_letter none "outbox_content_hash_mismatch" r dead)) [
              | inr (e, failed) ↦
                  rw (damaged, failed, flush_row)
                    (held_back post c r r rest dead (failed_row c c.attempts r rest dead e) refl
                      refl (refl, refl) refl (omega arith))
              | inl (moved, e) ↦
                  rw (damaged, e, flush_row)
                    (moved_Round post c r r rest dead moved none c.attempts
                      "outbox_content_hash_mismatch" refl e (omega arith))
            ]
      ]

pub flush-eq-ok :
    {F : Type 0} ⦃fl : Floats F⦄ (sha256 : String → String) (post : ℕ → String → Reply)
    (timeout : F) (max_events retries : ℤ) (backoff : F) (o : Outbox) (x : Outbox × Counts)
    → flush sha256 post timeout max_events retries backoff o ≡ ok x
    → flush_loop sha256 post (pos_part max_events) (pos_part retries) o no_counts ≡ x
unfolding flush
flush-eq-ok sha256 post timeout max_events retries backoff o x h = ground (arith, h)
