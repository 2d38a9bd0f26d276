-- ===== src/Rescue/Outbox/Requests.antt =====
-- codebase/rescue/outbox.py: any run of events that are queued and flushes.
use veri_swarm_flight.Base.{
  ℕ, ◌≡◌, ◌≢◌, ◌⊎◌, refl, sym, subst, ◌∙◌, ap, inl, inr, true, false, none, some, List, [], ◌∷◌,
  ◌++◌, String, string_eq, ◌==◌, eq_refl, eq_iff, test-false, arith, Bool-cases, Option-cases,
  Result-cases, Result, ok, raise,
}
use veri_swarm_flight.Base.Int.{ℤ}
use veri_swarm_flight.Base.Floats.{Floats}
use veri_swarm_flight.Rescue.Outbox.{
  Row, Outbox, EnqueueResult, find_row, find_dead, reused, enqueue,
}
use veri_swarm_flight.Rescue.Outbox.Flush.{Reply, flush}
use veri_swarm_flight.Rescue.Outbox.Unique.{find_row-append}

-- A producer queues an event, by its identity and text, or a flush is made.
pub data Request (F : Type 0) : Type 0 where
  puts : String → String → Request F
  flushes : (ℕ → String → Reply) → F → ℤ → ℤ → F → Request F

abbrev new_row : (String → String) → String → String → Row
new_row sha256 id json = record {
  event_id = id;
  canonical_json = json;
  content_sha256 = sha256 json;
  attempts = 0;
  last_error = none;
}

abbrev enlarged : (String → String) → Outbox → String → String → Outbox
enlarged sha256 o id json = record { rows = o.rows ++ new_row sha256 id json ∷ []; dead = o.dead }

-- An enqueue that returns met the same event in the queue, or a new identity.
enqueue_inv :
    (sha256 : String → String) (o o' : Outbox) (id json : String) (res : EnqueueResult)
    → enqueue sha256 o id json ≡ ok (o', res)
    → ((find_row id o.rows ≡ some json) × (o ≡ o'))
      ⊎ ((find_row id o.rows ≡ none)
          × (find_dead id o.dead ≡ none)
          × (enlarged sha256 o id json ≡ o'))
unfolding enqueue
enqueue_inv sha256 o o' id json res h = elim (Option-cases (find_row id o.rows)) [
  | inr (existing, found) ↦ elim (Bool-cases (existing == json)) [
    | inr differ ↦
        let refused : ◌≡◌ {A = Result (Outbox × EnqueueResult)} reused (ok (o', res)) =
          sym (rw (found, differ, enqueue) refl) ∙ h in
        cc
    | inl same ↦
        let kept : ◌≡◌ {A = Result (Outbox × EnqueueResult)}
            (ok (o, record { accepted = false; duplicate = true; event_id = id })) (ok (o', res)) =
          sym (rw (found, same, enqueue) refl) ∙ h in
        inl (found ∙ ap some ((eq_iff existing json).0 same), outboxes kept)
  ]
  | inl new ↦ elim (Option-cases (find_dead id o.dead)) [
    | inr (dead, found) ↦ absurd (ground (arith, new, found))
    | inl alive ↦
        let grown : ◌≡◌ {A = Result (Outbox × EnqueueResult)}
            (ok (
              enlarged sha256 o id json,
              record { accepted = true; duplicate = false; event_id = id },
            ))
            (ok (o', res)) =
          sym (rw (new, alive, enqueue) refl) ∙ h in
        inr (new, alive, outboxes grown)
  ]
]
  where
    outboxes :
        {a b : Outbox × EnqueueResult}
        → ◌≡◌ {A = Result (Outbox × EnqueueResult)} (ok a) (ok b)
        → a.0 ≡ b.0
    outboxes {a} {b} e = let p : a ≡ b = cc in ap (λ x. x.0) p

-- What was queued is found.
enqueue-find_row :
    (sha256 : String → String) (o o' : Outbox) (id json : String) (res : EnqueueResult)
    → enqueue sha256 o id json ≡ ok (o', res)
    → find_row id o'.rows ≡ some json
enqueue-find_row sha256 o o' id json res h = elim (enqueue_inv sha256 o o' id json res h) [
  | inl (found, same) ↦ subst (λ x. find_row id x.rows ≡ some json) same found
  | inr (new, alive, grown) ↦
      subst (λ x. find_row id x.rows ≡ some json) grown
        (find_row-append id o.rows (new_row sha256 id json) new ∙ rw (eq_refl id) refl)
]

-- An event that waits stays where it is when others are queued.
find_row-kept :
    (id : String) (rows : List Row) (r : Row) (json : String)
    → find_row id rows ≡ some json
    → find_row id (rows ++ r ∷ []) ≡ some json
unfolding find_row
find_row-kept id [] r json h = cc
find_row-kept id (x ∷ rows) r json h = ground (arith, find_row-kept id rows r json)

enqueue-keeps :
    (sha256 : String → String) (o o' : Outbox) (id json other text : String) (res : EnqueueResult)
    → enqueue sha256 o other text ≡ ok (o', res)
    → find_row id o.rows ≡ some json
    → find_row id o'.rows ≡ some json
enqueue-keeps sha256 o o' id json other text res h waits =
    elim (enqueue_inv sha256 o o' other text res h) [
      | inl (found, same) ↦ subst (λ x. find_row id x.rows ≡ some json) same waits
      | inr (new, alive, grown) ↦
          subst (λ x. find_row id x.rows ≡ some json) grown
            (find_row-kept id o.rows (new_row sha256 other text) json waits)
    ]

-- The outbox after further events were queued or refused.
unfoldable pub queue_all : (String → String) → Outbox → List (String × String) → Outbox
queue_all sha256 o [] = o
queue_all sha256 o ((id, json) ∷ events) = elim (enqueue sha256 o id json) [
  | raise e ↦ queue_all sha256 o events
  | ok (o', res) ↦ queue_all sha256 o' events
]

queue_all-keeps :
    (sha256 : String → String) (o : Outbox) (events : List (String × String)) (id json : String)
    → find_row id o.rows ≡ some json
    → find_row id (queue_all sha256 o events).rows ≡ some json
unfolding queue_all
queue_all-keeps sha256 o [] id json waits = waits
queue_all-keeps sha256 o ((other, text) ∷ events) id json waits =
    elim (Result-cases (enqueue sha256 o other text)) [
      | inr (e, refused) ↦ rw (refused, queue_all) (queue_all-keeps sha256 o events id json waits)
      | inl ((o', res), done) ↦
          rw (done, queue_all)
            (queue_all-keeps sha256 o' events id json
              (enqueue-keeps sha256 o o' id json other text res done waits))
    ]

-- Until a flush is made, an event that was queued is not queued again, whatever other events are
-- queued or refused after it: the same text is a duplicate that changes nothing, and another text
-- under the same identity is refused.
pub enqueue_again :
    (sha256 : String → String) (o o' : Outbox) (id json different : String) (res : EnqueueResult)
    (events : List (String × String))
    → enqueue sha256 o id json ≡ ok (o', res)
    → different ≢ json
    → let later = queue_all sha256 o' events in
      (enqueue sha256 later id json
        ≡ ok (later, record { accepted = false; duplicate = true; event_id = id }))
      × (enqueue sha256 later id different ≡ reused)
unfolding enqueue
enqueue_again sha256 o o' id json different res events h differ =
    let found =
      queue_all-keeps sha256 o' events id json (enqueue-find_row sha256 o o' id json res h) in
    let apart : (json == different) ≡ false = test-false json different (λ e. differ (sym e)) in
    (rw (found, eq_refl json, enqueue) refl, rw (found, apart, enqueue) refl)

module _ {F : Type 0} ⦃fl : Floats F⦄ (sha256 : String → String) where
  -- The outbox after a run of requests. An `enqueue` that raises changes nothing, nor does a flush
  -- whose arguments are refused; one that an exception leaves later keeps what it had stored.
  unfoldable pub serve : Outbox → List (Request F) → Outbox
  serve o [] = o
  serve o (puts id json ∷ requests) = elim (enqueue sha256 o id json) [
    | raise e ↦ serve o requests
    | ok (o', res) ↦ serve o' requests
  ]
  serve o (flushes post timeout max_events retries backoff ∷ requests) =
      elim (flush sha256 post timeout max_events retries backoff o) [
        | raise e ↦ serve o requests
        | ok (o', c) ↦ serve o' requests
      ]
