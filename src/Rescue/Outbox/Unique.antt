-- ===== src/Rescue/Outbox/Unique.antt =====
-- codebase/rescue/outbox.py: an identity is in one of the tables at most, so no statement of a flush
-- fails; and an event is queued once.
use veri_swarm_flight.Base.{
  ℕ, zero, suc, ◌≡◌, ◌⊎◌, ◌∙◌, refl, sym, subst, ap, inl, inr, true, false, some, Error, Option,
  none, some, List, [], ◌∷◌, ◌++◌, String, string_eq, ◌==◌, eq_iff, arith, Bool-cases, ok,
  if◌then◌else◌,
}
use veri_swarm_flight.Rescue.Outbox.{Row, Dead, find_row, find_dead}
use veri_swarm_flight.Rescue.Outbox.Flush.{
  Reply, network_error, protocol_error, uncaught, answered, abandoned, judge_reply, note_verdict,
  record_attempt, Judgement, delivered, rejected, transient, permanent, dead_row,
  move_to_dead_letter, Counts, Progress, attempt, settle, flush_row, flush_loop,
}
use veri_swarm_flight.Rescue.Outbox.Delivery.{item, attempt-Tried}

-- The identities of the rows differ from each other and from those of the dead letters.
abbrev pub AllFresh : List Row → List Dead → Type 0
AllFresh [] dead = Unit {0}
AllFresh (r ∷ rows) dead =
    (find_row r.event_id rows ≡ none) × (find_dead r.event_id dead ≡ none) × AllFresh rows dead

pub find_row-append :
    (id : String) (rows : List Row) (r : Row)
    → find_row id rows ≡ none
    → find_row id (rows ++ r ∷ []) ≡ (if id == r.event_id then some r.canonical_json else none)
unfolding find_row
find_row-append id [] r h = refl
find_row-append id (x ∷ rows) r h = ground (arith, find_row-append id rows r)

find_dead-append :
    (id : String) (dead : List Dead) (d : Dead)
    → find_dead id dead ≡ none
    → (id == d.event_id) ≡ false
    → find_dead id (dead ++ d ∷ []) ≡ none
unfolding find_dead
find_dead-append id [] d h n = ground arith
find_dead-append id (x ∷ dead) d h n = ground (arith, find_dead-append id dead d)

-- A row with a new identity at the end.
pub AllFresh-append :
    (rows : List Row) (dead : List Dead) (r : Row)
    → AllFresh rows dead
    → find_row r.event_id rows ≡ none
    → find_dead r.event_id dead ≡ none
    → AllFresh (rows ++ r ∷ []) dead
unfolding find_row
AllFresh-append [] dead r fresh new alive = (refl, alive, tt)
AllFresh-append (x ∷ rows) dead r (single, apart, fresh) new alive =
    let differ : (x.event_id == r.event_id) ≡ false =
      ground (arith, eq_iff x.event_id r.event_id, eq_iff r.event_id x.event_id) in
    (
      rw (find_row-append x.event_id rows r single) (rw differ refl),
      apart,
      AllFresh-append rows dead r fresh (ground arith) alive,
    )

-- The first row becomes the newest dead letter.
AllFresh-move :
    (rows : List Row) (dead : List Dead) (d : Dead)
    → find_row d.event_id rows ≡ none
    → AllFresh rows dead
    → AllFresh rows (dead ++ d ∷ [])
unfolding find_row
AllFresh-move [] dead d h fresh = tt
AllFresh-move (x ∷ rows) dead d h (single, apart, fresh) =
    let differ : (x.event_id == d.event_id) ≡ false =
      ground (arith, eq_iff x.event_id d.event_id, eq_iff d.event_id x.event_id) in
    (
      single,
      find_dead-append x.event_id dead d apart differ,
      AllFresh-move rows dead d (ground arith) fresh,
    )

-- The flush has no exception, or one that a reply brought.
abbrev pub IsUnfailed : (ℕ → String → Reply) → Counts → Type 0
IsUnfailed post c =
    (c.failure ≡ none)
    ⊎ ((n : ℕ) × (json : String) × (e : Error) × (post n json ≡ uncaught e) × (c.failure ≡ some e))

moved-Returns :
    (c : Counts) (n : ℕ) (status : Option ℕ) (reason : String) (r : Row) (rest : List Row)
    (dead : List Dead)
    → AllFresh (r ∷ rest) dead
    → (moved : List Dead) × (move_to_dead_letter status reason r dead ≡ ok moved)
      × AllFresh rest moved
unfolding move_to_dead_letter
moved-Returns c n status reason r rest dead (single, apart, fresh) = (
  dead ++ dead_row status reason r ∷ [],
  rw (apart, move_to_dead_letter) refl,
  AllFresh-move rest dead (dead_row status reason r) single fresh,
)

-- Only the identity of a row counts.
AllFresh-item :
    (r r' : Row) (rest : List Row) (dead : List Dead)
    → item r' ≡ item r
    → AllFresh (r ∷ rest) dead
    → AllFresh (r' ∷ rest) dead
AllFresh-item r r' rest dead same (single, apart, fresh) =
    let e : r.event_id ≡ r'.event_id = sym (ap (λ x. x.0) same) in
    (
      subst (λ id. find_row id rest ≡ none) e single,
      subst (λ id. find_dead id dead ≡ none) e apart,
      fresh,
    )

judge_reply-abandoned :
    (reply : Reply) (e : Error) → judge_reply reply ≡ abandoned e → reply ≡ uncaught e
unfolding judge_reply
judge_reply-abandoned (network_error name) e h = cc
judge_reply-abandoned (protocol_error message) e h = cc
judge_reply-abandoned (uncaught x) e h = ap uncaught (judged h)
  where
    judged : {x y : Error} → ◌≡◌ {A = Judgement} (abandoned x) (abandoned y) → x ≡ y
    judged h = cc
judge_reply-abandoned (answered status fine accepted duplicate error) e h = absurd (ground arith)

module _ (post : ℕ → String → Reply) where
  attempt-abandoned :
      (left n : ℕ) (r : Row) (e : Error)
      → (attempt post left n r).2 ≡ abandoned e
      → (m : ℕ) × (json : String) × (post m json ≡ uncaught e)
  unfolding attempt
  attempt-abandoned zero n r e h = (n, r.canonical_json, judge_reply-abandoned _ e h)
  attempt-abandoned (suc left) n r e h = go (judge_reply (post n r.canonical_json)) refl (λ reason.
      attempt-abandoned left (suc n) (note_verdict (transient reason) (record_attempt r)) e)
    where
      go :
          (v : Judgement)
          → judge_reply (post n r.canonical_json) ≡ v
          → ((reason : String)
              → (attempt post left (suc n) (note_verdict (transient reason) (record_attempt r))).2
                ≡ abandoned e
              → (m : ℕ) × (json : String) × (post m json ≡ uncaught e))
          → (m : ℕ) × (json : String) × (post m json ≡ uncaught e)
      go (transient reason) at rest = rest reason (sym (rw (at, attempt) (rw at refl)) ∙ h)
      go (delivered duplicate) at rest =
          let w : delivered duplicate ≡ abandoned e = sym (rw (at, attempt) refl) ∙ h in cc
      go (rejected reason) at rest =
          let w : rejected reason ≡ abandoned e = sym (rw (at, attempt) refl) ∙ h in cc
      go (permanent reason) at rest =
          let w : permanent reason ≡ abandoned e = sym (rw (at, attempt) refl) ∙ h in cc
      go (abandoned x) at rest =
          let w : abandoned x ≡ abandoned e = sym (rw (at, attempt) refl) ∙ h in
          (n, r.canonical_json, judge_reply-abandoned _ e (at ∙ w))

  -- The identities stay apart, and no statement failed.
  abbrev Returns : Progress → Type 0
  Returns p =
      AllFresh p.outbox.rows p.outbox.dead
      × IsUnfailed post p.totals
      × (p.goes_on ≡ true → p.totals.failure ≡ none)

  settle-Returns :
      (c : Counts) (rest : List Row) (dead : List Dead) (t : Row × ℕ × Judgement)
      → AllFresh (t.0 ∷ rest) dead
      → ((e : Error) → t.2 ≡ abandoned e → (m : ℕ) × (json : String) × (post m json ≡ uncaught e))
      → c.failure ≡ none
      → Returns (settle c rest dead t)
  unfolding settle
  settle-Returns c rest dead (r, n, delivered d) (single, apart, fresh) source clean =
      (fresh, inl clean, λ h. clean)
  settle-Returns c rest dead (r, n, transient reason) fresh source clean =
      (fresh, inl clean, λ h. clean)
  settle-Returns c rest dead (r, n, permanent reason) fresh source clean =
      (fresh, inl clean, λ h. clean)
  settle-Returns c rest dead (r, n, rejected reason) fresh source clean =
      let (moved, e, apart) = moved-Returns c n (some 409) reason r rest dead fresh in
      rw (e, settle) (apart, inl clean, λ h. clean)
  settle-Returns c rest dead (r, n, abandoned e) fresh source clean =
      let (m, json, at) = source e refl in (fresh, inr (m, json, e, at, refl), λ h. cc)

module _ (sha256 : String → String) (post : ℕ → String → Reply) where
  flush_row-Returns :
      (retries : ℕ) (c : Counts) (r : Row) (rest : List Row) (dead : List Dead)
      → AllFresh (r ∷ rest) dead
      → c.failure ≡ none
      → Returns post (flush_row sha256 post retries c r rest dead)
  unfolding flush_row settle
  flush_row-Returns retries c r rest dead fresh clean =
      elim (Bool-cases (sha256 r.canonical_json == r.content_sha256)) [
        | inl intact ↦
            let t = attempt post retries c.attempts r in
            let tried = attempt-Tried post retries c.attempts r in
            rw (intact, flush_row)
              (settle-Returns post c rest dead t (AllFresh-item r t.0 rest dead tried.same fresh)
                (λ e h. attempt-abandoned post retries c.attempts r e h) clean)
        | inr damaged ↦
            let (moved, e, apart) =
              moved-Returns c c.attempts none "outbox_content_hash_mismatch" r rest dead fresh in
            rw (damaged, e, flush_row) (apart, inl clean, λ h. clean)
      ]

  pub flush_loop-Returns :
      (left retries : ℕ) (rows : List Row) (dead : List Dead) (c : Counts)
      → AllFresh rows dead
      → c.failure ≡ none
      → let x = flush_loop sha256 post left retries (record { rows = rows; dead = dead }) c in
        AllFresh x.0.rows x.0.dead × IsUnfailed post x.1
  unfolding flush_loop
  flush_loop-Returns zero retries rows dead c fresh clean = (fresh, inl clean)
  flush_loop-Returns (suc left) retries [] dead c fresh clean = (fresh, inl clean)
  flush_loop-Returns (suc left) retries (r ∷ rows) dead c fresh clean =
      let p = flush_row sha256 post retries c r rows dead in
      let (apart, unfailed, still) = flush_row-Returns retries c r rows dead fresh clean in
      elim (Bool-cases p.goes_on) [
        | inr stops ↦ rw (stops, flush_loop) (apart, unfailed)
        | inl on ↦
            rw (on, flush_loop)
              (flush_loop-Returns left retries p.outbox.rows p.outbox.dead p.totals apart
                (still on))
      ]
