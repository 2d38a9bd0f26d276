-- ===== src/Rescue/Outbox/Delivery.antt =====
-- codebase/rescue/outbox.py: the attempts at one row.
use veri_swarm_flight.Base.{
  ℕ, zero, suc, ◌<◌, ◌≡◌, refl, sym, ◌∙◌, ap, Bool, true, false, ◌&&◌, ◌||◌, List, [], ◌∷◌, String,
  string_eq, arith, eqb,
}
use veri_swarm_flight.Rescue.Outbox.{Row, Dead}
use veri_swarm_flight.Rescue.Outbox.Flush.{
  Reply, network_error, protocol_error, answered, Judgement, delivered, rejected, transient,
  permanent, uncaught, abandoned, judge_reply, record_attempt, note_verdict, attempt,
}

-- The collector has the event: status 200 or 202, and both flags.
abbrev pub is_confirmed : Reply → Bool
is_confirmed (network_error name) = false
is_confirmed (protocol_error message) = false
is_confirmed (uncaught e) = false
is_confirmed (answered status fine accepted duplicate error) =
    (eqb status 200 || eqb status 202) && fine && accepted

abbrev pub is_delivered : Judgement → Bool
is_delivered (delivered duplicate) = true
is_delivered (rejected reason) = false
is_delivered (transient reason) = false
is_delivered (permanent reason) = false
is_delivered (abandoned e) = false

pub judge_reply-delivered : (reply : Reply) → is_delivered (judge_reply reply) ≡ is_confirmed reply
unfolding judge_reply
judge_reply-delivered (network_error name) = refl
judge_reply-delivered (protocol_error message) = refl
judge_reply-delivered (uncaught e) = refl
judge_reply-delivered (answered status fine accepted duplicate error) = ground arith

-- What a row is sent as.
abbrev pub item : Row → String × String
item r = (r.event_id, r.canonical_json)

abbrev pub items : List Row → List (String × String)
items [] = []
items (r ∷ rows) = item r ∷ items rows

module _ (post : ℕ → String → Reply) where
  -- The collector confirmed the text in one of the first `total` attempts.
  pub record Confirmed (total : ℕ) (r : Row) : Type 0 where
    pub number : ℕ
    pub made : number < total
    pub confirmed : is_confirmed (post number r.canonical_json) ≡ true

  -- In order, each of the rows was confirmed or is the next dead letter.
  pub data Settled (total : ℕ) : List Row → List Dead → Type 0 where
    nothing : Settled total [] []
    sent :
        {r : Row} {rows : List Row} {dead : List Dead}
        → Confirmed total r
        → Settled total rows dead
        → Settled total (r ∷ rows) dead
    buried :
        {r : Row} {rows : List Row} {d : Dead} {dead : List Dead}
        → (d.event_id ≡ r.event_id) × (d.canonical_json ≡ r.canonical_json)
        → Settled total rows dead
        → Settled total (r ∷ rows) (d ∷ dead)

  -- The attempts at one row.
  pub record Tried (n : ℕ) (r : Row) (t : Row × ℕ × Judgement) : Type 0 where
    pub later : n < t.1
    pub same : item t.0 ≡ item r
    pub sure : is_delivered t.2 ≡ true → Confirmed t.1 r

  last_attempt :
      (n : ℕ) (r : Row) (v : Judgement)
      → judge_reply (post n r.canonical_json) ≡ v
      → Tried n r (note_verdict v (record_attempt r), suc n, v)
  last_attempt n r (delivered duplicate) e = record {
    later = omega arith;
    same = refl;
    sure = λ h. record {
      number = n;
      made = omega arith;
      confirmed = sym (judge_reply-delivered (post n r.canonical_json)) ∙ ap is_delivered e;
    };
  }
  last_attempt n r (rejected reason) e = record { later = omega arith; same = refl; sure = λ h. cc }
  last_attempt n r (transient reason) e = record {
    later = omega arith;
    same = refl;
    sure = λ h. cc;
  }
  last_attempt n r (permanent reason) e = record {
    later = omega arith;
    same = refl;
    sure = λ h. cc;
  }
  last_attempt n r (abandoned x) e = record { later = omega arith; same = refl; sure = λ h. cc }

  -- A row that differs in its counters only.
  again :
      (n : ℕ) (r : Row) (reason : String) (t : Row × ℕ × Judgement)
      → Tried (suc n) (note_verdict (transient reason) (record_attempt r)) t
      → Tried n r t
  again n r reason t tried = record {
    later = omega (arith, tried.later);
    same = tried.same;
    sure = λ h.
        let c = tried.sure h in
        record { number = c.number; made = c.made; confirmed = c.confirmed };
  }

  pub attempt-Tried : (left n : ℕ) (r : Row) → Tried n r (attempt post left n r)
  unfolding attempt
  attempt-Tried zero n r = last_attempt n r (judge_reply (post n r.canonical_json)) refl
  attempt-Tried (suc left) n r =
      go (judge_reply (post n r.canonical_json)) refl
        (λ reason. attempt-Tried left (suc n) (note_verdict (transient reason) (record_attempt r)))
    where
      go :
          (v : Judgement)
          → judge_reply (post n r.canonical_json) ≡ v
          → ((reason : String)
              → Tried
                  (suc n)
                  (note_verdict (transient reason) (record_attempt r))
                  (attempt post left (suc n) (note_verdict (transient reason) (record_attempt r))))
          → Tried n r (attempt post (suc left) n r)
      go (delivered duplicate) e rest =
          rw (e, attempt) (rw e (last_attempt n r (delivered duplicate) e))
      go (rejected reason) e rest = rw (e, attempt) (rw e (last_attempt n r (rejected reason) e))
      go (permanent reason) e rest = rw (e, attempt) (rw e (last_attempt n r (permanent reason) e))
      go (abandoned x) e rest = rw (e, attempt) (rw e (last_attempt n r (abandoned x) e))
      go (transient reason) e rest = rw (e, attempt) (rw e (again n r reason _ (rest reason)))
