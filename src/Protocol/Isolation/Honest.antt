-- ===== src/Protocol/Isolation/Honest.antt =====
-- codebase/protocol/peer_consensus.py: runs of `IsolationTracker.record`, from the tracker that
-- `__init__` makes.
use veri_swarm_flight.Base.{
  ℕ, ◌+◌, ◌≤◌, ◌≡◌, refl, subst, true, false, ◌&&◌, Option, List, [], ◌∷◌, ◌++◌, String, string_eq,
  arith, ◌==◌, eq_iff, if◌then◌else◌, ok,
}
use veri_swarm_flight.Base.Int.{ℤ, pos}
use veri_swarm_flight.Base.Sets.{member, distinct, of_list, member-add}
use veri_swarm_flight.Base.Dict.{get, trim, get-set_item}
use veri_swarm_flight.Base.Floats.{Floats}
use veri_swarm_flight.Protocol.Consensus.{Outcome, is_rejected}
use veri_swarm_flight.Protocol.Isolation.{
  Tracker, init_tracker, push_outcome, count_rejected, window_of, isolate, record_outcome,
}
use veri_swarm_flight.Protocol.Isolation.Laws.{IsConsistent, record_outcome-IsConsistent}

-- One call of `record`: the originator, the round's outcome and the round's number.
abbrev pub Round : Type 0
Round = String × Outcome × Option ℤ

-- None of the rounds rejected a receipt of the drone.
abbrev pub NeverRejected : String → List Round → Type 0
NeverRejected v [] = Unit {0}
NeverRejected v ((d, o, n) ∷ rounds) = ((v == d && is_rejected o) ≡ false) × NeverRejected v rounds

count_rejected-trim : (w : ℕ) (os : List Outcome) → count_rejected (trim w os) ≤ count_rejected os
unfolding trim count_rejected
count_rejected-trim w [] = omega arith
count_rejected-trim w (o ∷ os) = ground (arith, count_rejected-trim w os)

count_rejected-append :
    (os : List Outcome) (o : Outcome)
    → count_rejected (os ++ o ∷ []) ≡ count_rejected os + (if is_rejected o then 1 else 0)
unfolding count_rejected
count_rejected-append [] o = ground arith
count_rejected-append (x ∷ os) o = ground (arith, count_rejected-append os o)

module _ {F : Type 0} ⦃fl : Floats F⦄ where
  -- The calls of `record` in order.
  unfoldable pub record_run : Tracker F → List Round → Tracker F
  record_run t [] = t
  record_run t ((d, o, n) ∷ rounds) = record_run (record_outcome t d o n).0 rounds

  -- A drone without a rejected receipt in its window.
  record IsClean (v : String) (t : Tracker F) : Type 0 where
    trusted : member v t.isolated ≡ false
    clean : count_rejected (window_of t v) ≡ 0
    lenient : fl.le (fl.over (fl.of_nat 0) (fl.of_nat t.window)) t.alpha ≡ true

  -- The window of the drone stays clean.
  push_outcome-clean :
      (t : Tracker F) (v d : String) (o : Outcome)
      → (v == d && is_rejected o) ≡ false
      → IsClean v t
      → v ≡ d
      → count_rejected (trim t.window (window_of t d ++ o ∷ [])) ≡ 0
  push_outcome-clean t v d o h c same = ground (
    arith,
    count_rejected-trim t.window (window_of t d ++ o ∷ []),
    count_rejected-append (window_of t d) o,
    c.clean,
    subst (λ x. count_rejected (window_of t x) ≡ 0) same c.clean,
    eq_iff v d,
  )

  record_outcome-IsClean :
      (t : Tracker F) (v d : String) (o : Outcome) (n : Option ℤ)
      → (v == d && is_rejected o) ≡ false
      → IsClean v t
      → IsClean v (record_outcome t d o n).0
  unfolding record_outcome isolate push_outcome
  record_outcome-IsClean t v d o n h c = record {
    trusted = ground (
      arith,
      c.trusted,
      c.lenient,
      member-add d v t.isolated,
      eq_iff v d,
      push_outcome-clean t v d o h c,
    );
    clean = ground (
      arith,
      c.clean,
      eq_iff v d,
      push_outcome-clean t v d o h c,
      get-set_item d v (trim t.window (window_of t d ++ o ∷ [])) t.history,
    );
    lenient = ground (arith, c.lenient);
  }

  record_run-IsClean :
      (t : Tracker F) (v : String) (rounds : List Round)
      → NeverRejected v rounds
      → IsClean v t
      → IsClean v (record_run t rounds)
  unfolding record_run
  record_run-IsClean t v [] h c = c
  record_run-IsClean t v ((d, o, n) ∷ rounds) (h, hs) c =
      record_run-IsClean (record_outcome t d o n).0 v rounds hs
        (record_outcome-IsClean t v d o n h c)

  -- The tracker that `__init__` makes.
  abbrev fresh : List String → ℕ → F → Tracker F
  fresh roster window alpha = record {
    window = window;
    alpha = alpha;
    roster = of_list roster;
    isolated = [];
    history = [];
    events = [];
    round = pos 0;
  }

  init_tracker-fresh :
      (roster : List String) (window : ℕ) (alpha : F) (t : Tracker F)
      → init_tracker roster window alpha ≡ ok t
      → fresh roster window alpha ≡ t
  unfolding init_tracker
  init_tracker-fresh roster window alpha t start = ground arith

  fresh-IsConsistent :
      (roster : List String) (window : ℕ) (alpha : F) → IsConsistent (fresh roster window alpha)
  unfolding member get distinct
  fresh-IsConsistent roster window alpha = record {
    apart = λ v h. cc;
    windows = λ v. omega arith;
    once = refl;
    announced = λ v. refl;
  }

  fresh-IsClean :
      (roster : List String) (window : ℕ) (alpha : F) (v : String)
      → fl.le (fl.over (fl.of_nat 0) (fl.of_nat window)) alpha ≡ true
      → IsClean v (fresh roster window alpha)
  unfolding member get count_rejected
  fresh-IsClean roster window alpha v h = record { trusted = refl; clean = refl; lenient = h }

  IsConsistent-record_run :
      (t : Tracker F) (rounds : List Round) → IsConsistent t → IsConsistent (record_run t rounds)
  unfolding record_run
  IsConsistent-record_run t [] c = c
  IsConsistent-record_run t ((d, o, n) ∷ rounds) c =
      IsConsistent-record_run (record_outcome t d o n).0 rounds
        (record_outcome-IsConsistent t d o n c)

  -- A drone none of whose recorded rounds was rejected is never isolated, whatever is recorded of
  -- the others, if the threshold `alpha` is not below the rate 0 / W.
  pub NeverRejected-is_isolated :
      (roster : List String) (window : ℕ) (alpha : F) (t : Tracker F) (rounds : List Round)
      (v : String)
      → init_tracker roster window alpha ≡ ok t
      → fl.le (fl.over (fl.of_nat 0) (fl.of_nat window)) alpha ≡ true
      → NeverRejected v rounds
      → member v (record_run t rounds).isolated ≡ false
  NeverRejected-is_isolated roster window alpha t rounds v start lenient h =
      (record_run-IsClean t v rounds h (
        subst (IsClean v) (init_tracker-fresh roster window alpha t start)
          (fresh-IsClean roster window alpha v lenient))).trusted

  -- Every tracker that `__init__` makes and calls of `record` change is consistent: no isolated
  -- drone is on the roster, no window is longer than W, and there is one event for each isolated
  -- drone and none for another.
  pub record_run-IsConsistent :
      (roster : List String) (window : ℕ) (alpha : F) (t : Tracker F) (rounds : List Round)
      → init_tracker roster window alpha ≡ ok t
      → IsConsistent (record_run t rounds)
  record_run-IsConsistent roster window alpha t rounds start = IsConsistent-record_run t rounds (
      subst IsConsistent (init_tracker-fresh roster window alpha t start)
        (fresh-IsConsistent roster window alpha))
