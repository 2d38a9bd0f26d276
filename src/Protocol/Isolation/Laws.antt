-- ===== src/Protocol/Isolation/Laws.antt =====
-- codebase/protocol/peer_consensus.py: the invariant of `IsolationTracker`, and who is isolated.
use veri_swarm_flight.Base.{
  ◌≤◌, ◌≡◌, refl, true, false, ◌||◌, Option, none, some, List, [], ◌∷◌, ◌++◌, String, string_eq,
  arith, ◌==◌, eq_iff, length,
}
use veri_swarm_flight.Base.Int.{ℤ, pos, ◌+ℤ◌}
use veri_swarm_flight.Base.Sets.{member, distinct, member-add, member-discard}
use veri_swarm_flight.Base.Dict.{trim, get-set_item, length-trim-le}
use veri_swarm_flight.Base.Floats.{Floats}
use veri_swarm_flight.Protocol.Consensus.{Outcome}
use veri_swarm_flight.Protocol.Isolation.{
  IsolationEvent, Tracker, push_outcome, window_of, event_of, isolate, record_outcome,
}

-- The drones of the events, oldest first.
abbrev pub event_ids : {F : Type 0} → List (IsolationEvent F) → List String
event_ids [] = []
event_ids (e ∷ es) = e.drone_id ∷ event_ids es

module _ {F : Type 0} ⦃fl : Floats F⦄ where
  pub record IsConsistent (t : Tracker F) : Type 0 where
    pub apart : (v : String) → member v t.isolated ≡ true → member v t.roster ≡ false
    pub windows : (v : String) → length (window_of t v) ≤ t.window
    pub once : distinct (event_ids t.events) ≡ true
    pub announced : (v : String) → member v (event_ids t.events) ≡ member v t.isolated

  member-event_ids :
      (v : String) (es : List (IsolationEvent F)) (e : IsolationEvent F)
      → member v (event_ids (es ++ e ∷ [])) ≡ (member v (event_ids es) || v == e.drone_id)
  unfolding member
  member-event_ids v [] e = ground arith
  member-event_ids v (x ∷ es) e = ground (arith, member-event_ids v es e)

  distinct-event_ids :
      (es : List (IsolationEvent F)) (e : IsolationEvent F)
      → distinct (event_ids es) ≡ true
      → member e.drone_id (event_ids es) ≡ false
      → distinct (event_ids (es ++ e ∷ [])) ≡ true
  unfolding distinct member
  distinct-event_ids [] e d m = refl
  distinct-event_ids (x ∷ es) e d m = ground (
    arith,
    distinct-event_ids es e,
    member-event_ids x.drone_id es e,
    eq_iff x.drone_id e.drone_id,
    eq_iff e.drone_id x.drone_id,
  )

  -- Recording an outcome keeps the tracker consistent: no isolated drone is on the roster, no
  -- window holds more outcomes than its length, and each isolated drone has exactly one event.
  pub record_outcome-IsConsistent :
      (t : Tracker F) (d : String) (o : Outcome) (round_index : Option ℤ)
      → IsConsistent t
      → IsConsistent (record_outcome t d o round_index).0
  unfolding record_outcome isolate push_outcome
  record_outcome-IsConsistent t d o n c = record {
    apart = λ v h. ground (
      arith,
      c.apart v,
      member-add d v t.isolated,
      member-discard d v t.roster,
      eq_iff v d,
      eq_iff d v,
    );
    windows = λ v. ground (
      arith,
      c.windows v,
      get-set_item d v (trim t.window (window_of t d ++ o ∷ [])) t.history,
      length-trim-le t.window (window_of t d ++ o ∷ []),
    );
    once = ground (
      arith,
      c.once,
      c.announced d,
      distinct-event_ids t.events (
          event_of (record t { round = elim n [ none ↦ t.round +ℤ pos 1 | some k ↦ k ] }) d
            (trim t.window (window_of t d ++ o ∷ []))),
    );
    announced = λ v. ground (
      arith,
      c.announced v,
      member-add d v t.isolated,
      member-event_ids v t.events (
          event_of (record t { round = elim n [ none ↦ t.round +ℤ pos 1 | some k ↦ k ] }) d
            (trim t.window (window_of t d ++ o ∷ []))),
    );
  }
