-- ===== src/Protocol/Isolation.antt =====
-- codebase/protocol/peer_consensus.py: `fallback_action` and the isolation of drones whose receipts
-- are rejected too often. The hooks `on_log` and `on_announce` only report an event.
pub mod Laws
pub mod Honest
use veri_swarm_flight.Base.{
  ℕ, ◌+◌, ◌≡◌, Bool, true, false, not, Option, none, some, List, [], ◌∷◌, ◌++◌, String, string_eq,
  ◌==◌, if◌then◌else◌, Result, ok, raise, value_error, ltb, length,
}
use veri_swarm_flight.Base.Int.{ℤ, pos, ◌+ℤ◌}
use veri_swarm_flight.Base.Sets.{member, add, discard, of_list}
use veri_swarm_flight.Base.Dict.{Dict, get, get_or, set_item, trim}
use veri_swarm_flight.Base.Floats.{Floats}
use veri_swarm_flight.Protocol.Consensus.{
  Outcome, was_accepted, was_rejected, no_quorum, is_rejected, quorum_thresholds,
}

pub data SafeAction : Type 0 where
  execute execute_degraded safe_fallback defer : SafeAction

unfoldable pub fallback_action : Outcome → ℕ → ℕ → SafeAction
fallback_action was_accepted semantic_ack_count min_semantic_acks =
    if ltb semantic_ack_count min_semantic_acks then defer else execute
fallback_action was_rejected semantic_ack_count min_semantic_acks = safe_fallback
fallback_action no_quorum semantic_ack_count min_semantic_acks = defer

pub record IsolationEvent (F : Type 0) : Type 0 where
  pub drone_id : String
  pub round_index : ℤ
  pub rejected_in_window : ℕ
  pub window : ℕ
  pub rho : F
  pub threshold : F
  pub roster_before : List String
  pub roster_after : List String

pub record Tracker (F : Type 0) : Type 0 where
  pub window : ℕ
  pub alpha : F
  pub roster : List String
  pub isolated : List String
  pub history : Dict String (List Outcome)
  pub events : List (IsolationEvent F)
  pub round : ℤ

-- `IsolationTracker.__init__`.
unfoldable pub init_tracker : {F : Type 0} → List String → ℕ → F → Result (Tracker F)
init_tracker roster window alpha =
    if ltb window 1
    then raise (value_error "window W must be >= 1")
    else ok (record {
      window = window;
      alpha = alpha;
      roster = of_list roster;
      isolated = [];
      history = [];
      events = [];
      round = pos 0;
    })

-- `deque(maxlen=window).append(outcome)`.
unfoldable pub push_outcome : ℕ → List Outcome → Outcome → List Outcome
push_outcome window hist outcome = trim window (hist ++ outcome ∷ [])

-- `sum(1 for o in hist if o is REJECTED)`.
unfoldable pub count_rejected : List Outcome → ℕ
count_rejected [] = 0
count_rejected (o ∷ os) = (if is_rejected o then 1 else 0) + count_rejected os

module _ {F : Type 0} where
  abbrev pub window_of : Tracker F → String → List Outcome
  window_of t d = get_or d [] t.history

  -- `active_voters` and `quorum_for`.
  unfoldable pub active_voters : Tracker F → String → List String
  active_voters t originator = discard originator t.roster

  unfoldable pub quorum_for : Tracker F → String → Result (ℕ × ℕ)
  unfolding active_voters
  quorum_for t originator =
      let k = length (active_voters t originator) in quorum_thresholds (if ltb 1 k then k else 1)

  -- `is_isolated`.
  abbrev pub is_isolated : Tracker F → String → Bool
  is_isolated t d = member d t.isolated

module _ {F : Type 0} ⦃fl : Floats F⦄ where
  -- The rejected part of a window.
  abbrev pub rho_of : ℕ → List Outcome → F
  rho_of window hist = fl.over (fl.of_nat (count_rejected hist)) (fl.of_nat window)

  -- `IsolationTracker.rejection_rate`.
  unfoldable pub rejection_rate : Tracker F → String → F
  rejection_rate t d = elim (window_of t d) [ [] ↦ fl.of_nat 0 | o ∷ os ↦ rho_of t.window (o ∷ os) ]

  -- The event of an isolation, at the tracker before it.
  abbrev pub event_of : Tracker F → String → List Outcome → IsolationEvent F
  event_of t originator hist = record {
    drone_id = originator;
    round_index = t.round;
    rejected_in_window = count_rejected hist;
    window = t.window;
    rho = rho_of t.window hist;
    threshold = t.alpha;
    roster_before = t.roster;
    roster_after = discard originator t.roster;
  }

  -- The branch of `record` that isolates.
  unfoldable pub isolate : Tracker F → String → List Outcome → Tracker F × Option (IsolationEvent F)
  isolate t originator hist =
      let event = event_of t originator hist in
      (
        record t {
          roster = discard originator t.roster;
          isolated = add originator t.isolated;
          events = t.events ++ event ∷ [];
        },
        some event,
      )

  -- `IsolationTracker.record`.
  unfoldable pub record_outcome :
      Tracker F → String → Outcome → Option ℤ → Tracker F × Option (IsolationEvent F)
  record_outcome t originator outcome round_index =
      let t₁ : Tracker F = record t {
        round = elim round_index [ none ↦ t.round +ℤ pos 1 | some n ↦ n ];
      } in
      if member originator t.isolated
      then (t₁, none)
      else let hist = push_outcome t.window (window_of t originator) outcome in
        let t₂ : Tracker F = record t₁ { history = set_item originator hist t.history } in
        if fl.le (rho_of t.window hist) t.alpha then (t₂, none) else isolate t₂ originator hist
