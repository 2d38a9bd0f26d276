-- ===== src/Node/Mission/Commands.antt =====
-- codebase/node/mission.py: the commands of one step, and the rounds that hold.
use veri_swarm_flight.Base.{
  ℕ, ◌≡◌, ◌⊎◌, refl, ◌∙◌, ap, inl, true, false, Option, some, List, [], ◌∷◌, ◌++◌, String,
  string_eq, Error, ok, raise,
}
use veri_swarm_flight.Base.Floats.{Floats}
use veri_swarm_flight.Perception.Depth.{FreeSpaceCheck, Envelope}
use veri_swarm_flight.Perception.Supervisor.{Action, Authorization, hold_action}
use veri_swarm_flight.Perception.Supervisor.Laws.{IsJustified}
use veri_swarm_flight.Protocol.Json.{Library}
use veri_swarm_flight.Node.Mission.{
  HealthState, RoundOutcome, MissionStep, Supplies, Effect, round_start, round_end, log,
  depth_event, receipt_event, verdict_event, safe_action, command, Step, hold_round, failed_round,
  supervised, sense, clear_ahead_of, originate_round,
}
use veri_swarm_flight.Perception.Detector.{PerceptionResult}

-- What was sent to the vehicle.
abbrev pub commands : {F : Type 0} → List (Effect F) → List (Action F × Authorization F)
commands [] = []
commands (command a auth ∷ effects) = (a, auth) ∷ commands effects
commands (round_start n ∷ effects) = commands effects
commands (round_end n b ∷ effects) = commands effects
commands (log m ∷ effects) = commands effects
commands (depth_event c ∷ effects) = commands effects
commands (receipt_event r b ∷ effects) = commands effects
commands (verdict_event c ∷ effects) = commands effects
commands (safe_action a o k r ∷ effects) = commands effects

pub commands-append :
    {F : Type 0} (xs ys : List (Effect F)) → commands (xs ++ ys) ≡ commands xs ++ commands ys
commands-append [] ys = refl
commands-append (command a auth ∷ xs) ys = ap (λ l. (a, auth) ∷ l) (commands-append xs ys)
commands-append (round_start n ∷ xs) ys = commands-append xs ys
commands-append (round_end n b ∷ xs) ys = commands-append xs ys
commands-append (log m ∷ xs) ys = commands-append xs ys
commands-append (depth_event c ∷ xs) ys = commands-append xs ys
commands-append (receipt_event r b ∷ xs) ys = commands-append xs ys
commands-append (verdict_event c ∷ xs) ys = commands-append xs ys
commands-append (safe_action a o k r ∷ xs) ys = commands-append xs ys

module _ {F A P B : Type 0} ⦃fl : Floats F⦄ (lib : Library F B) (defaults : Envelope F)
    (min_semantic_acks : ℕ) (s : Supplies F A P) where
  -- The step returned, and sent one command, which is a hold.
  pub record Held (x : Step F) (m : MissionStep F) : Type 0 where
    pub returned : x.result ≡ ok m
    pub sent : commands x.effects ≡ (m.authorization.action, m.authorization) ∷ []
    pub refused : m.authorization.allowed ≡ false
    pub still : m.authorization.action ≡ hold_action

  -- The step returned, and sent one command, which is the released action of what was seen in this
  -- step.
  pub record Released (x : Step F) (m : MissionStep F) : Type 0 where
    pub returned : x.result ≡ ok m
    pub sent : commands x.effects ≡ (m.authorization.action, m.authorization) ∷ []
    pub allowed : m.authorization.allowed ≡ true
    pub frame : A
    pub seen : s.frame ≡ ok (some frame)
    pub health : HealthState F
    pub perception : PerceptionResult F
    pub sensed : sense lib defaults min_semantic_acks s frame ≡ ok (health, perception)
    pub clearance : FreeSpaceCheck F
    pub clear :
        clear_ahead_of lib defaults min_semantic_acks s health perception.action ≡ ok clearance
    pub pose : Option P
    pub outcome : RoundOutcome F
    pub attested :
        originate_round lib defaults min_semantic_acks s frame health perception
        ≡ ok (pose, outcome)
    pub justified :
        IsJustified lib min_semantic_acks perception.action outcome.consensus
          (supervised lib defaults min_semantic_acks s health clearance pose)
          outcome.receipt
          outcome.completed_at_ns
          m.authorization.action

  -- The manifest does not name this node: the step raises and sends nothing.
  pub record Unnamed (x : Step F) : Type 0 where
    pub error : Error
    pub missing : s.backend ≡ raise error
    pub raised : x.result ≡ raise error
    pub silent : commands x.effects ≡ []

  abbrev pub Guarded : Step F → Type 0
  Guarded x = ((m : MissionStep F) × (Held x m ⊎ Released x m)) ⊎ Unnamed x

  pub hold_round-Guarded :
      (n : ℕ) (before : List (Effect F)) (reason : String)
      → commands before ≡ []
      → Guarded (hold_round n before reason)
  unfolding hold_round
  hold_round-Guarded n before reason quiet = inl (
    _,
    inl (record {
      returned = refl;
      sent = commands-append before _ ∙ rw quiet refl;
      refused = refl;
      still = refl;
    }),
  )

  pub failed_round-Guarded :
      (n : ℕ) (before : List (Effect F)) (reason : String) (e : Error)
      → commands before ≡ []
      → Guarded (failed_round n before reason e)
  failed_round-Guarded n before reason e quiet =
      hold_round-Guarded n _ reason (commands-append before _ ∙ rw quiet refl)
