-- ===== src/Node/Mission/Guard.antt =====
-- codebase/node/mission.py: what one step of the mission may send to the vehicle.
use veri_swarm_flight.Base.{
  ℕ, ◌≡◌, refl, sym, ◌∙◌, subst, inl, inr, Option, none, some, List, [], ◌∷◌, ◌++◌, String,
  string_eq, Bool-cases, Result-cases, ok, raise,
}
use veri_swarm_flight.Base.Floats.{Floats}
use veri_swarm_flight.Perception.Depth.{FreeSpaceCheck, Envelope}
use veri_swarm_flight.Perception.Supervisor.{Authorization, Health, authorize}
use veri_swarm_flight.Perception.Supervisor.Laws.{IsJustified, authorize-IsJustified}
use veri_swarm_flight.Protocol.Json.{Library}
use veri_swarm_flight.Node.Mission.{
  HealthState, RoundOutcome, Supplies, Effect, round_start, depth_event, hold_round, failed_round,
  is_normalized, supervised, release, finished_round, sense, clear_ahead_of, originate_round,
  attest, measure, perceive, step_round,
}
use veri_swarm_flight.Perception.Detector.{PerceptionResult}
use veri_swarm_flight.Node.Mission.Commands.{
  commands, commands-append, Guarded, hold_round-Guarded, failed_round-Guarded,
}

module _ {F A P B : Type 0} ⦃fl : Floats F⦄ (lib : Library F B) (defaults : Envelope F)
    (min_semantic_acks : ℕ) (s : Supplies F A P) where
  module _ (n : ℕ) (before : List (Effect F)) (quiet : commands before ≡ []) (frame : A)
      (seen : s.frame ≡ ok (some frame)) (h : HealthState F) (p : PerceptionResult F)
      (sensed : sense lib defaults min_semantic_acks s frame ≡ ok (h, p)) where
    abbrev decided : Health F → RoundOutcome F → Authorization F
    decided health o =
        authorize lib min_semantic_acks p.action o.consensus health (some o.receipt)
          o.completed_at_ns

    finished-Guarded :
        (clearance : FreeSpaceCheck F) (pose : Option P) (o : RoundOutcome F) (backend : String)
        → clear_ahead_of lib defaults min_semantic_acks s h p.action ≡ ok clearance
        → originate_round lib defaults min_semantic_acks s frame h p ≡ ok (pose, o)
        → Guarded lib defaults min_semantic_acks s (
            finished_round n before p.action o
              (decided (supervised lib defaults min_semantic_acks s h clearance pose) o)
              backend)
    finished-Guarded clearance pose o backend clear attested =
        let health = supervised lib defaults min_semantic_acks s h clearance pose in
        elim (authorize-IsJustified lib min_semantic_acks p.action o.consensus health
          (some o.receipt) o.completed_at_ns) [
            | inl (refused, still) ↦ inl (
              _,
              inl (record {
                returned = refl;
                sent = commands-append before _ ∙ rw quiet refl;
                refused = refused;
                still = still;
              }),
            )
            | inr (allowed, (r, found, j)) ↦
                let same : r ≡ o.receipt = cc in
                inl (
                  _,
                  inr (record {
                    returned = refl;
                    sent = commands-append before _ ∙ rw quiet refl;
                    allowed = allowed;
                    frame = frame;
                    seen = seen;
                    health = h;
                    perception = p;
                    sensed = sensed;
                    clearance = clearance;
                    clear = clear;
                    pose = pose;
                    outcome = o;
                    attested = attested;
                    justified =
                        subst
                          (λ x.
                            IsJustified lib min_semantic_acks p.action o.consensus health x
                              o.completed_at_ns (decided health o).action)
                          same j;
                  }),
                )
          ]

    release-Guarded :
        (clearance : FreeSpaceCheck F) (pose : Option P) (o : RoundOutcome F)
        → clear_ahead_of lib defaults min_semantic_acks s h p.action ≡ ok clearance
        → originate_round lib defaults min_semantic_acks s frame h p ≡ ok (pose, o)
        → Guarded lib defaults min_semantic_acks s (
            release lib defaults min_semantic_acks s n before p.action
              (supervised lib defaults min_semantic_acks s h clearance pose)
              o)
    unfolding release
    release-Guarded clearance pose o clear attested =
        let health = supervised lib defaults min_semantic_acks s h clearance pose in
        elim (Result-cases s.backend) [
          | inr (e, missing) ↦
              let same : release lib defaults min_semantic_acks s n before p.action health o
                  ≡ record { effects = before; result = raise e } =
                rw (missing, release) refl in
              subst (Guarded lib defaults min_semantic_acks s) (sym same)
                (inr (record { error = e; missing = missing; raised = refl; silent = quiet }))
          | inl (backend, named) ↦
              let same : release lib defaults min_semantic_acks s n before p.action health o
                  ≡ finished_round n before p.action o (decided health o) backend =
                rw (named, release) refl in
              subst (Guarded lib defaults min_semantic_acks s) (sym same)
                (finished-Guarded clearance pose o backend clear attested)
        ]

    attest-Guarded :
        (clearance : FreeSpaceCheck F)
        → clear_ahead_of lib defaults min_semantic_acks s h p.action ≡ ok clearance
        → Guarded lib defaults min_semantic_acks s
            (attest lib defaults min_semantic_acks s n before frame h p clearance)
    unfolding attest
    attest-Guarded clearance clear =
        elim (Result-cases (originate_round lib defaults min_semantic_acks s frame h p)) [
          | inr (e, failed) ↦
              rw (failed, attest)
                (failed_round-Guarded lib defaults min_semantic_acks s n before
                  "attestation_failure" e quiet)
          | inl ((pose, o), attested) ↦
              rw (attested, attest) (release-Guarded clearance pose o clear attested)
        ]

  measure-Guarded :
      (n : ℕ) (before : List (Effect F)) (frame : A) (h : HealthState F) (p : PerceptionResult F)
      → commands before ≡ []
      → s.frame ≡ ok (some frame)
      → sense lib defaults min_semantic_acks s frame ≡ ok (h, p)
      → Guarded lib defaults min_semantic_acks s
          (measure lib defaults min_semantic_acks s n before frame h p)
  unfolding measure
  measure-Guarded n before frame h p quiet seen sensed =
      elim (Bool-cases (is_normalized p.action)) [
        | inr wild ↦
            rw (wild, measure)
              (hold_round-Guarded lib defaults min_semantic_acks s n before "invalid_action" quiet)
        | inl normal ↦
            elim (Result-cases (clear_ahead_of lib defaults min_semantic_acks s h p.action)) [
              | inr (e, failed) ↦
                  rw (normal, failed, measure)
                    (failed_round-Guarded lib defaults min_semantic_acks s n before "depth_failure"
                      e quiet)
              | inl (clearance, clear) ↦
                  rw (normal, clear, measure)
                    (attest-Guarded n (before ++ depth_event clearance ∷ [])
                      (commands-append before _ ∙ rw quiet refl) frame seen h p sensed clearance
                      clear)
            ]
      ]

  -- A step of the mission sends at most one command, and it fails closed. Either the step returns
  -- and has sent exactly the action of its authorization: the hold action, if that does not allow
  -- one; and if it does, the frame, the health, the detection, the clearance and the attestation of
  -- this very step were all obtained without an error, and the supervisor's evidence for the action
  -- holds of them. Or the manifest does not name this node, and the step raises that error and has
  -- sent nothing.
  pub step_round-Guarded :
      (n : ℕ)
      → Guarded lib defaults min_semantic_acks s (step_round lib defaults min_semantic_acks s n)
  unfolding step_round perceive
  step_round-Guarded n = elim (Result-cases s.frame) [
    | inr (e, failed) ↦
        let same : step_round lib defaults min_semantic_acks s n
            ≡ failed_round n (round_start n ∷ []) "frame_source_failure" e =
          rw (failed, step_round) refl in
        subst (Guarded lib defaults min_semantic_acks s) (sym same) (
          failed_round-Guarded lib defaults min_semantic_acks s n (round_start n ∷ [])
            "frame_source_failure" e refl)
    | inl (none, absent) ↦
        let same : step_round lib defaults min_semantic_acks s n
            ≡ hold_round n (round_start n ∷ []) "frame_unavailable" =
          rw (absent, step_round) refl in
        subst (Guarded lib defaults min_semantic_acks s) (sym same) (
          hold_round-Guarded lib defaults min_semantic_acks s n (round_start n ∷ [])
            "frame_unavailable" refl)
    | inl (some frame, seen) ↦
        let same : step_round lib defaults min_semantic_acks s n
            ≡ perceive lib defaults min_semantic_acks s n (round_start n ∷ []) frame =
          rw (seen, step_round) refl in
        subst (Guarded lib defaults min_semantic_acks s) (sym same)
          (elim (Result-cases (sense lib defaults min_semantic_acks s frame)) [
            | inr (e, failed) ↦
                rw (failed, perceive)
                  (failed_round-Guarded lib defaults min_semantic_acks s n (round_start n ∷ [])
                    "perception_failure" e refl)
            | inl ((h, p), sensed) ↦
                rw (sensed, perceive)
                  (measure-Guarded n (round_start n ∷ []) frame h p refl seen sensed)
          ])
  ]
