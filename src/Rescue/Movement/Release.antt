-- ===== src/Rescue/Movement/Release.antt =====
-- codebase/rescue/movement_security.py: what an authorization that is not a hold rests on.
use veri_swarm_flight.Base.{
  ◌≡◌, ◌≢◌, refl, sym, subst, ap, ◌∙◌, inl, inr, Bool, true, false, ◌||◌, Option, none, some,
  String, string_eq, ◌==◌, arith, eq_iff, Bool-cases, if◌then◌else◌, Result, ok, raise, value_error,
}
use veri_swarm_flight.Base.Int.{ℤ, pos, ltb_ℤ, ◌-ℤ◌, ◌≤ℤ◌}
use veri_swarm_flight.Base.Sets.{member}
use veri_swarm_flight.Base.Dict.{Dict}
use veri_swarm_flight.Rescue.Movement.{
  Contract, Value, words, whole, other, unhashable, Resolution, hold, field_of, is_words, decisions,
  resolve_decision, resolve_value, resolve_mapping, resolve_authorization,
}

-- The evidence for a decision.
pub record IsAuthorized (c : Contract) (node : String) (m : Dict String Value) (now : ℤ)
    (decision : String) : Type 0 where
  pub addressed : field_of m "node" ≡ words node
  pub decided : field_of m "decision" ≡ words decision
  pub known : member decision decisions ≡ true
  pub observed_at : ℤ
  pub observed : field_of m "observed_at_ms" ≡ whole observed_at
  pub past : (pos 0 ≤ℤ observed_at) × (observed_at ≤ℤ now)
  pub fresh : now -ℤ observed_at ≤ℤ c.freshness_timeout_ms

record IsTimely (c : Contract) (d : String) (value : Value) (now : ℤ) (res : Resolution)
    : Type 0 where
  same : res.decision ≡ d
  at : ℤ
  observed : value ≡ whole at
  past : (pos 0 ≤ℤ at) × (at ≤ℤ now)
  fresh : now -ℤ at ≤ℤ c.freshness_timeout_ms

hold_or :
    (reason d : String) (b : Bool) (res : Resolution)
    → (if b then hold reason else res).decision ≢ "HOLD"
    → b ≡ false
hold_or reason d true res h = absurd (h refl)
hold_or reason d false res h = refl

resolve_decision-IsTimely :
    (c : Contract) (d : String) (reason value : Value) (now : ℤ)
    → (resolve_decision c d reason value now).decision ≢ "HOLD"
    → IsTimely c d value now (resolve_decision c d reason value now)
unfolding resolve_decision
resolve_decision-IsTimely c d (words r) (whole n) now h =
    let good : (r == "" || ltb_ℤ n (pos 0) || ltb_ℤ now n) ≡ false =
      hold_or "authorization_malformed" d _ _ h in
    let timely : ltb_ℤ c.freshness_timeout_ms (now -ℤ n) ≡ false =
      hold_or "authorization_stale" d _ _ (
        subst
          (λ b.
            (if b
              then hold "authorization_malformed"
              else if ltb_ℤ c.freshness_timeout_ms (now -ℤ n)
              then hold "authorization_stale"
              else record { decision = d; reason = r }).decision
            ≢ "HOLD")
          good h) in
    record {
      same = rw (good, timely) refl;
      at = n;
      observed = refl;
      past = (ground arith, ground arith);
      fresh = ground arith;
    }
resolve_decision-IsTimely c d (words r) (words s) now h = absurd (h refl)
resolve_decision-IsTimely c d (words r) other now h = absurd (h refl)
resolve_decision-IsTimely c d (words r) unhashable now h = absurd (h refl)
resolve_decision-IsTimely c d (whole r) value now h = absurd (h refl)
resolve_decision-IsTimely c d other value now h = absurd (h refl)
resolve_decision-IsTimely c d unhashable value now h = absurd (h refl)

resolved : {r s : Resolution} → ok r ≡ ok s → r ≡ s
resolved h = cc

is_words-eq : (v : Value) (s : String) → is_words v s ≡ true → v ≡ words s
is_words-eq (words t) s h = ap words ((eq_iff t s).0 h)
is_words-eq (whole n) s h = cc
is_words-eq other s h = cc
is_words-eq unhashable s h = cc

-- The decision is known, and the observation timely.
resolve_value-IsTimely :
    (c : Contract) (m : Dict String Value) (v : Value) (now : ℤ) (res : Resolution)
    → resolve_value c m v now ≡ ok res
    → res.decision ≢ "HOLD"
    → (v ≡ words res.decision)
      × (member res.decision decisions ≡ true)
      × IsTimely c res.decision (field_of m "observed_at_ms") now res
unfolding resolve_value
resolve_value-IsTimely c m (words d) now res h free =
    let r = field_of m "reason" in
    let o = field_of m "observed_at_ms" in
    elim (Bool-cases (member d decisions)) [
      | inr strange ↦
          let e : hold "authorization_malformed" ≡ res =
            resolved (sym (rw (strange, resolve_value) refl) ∙ h) in
          absurd (free (sym (ap (λ x. x.decision) e)))
      | inl known ↦
          let e : resolve_decision c d r o now ≡ res =
            resolved (sym (rw (known, resolve_value) refl) ∙ h) in
          let t =
            resolve_decision-IsTimely c d r o now
              (λ held. free (sym (ap (λ x. x.decision) e) ∙ held)) in
          let same : d ≡ res.decision = sym t.same ∙ ap (λ x. x.decision) e in
          (
            ap words same,
            subst (λ x. member x decisions ≡ true) same known,
            record {
              same = refl;
              at = t.at;
              observed = t.observed;
              past = t.past;
              fresh = t.fresh;
            },
          )
    ]
resolve_value-IsTimely c m (whole n) now res h free =
    absurd (free (sym (ap (λ x. x.decision) (resolved h))))
resolve_value-IsTimely c m other now res h free =
    absurd (free (sym (ap (λ x. x.decision) (resolved h))))
resolve_value-IsTimely c m unhashable now res h free = cc

resolve_mapping-IsAuthorized :
    (c : Contract) (node : String) (m : Dict String Value) (now : ℤ) (res : Resolution)
    → resolve_mapping c node m now ≡ ok res
    → res.decision ≢ "HOLD"
    → IsAuthorized c node m now res.decision
unfolding resolve_mapping
resolve_mapping-IsAuthorized c node m now res h free =
    elim (Bool-cases (is_words (field_of m "node") node)) [
      | inr elsewhere ↦
          let e : hold "authorization_malformed" ≡ res =
            resolved (sym (rw (elsewhere, resolve_mapping) refl) ∙ h) in
          absurd (free (sym (ap (λ x. x.decision) e)))
      | inl here ↦
          let (decided, known, t) =
            resolve_value-IsTimely c m (field_of m "decision") now res
              (sym (rw (here, resolve_mapping) refl) ∙ h) free in
          record {
            addressed = is_words-eq (field_of m "node") node here;
            decided = decided;
            known = known;
            observed_at = t.at;
            observed = t.observed;
            past = t.past;
            fresh = t.fresh;
          }
    ]

checked_clock :
    (now : ℤ) (x : Result Resolution) (res : Resolution)
    → (if ltb_ℤ now (pos 0) then raise (value_error "now_ms_invalid") else x) ≡ ok res
    → x ≡ ok res
checked_clock now x res h = ground arith

-- Authorization fails closed: any decision but HOLD is the decision of an authorization that is
-- there, is addressed to this vehicle, names a known decision, and was observed neither before the
-- clock's zero nor in the future, nor longer ago than the freshness timeout.
pub resolve_authorization-IsAuthorized :
    (c : Contract) (node : String) (authorization : Option (Dict String Value)) (now : ℤ)
    (res : Resolution)
    → resolve_authorization c node authorization now ≡ ok res
    → res.decision ≢ "HOLD"
    → (m : Dict String Value) × (authorization ≡ some m) × IsAuthorized c node m now res.decision
unfolding resolve_authorization
resolve_authorization-IsAuthorized c node none now res h free =
    absurd (free (sym (ap (λ x. x.decision) (resolved (checked_clock now _ res h)))))
resolve_authorization-IsAuthorized c node (some m) now res h free =
    (m, refl, resolve_mapping-IsAuthorized c node m now res (checked_clock now _ res h) free)
