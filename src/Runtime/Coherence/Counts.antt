-- ===== src/Runtime/Coherence/Counts.antt =====
-- runtime/coherence_monitor.py: how the rules of `check_trace` count in a report.
use Prim.Native.String.{◌++◌ as concat}
use stocky_cognitive_runtime.Prelude.{
  ℕ, ◌+◌, ◌≡◌, inl, inr, refl, String, Bool, true, false, ◌||◌, [], ◌∷◌, length, length-append,
  str_eq, eq_iff, if◌then◌else◌, arith, Bool-cases, ◌≤◌, ap,
}
use stocky_cognitive_runtime.Data.Float.{Float}
use stocky_cognitive_runtime.Data.Json.{Json}
use stocky_cognitive_runtime.Data.Trace.{ExecutionTrace}
use stocky_cognitive_runtime.Runtime.Coherence.{
  CoherenceReport, with_warning, with_drift, passed_but_blocked, allowed_but_failed, high_risk,
  extreme_risk, risk_text, rule_1, rule_2, rule_3, rule_4,
}

-- One for a test that holds.
abbrev pub counts : Bool → ℕ
counts true = 1
counts false = 0

with_drift-eq :
    (b : Bool) (warning : String) (j : Json) (r : CoherenceReport)
    → ((if b then with_drift warning j r else r).drift_count ≡ r.drift_count + counts b)
      × ((length (if b then with_drift warning j r else r).inconsistencies)
          ≡ length r.inconsistencies + counts b)
unfolding with_drift with_warning
with_drift-eq true warning j r = (refl, length-append r.inconsistencies (j ∷ []))
with_drift-eq false warning j r = (omega arith, omega arith)

with_warning-eq :
    (b : Bool) (warning : String) (r : CoherenceReport)
    → ((if b then with_warning warning r else r).drift_count ≡ r.drift_count)
      × ((if b then with_warning warning r else r).inconsistencies ≡ r.inconsistencies)
unfolding with_warning
with_warning-eq true warning r = (refl, refl)
with_warning-eq false warning r = (refl, refl)

-- A step of the report that counts drift exactly when a test holds.
abbrev pub Counts : Bool → CoherenceReport → CoherenceReport → Type 0
Counts b r r' =
    (r'.drift_count ≡ r.drift_count + counts b)
    × (length r'.inconsistencies ≡ length r.inconsistencies + counts b)

pub rule_1-Counts :
    (t : ExecutionTrace) (r : CoherenceReport) → Counts (passed_but_blocked t) r (rule_1 t r)
unfolding rule_1
rule_1-Counts t r = with_drift-eq (passed_but_blocked t) _ _ r

pub rule_2-Counts :
    (t : ExecutionTrace) (r : CoherenceReport) → Counts (allowed_but_failed t) r (rule_2 t r)
unfolding rule_2
rule_2-Counts t r = with_drift-eq (allowed_but_failed t) _ _ r

pub rule_3-Counts :
    (show : Float → String) (t : ExecutionTrace) (r : CoherenceReport)
    → Counts false r (rule_3 show t r)
unfolding rule_3
rule_3-Counts show t r =
    let h =
      with_warning-eq (high_risk t) (concat "high_risk_allowed_by_p4: " (risk_text show t)) r in
    (omega (arith, h.0), omega (arith, ap length h.1))

pub rule_4-Counts :
    (show : Float → String) (t : ExecutionTrace) (r : CoherenceReport)
    → Counts (extreme_risk t) r (rule_4 show t r)
unfolding rule_4
rule_4-Counts show t r = with_drift-eq (extreme_risk t) _ _ r

pub allow_not_blocked :
    (v : String) → str_eq v "ALLOW" ≡ true → (str_eq v "BLOCK" || str_eq v "DEFER") ≡ false
allow_not_blocked v h = rw ((eq_iff v "ALLOW").0 h) refl

pub counts_bound :
    (t : ExecutionTrace)
    → counts (passed_but_blocked t) + counts (allowed_but_failed t) + counts (extreme_risk t) ≤ 2
counts_bound t = elim (Bool-cases (str_eq t.p4_verdict "ALLOW")) [
  | inl e ↦ ground (arith, e, allow_not_blocked t.p4_verdict e)
  | inr e ↦ ground (arith, e)
]
