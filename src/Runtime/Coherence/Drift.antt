-- ===== src/Runtime/Coherence/Drift.antt =====
-- runtime/coherence_monitor.py: which traces `check_trace` takes for drift.
use Prim.Native.Nat.{◌^◌}
use stocky_cognitive_runtime.Prelude.Int.{pos}
use stocky_cognitive_runtime.Prelude.{
  ℕ, ◌+◌, ◌≡◌, ◌↔◌, inl, inr, refl, sym, ◌∙◌, String, Bool, true, false, ◌||◌, ◌&&◌, ◌⊎◌, ◌*◌,
  length, ltb, str_eq, eq_iff, arith, Bool-cases, ◌≤◌, ◌<◌,
}
use stocky_cognitive_runtime.Data.Float.{Float, ltb_float, finite}
use stocky_cognitive_runtime.Data.Trace.{ExecutionTrace}
use stocky_cognitive_runtime.Runtime.Coherence.{
  CoherenceMonitor, new_report, passed_but_blocked, allowed_but_failed, extreme_risk, nine_tenths,
  rule_1, rule_2, rule_3, trace_report, check_trace,
}
use stocky_cognitive_runtime.Runtime.Coherence.Counts.{
  counts, rule_1-Counts, rule_2-Counts, rule_3-Counts, rule_4-Counts, allow_not_blocked,
  counts_bound,
}

-- P4 blocked or deferred what the preflight check had passed.
pub record IsOverruled (t : ExecutionTrace) : Type 0 where
  pub valid : t.preflight_valid ≡ true
  pub verdict : (t.p4_verdict ≡ "BLOCK") ⊎ (t.p4_verdict ≡ "DEFER")

-- P4 allowed what the execution failed at.
pub record IsFailed (t : ExecutionTrace) : Type 0 where
  pub verdict : t.p4_verdict ≡ "ALLOW"
  pub status : t.execution_status ≡ "FAILED"

-- The preflight check and P4 let a risk above the double nearest to 0.9 pass.
pub record IsExtreme (t : ExecutionTrace) : Type 0 where
  pub valid : t.preflight_valid ≡ true
  pub verdict : t.p4_verdict ≡ "ALLOW"
  pub risk : ltb_float (finite (pos (8106479329266893 * 2 ^ 1021))) t.risk_score ≡ true

and_true : (a b : Bool) → ((a && b) ≡ true) ↔ ((a ≡ true) × (b ≡ true))
and_true a b = (λ h. (ground (arith, h), ground (arith, h)), λ h. ground (arith, h.0, h.1))

or_true : (a b : Bool) → ((a || b) ≡ true) ↔ ((a ≡ true) ⊎ (b ≡ true))
or_true a b = (λ h. ground (arith, h), λ h. ground (arith, h))

passed_but_blocked-IsOverruled :
    (t : ExecutionTrace) → (passed_but_blocked t ≡ true) ↔ IsOverruled t
passed_but_blocked-IsOverruled t =
    let both =
      and_true t.preflight_valid (str_eq t.p4_verdict "BLOCK" || str_eq t.p4_verdict "DEFER") in
    let either = or_true (str_eq t.p4_verdict "BLOCK") (str_eq t.p4_verdict "DEFER") in
    (
      λ h. record {
        valid = (both.0 h).0;
        verdict = elim (either.0 (both.0 h).1) [
          | inl b ↦ inl ((eq_iff t.p4_verdict "BLOCK").0 b)
          | inr d ↦ inr ((eq_iff t.p4_verdict "DEFER").0 d)
        ];
      },
      λ h. both.1 (
        h.valid,
        either.1 (elim h.verdict [
          | inl b ↦ inl ((eq_iff t.p4_verdict "BLOCK").1 b)
          | inr d ↦ inr ((eq_iff t.p4_verdict "DEFER").1 d)
        ]),
      ),
    )

allowed_but_failed-IsFailed : (t : ExecutionTrace) → (allowed_but_failed t ≡ true) ↔ IsFailed t
allowed_but_failed-IsFailed t =
    let both = and_true (str_eq t.p4_verdict "ALLOW") (str_eq t.execution_status "FAILED") in
    (
      λ h. record {
        verdict = (eq_iff t.p4_verdict "ALLOW").0 (both.0 h).0;
        status = (eq_iff t.execution_status "FAILED").0 (both.0 h).1;
      },
      λ h. both.1 (
        (eq_iff t.p4_verdict "ALLOW").1 h.verdict,
        (eq_iff t.execution_status "FAILED").1 h.status,
      ),
    )

extreme_risk-IsExtreme : (t : ExecutionTrace) → (extreme_risk t ≡ true) ↔ IsExtreme t
unfolding nine_tenths
extreme_risk-IsExtreme t =
    let outer =
      and_true (t.preflight_valid && str_eq t.p4_verdict "ALLOW")
        (ltb_float nine_tenths t.risk_score) in
    let inner = and_true t.preflight_valid (str_eq t.p4_verdict "ALLOW") in
    (
      λ h. record {
        valid = (inner.0 (outer.0 h).0).0;
        verdict = (eq_iff t.p4_verdict "ALLOW").0 (inner.0 (outer.0 h).0).1;
        risk = (outer.0 h).1;
      },
      λ h. outer.1 (inner.1 (h.valid, (eq_iff t.p4_verdict "ALLOW").1 h.verdict), h.risk),
    )

-- The number of the tests that hold, of three of which the first excludes the others.
counts_pos :
    (a b c : Bool) → (0 < counts a + counts b + counts c) ↔ ((a ≡ true) ⊎ ((b ≡ true) ⊎ (c ≡ true)))
counts_pos a b c = (λ h. ground (arith, h), λ h. ground (arith, h))

blocked_not_allowed :
    (t : ExecutionTrace)
    → passed_but_blocked t ≡ true
    → (allowed_but_failed t ≡ false) × (extreme_risk t ≡ false)
blocked_not_allowed t h = elim (Bool-cases (str_eq t.p4_verdict "ALLOW")) [
  | inl e ↦ ground (arith, e, h, allow_not_blocked t.p4_verdict e)
  | inr e ↦ (ground (arith, e), ground (arith, e))
]

counts_two :
    (a b c : Bool)
    → ((a ≡ true) → (b ≡ false) × (c ≡ false))
    → (counts a + counts b + counts c ≡ 2) ↔ ((b ≡ true) × (c ≡ true))
counts_two a b c excludes = (λ h. ground (arith, h, excludes), λ h. ground (arith, h, excludes))

ltb-pos : (n : ℕ) → (ltb 0 n ≡ true) ↔ (0 < n)
ltb-pos n = ground arith

drift_count-eq :
    (show : Float → String) (m : CoherenceMonitor) (t : ExecutionTrace)
    → let r = (check_trace show m t).report in
      (r.drift_count
        ≡ counts (passed_but_blocked t) + counts (allowed_but_failed t) + counts (extreme_risk t))
      × (length r.inconsistencies ≡ r.drift_count)
      × (r.drift_detected ≡ ltb 0 r.drift_count)
unfolding check_trace trace_report
drift_count-eq show m t =
    let r1 = rule_1 t new_report in
    let r2 = rule_2 t r1 in
    let r3 = rule_3 show t r2 in
    let h1 = rule_1-Counts t new_report in
    let h2 = rule_2-Counts t r1 in
    let h3 = rule_3-Counts show t r2 in
    let h4 = rule_4-Counts show t r3 in
    (
      omega (arith, h1.0, h2.0, h3.0, h4.0),
      omega (arith, h1.0, h2.0, h3.0, h4.0, h1.1, h2.1, h3.1, h4.1),
      refl,
    )

-- `check_trace` detects drift exactly when P4 blocked or deferred what the preflight check had passed,
-- or allowed what the execution failed at, or the preflight check and P4 let a risk above 0.9 pass.
-- It counts at most two drifts, two exactly in the last two cases together, and has one inconsistency
-- for each.
pub check_trace-counts :
    (show : Float → String) (m : CoherenceMonitor) (t : ExecutionTrace)
    → let r = (check_trace show m t).report in
      ((r.drift_detected ≡ true) ↔ (IsOverruled t ⊎ (IsFailed t ⊎ IsExtreme t)))
      × ((r.drift_count ≡ 2) ↔ (IsFailed t × IsExtreme t))
      × (r.drift_count ≤ 2)
      × ((r.drift_detected ≡ true) ↔ (0 < r.drift_count))
      × (length r.inconsistencies ≡ r.drift_count)
check_trace-counts show m t =
    let (total, listed, flagged) = drift_count-eq show m t in
    let count = (check_trace show m t).report.drift_count in
    let overruled = passed_but_blocked-IsOverruled t in
    let fails = allowed_but_failed-IsFailed t in
    let extreme = extreme_risk-IsExtreme t in
    let any_case = counts_pos (passed_but_blocked t) (allowed_but_failed t) (extreme_risk t) in
    let two =
      counts_two (passed_but_blocked t) (allowed_but_failed t) (extreme_risk t)
        (blocked_not_allowed t) in
    let few = counts_bound t in
    let detected = ltb-pos count in
    (
      (
        λ h. elim (any_case.0 (rw total at (detected.0 (sym flagged ∙ h)))) [
          | inl x ↦ inl (overruled.0 x)
          | inr (inl x) ↦ inr (inl (fails.0 x))
          | inr (inr x) ↦ inr (inr (extreme.0 x))
        ],
        λ h.
            flagged
            ∙ detected.1 (
                rw total (
                  any_case.1 (elim h [
                    | inl x ↦ inl (overruled.1 x)
                    | inr (inl x) ↦ inr (inl (fails.1 x))
                    | inr (inr x) ↦ inr (inr (extreme.1 x))
                  ]))),
      ),
      (
        λ h. let both = two.0 (sym total ∙ h) in (fails.0 both.0, extreme.0 both.1),
        λ h. total ∙ two.1 (fails.1 h.0, extreme.1 h.1),
      ),
      omega (arith, total, few),
      (λ h. detected.0 (sym flagged ∙ h), λ h. flagged ∙ detected.1 h),
      listed,
    )
