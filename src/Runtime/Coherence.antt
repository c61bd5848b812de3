-- ===== src/Runtime/Coherence.antt =====
-- cognitive_runtime/runtime/coherence_monitor.py: the drift between the layers of a trace. `show` is
-- the text of a float.
pub mod Counts
pub mod Drift
use Prim.Native.Nat.{◌^◌}
use Prim.Native.String.{◌++◌ as concat}
use stocky_cognitive_runtime.Prelude.{
  ℕ, ◌+◌, ◌*◌, ◌≡◌, ◌↔◌, ◌⊎◌, inl, inr, refl, String, Bool, true, false, ◌&&◌, ◌||◌, Option, none,
  some, List, [], ◌∷◌, ◌++◌, map, length, length-append, ltb, str_eq, eq_iff, if◌then◌else◌, arith,
  Bool-cases, ◌≤◌, ◌<◌, ap,
}
use stocky_cognitive_runtime.Prelude.Int.{pos}
use stocky_cognitive_runtime.Data.Float.{Float, finite, ltb_float}
use stocky_cognitive_runtime.Data.Json.{Json, null, str, real, obj, end, field}
use stocky_cognitive_runtime.Data.Trace.{ExecutionTrace}
use stocky_cognitive_runtime.Causal.{CausalNode, CausalGraph, decision, layer, failure_points}

pub record CoherenceReport : Type 0 where
  pub drift_detected : Bool
  pub drift_count : ℕ
  pub warnings : List String
  pub inconsistencies : List Json

pub record CoherenceMonitor : Type 0 where
  pub max_history : ℕ
  pub report : CoherenceReport
  pub history : List CoherenceReport

abbrev pub new_report : CoherenceReport
new_report = record { drift_detected = false; drift_count = 0; warnings = []; inconsistencies = [] }

abbrev pub new_monitor : ℕ → CoherenceMonitor
new_monitor max = record { max_history = max; report = new_report; history = [] }

-- The doubles nearest to 0.8 and 0.9.
unfoldable pub eight_tenths : Float
eight_tenths = finite (pos (7205759403792794 * 2 ^ 1021))

unfoldable pub nine_tenths : Float
nine_tenths = finite (pos (8106479329266893 * 2 ^ 1021))

abbrev or_null : Option String → Json
or_null none = null
or_null (some s) = str s

unfoldable pub with_warning : String → CoherenceReport → CoherenceReport
with_warning warning r = record r { warnings = r.warnings ++ warning ∷ [] }

-- A rule that counts drift.
unfoldable pub with_drift : String → Json → CoherenceReport → CoherenceReport
unfolding with_warning
with_drift warning inconsistency r = record (with_warning warning r) {
  drift_count = r.drift_count + 1;
  inconsistencies = r.inconsistencies ++ inconsistency ∷ [];
}

abbrev pub passed_but_blocked : ExecutionTrace → Bool
passed_but_blocked t =
    t.preflight_valid && (str_eq t.p4_verdict "BLOCK" || str_eq t.p4_verdict "DEFER")

abbrev pub allowed_but_failed : ExecutionTrace → Bool
allowed_but_failed t = str_eq t.p4_verdict "ALLOW" && str_eq t.execution_status "FAILED"

abbrev pub high_risk : ExecutionTrace → Bool
high_risk t = ltb_float eight_tenths t.risk_score && str_eq t.p4_verdict "ALLOW"

abbrev pub extreme_risk : ExecutionTrace → Bool
extreme_risk t =
    (t.preflight_valid && str_eq t.p4_verdict "ALLOW") && ltb_float nine_tenths t.risk_score

unfoldable pub rule_1 : ExecutionTrace → CoherenceReport → CoherenceReport
unfolding with_drift
rule_1 t r =
    if passed_but_blocked t
    then with_drift (concat "preflight_passed_but_p4_blocked: " t.event_id)
        (obj (
          field "type" (str "preflight_p4_mismatch") (
            field "event_id" (str t.event_id)
              (field "preflight" (str "valid") (field "p4" (str t.p4_verdict) end)))))
        r
    else r

unfoldable pub rule_2 : ExecutionTrace → CoherenceReport → CoherenceReport
unfolding with_drift
rule_2 t r =
    if allowed_but_failed t
    then with_drift (concat "p4_allowed_but_sandbox_failed: " t.event_id)
        (obj (
          field "type" (str "p4_sandbox_mismatch") (
            field "event_id" (str t.event_id) (
              field "p4" (str "ALLOW")
                (field "sandbox" (str "FAILED") (field "error" (or_null t.execution_error) end))))))
        r
    else r

abbrev pub risk_text : (Float → String) → ExecutionTrace → String
risk_text show t = concat t.event_id (concat " risk=" (show t.risk_score))

unfoldable pub rule_3 : (Float → String) → ExecutionTrace → CoherenceReport → CoherenceReport
unfolding with_warning
rule_3 show t r =
    if high_risk t
    then with_warning (concat "high_risk_allowed_by_p4: " (risk_text show t)) r
    else r

unfoldable pub rule_4 : (Float → String) → ExecutionTrace → CoherenceReport → CoherenceReport
unfolding with_drift
rule_4 show t r =
    if extreme_risk t
    then with_drift (concat "extreme_risk_not_blocked: " (risk_text show t))
        (obj (
          field "type" (str "extreme_risk_not_blocked")
            (field "event_id" (str t.event_id) (field "risk_score" (real t.risk_score) end))))
        r
    else r

unfoldable pub trace_report : (Float → String) → ExecutionTrace → CoherenceReport
unfolding rule_1 rule_2 rule_3 rule_4
trace_report show t =
    let r = rule_4 show t (rule_3 show t (rule_2 t (rule_1 t new_report))) in
    record r { drift_detected = ltb 0 r.drift_count }

-- `append` of a deque of bounded length.
unfoldable pub append_bounded : ℕ → List CoherenceReport → CoherenceReport → List CoherenceReport
append_bounded max [] r = if ltb 0 max then r ∷ [] else []
append_bounded max (first ∷ rest) r =
    if ltb max (length ((first ∷ rest) ++ r ∷ [])) then rest ++ r ∷ [] else (first ∷ rest) ++ r ∷ []

unfoldable pub check_trace : (Float → String) → CoherenceMonitor → ExecutionTrace → CoherenceMonitor
unfolding trace_report append_bounded
check_trace show m t =
    let r = trace_report show t in
    record m { report = r; history = append_bounded m.max_history m.history r }

-- Its drift count stays 0.
unfoldable pub check_causal_graph : CausalGraph → CoherenceReport
unfolding failure_points
check_causal_graph g = record new_report {
  warnings =
      if ltb 0 (layer g decision)
      then map (λ (n : CausalNode). concat "failure_under_p4_dominant: " n.node_id.event)
          (failure_points g)
      else [];
}

abbrev pub reset : CoherenceMonitor → CoherenceMonitor
reset m = record m { report = new_report; history = [] }
