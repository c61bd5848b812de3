-- ===== src/Data/Trace.antt =====
-- The record of cognitive_runtime/contracts/execution_trace.py.
use stocky_cognitive_runtime.Prelude.{ℕ, String, Bool, Option, List}
use stocky_cognitive_runtime.Prelude.Int.{ℤ}
use stocky_cognitive_runtime.Data.Float.{Float}
use stocky_cognitive_runtime.Data.Json.{Json}

-- Times are spans between two readings of the clock.
pub record ExecutionTrace : Type 0 where
  pub event_id : String
  pub session_id : String
  pub sequence_no : ℕ
  pub correlation_id : String
  pub preflight_valid : Bool
  pub preflight_reason : Option String
  pub preflight_rules_triggered : List String
  pub risk_score : Float
  pub p4_verdict : String
  pub p4_reason : Option String
  pub p4_risk_level : Option String
  pub p4_rule_triggered : Option String
  pub execution_status : String
  pub execution_error : Option String
  pub capabilities_checked : List String
  pub resource_usage : Json
  pub preflight_time : ℤ
  pub p4_time : ℤ
  pub execution_time : ℤ
  pub total_time : ℤ
  pub final_status : String
