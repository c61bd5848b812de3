-- ===== src/Runtime/Health.antt =====
-- cognitive_runtime/runtime/runtime_state.py: the live state of the runtime and its health.
--
-- Floats are not computed with: `blend` stands for the running average
-- `average * 0.9 + duration * 0.1`.
pub mod Cycles
pub mod Errors
use stocky_cognitive_runtime.Prelude.{
  ℕ, zero, suc, ◌+◌, String, Bool, true, false, not, Option, none, some, List, [], ◌∷◌, ◌++◌, ltb,
  leb, ◌==◌, if◌then◌else◌, length,
}
use stocky_cognitive_runtime.Prelude.Int.{pos}
use stocky_cognitive_runtime.Data.Float.{Float, zero_float}
use stocky_cognitive_runtime.Data.Json.{Json, null, bool, int, real, str, Fields, end, field}

pub data LoopStatus : Type 0 where
  stopped running paused degraded_status : LoopStatus

pub data HealthStatus : Type 0 where
  healthy degraded critical : HealthStatus

pub record RuntimeState : Type 0 where
  pub started_at : Option ℕ
  pub uptime : ℕ
  pub status : LoopStatus
  pub queue_depth : ℕ
  pub total_events_processed : ℕ
  pub active_sessions : ℕ
  pub total_sessions : ℕ
  pub last_execution_trace_id : String
  pub last_execution_status : String
  pub last_execution_at : Option ℕ
  pub consecutive_failures : ℕ
  pub total_failures : ℕ
  pub health_status : HealthStatus
  pub drift_detected : Bool
  pub drift_count : ℕ
  pub average_cycle_ms : Float
  pub last_cycle_ms : Float
  pub last_error : Option String
  pub errors : List String

abbrev pub new_state : RuntimeState
new_state = record {
  started_at = none;
  uptime = 0;
  status = stopped;
  queue_depth = 0;
  total_events_processed = 0;
  active_sessions = 0;
  total_sessions = 0;
  last_execution_trace_id = "";
  last_execution_status = "";
  last_execution_at = none;
  consecutive_failures = 0;
  total_failures = 0;
  health_status = healthy;
  drift_detected = false;
  drift_count = 0;
  average_cycle_ms = zero_float;
  last_cycle_ms = zero_float;
  last_error = none;
  errors = [];
}

record_failure : RuntimeState → RuntimeState
record_failure s =
    let n = s.consecutive_failures + 1 in
    record s {
      consecutive_failures = n;
      total_failures = s.total_failures + 1;
      health_status = if leb 5 n then critical else if leb 3 n then degraded else s.health_status;
    }

-- A health that is not "healthy" is set to it.
record_success : RuntimeState → RuntimeState
record_success s = record s { consecutive_failures = 0; health_status = healthy }

unfoldable pub record_cycle :
    (Float → Float → Float) → RuntimeState → Float → Bool → ℕ → RuntimeState
unfolding record_failure record_success
record_cycle blend s duration success depth =
    let n = s.total_events_processed + 1 in
    let timed : RuntimeState = record s {
      total_events_processed = n;
      last_cycle_ms = duration;
      queue_depth = depth;
      average_cycle_ms = if n == 1 then duration else blend s.average_cycle_ms duration;
    } in
    if not success then record_failure timed else record_success timed

unfoldable pub drop_first : List String → List String
drop_first [] = []
drop_first (e ∷ es) = es

unfoldable pub record_error : RuntimeState → String → RuntimeState
unfolding drop_first
record_error s error =
    let errors = s.errors ++ error ∷ [] in
    record s {
      last_error = some error;
      errors = if ltb 100 (length errors) then drop_first errors else errors;
    }

abbrev pub loop_text : LoopStatus → String
loop_text stopped = "stopped"
loop_text running = "running"
loop_text paused = "paused"
loop_text degraded_status = "degraded"

abbrev pub health_text : HealthStatus → String
health_text healthy = "healthy"
health_text degraded = "degraded"
health_text critical = "critical"

abbrev pub text_or_null : Option String → Json
text_or_null none = null
text_or_null (some s) = str s

-- `snapshot`, where `round` rounds to two digits. The uptime is in microseconds.
abbrev pub snapshot : (Float → Float) → RuntimeState → Fields
snapshot round s = field "status" (str (loop_text s.status)) (
    field "uptime_seconds" (int (pos s.uptime)) (
      field "queue_depth" (int (pos s.queue_depth)) (
        field "total_events_processed" (int (pos s.total_events_processed)) (
          field "active_sessions" (int (pos s.active_sessions)) (
            field "health_status" (str (health_text s.health_status)) (
              field "consecutive_failures" (int (pos s.consecutive_failures)) (
                field "drift_detected" (bool s.drift_detected) (
                  field "average_cycle_ms" (real (round s.average_cycle_ms))
                    (field "last_error" (text_or_null s.last_error) end)))))))))
