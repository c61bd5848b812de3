-- ===== src/Recovery/Resume.antt =====
-- recovery/recovery_coordinator.py, `_apply_snapshot`: the fields of a saved state, and the traces of a
-- snapshot, put into those of a loop.
use stocky_cognitive_runtime.Prelude.{
  String, Bool, true, false, none, some, List, [], ◌∷◌, str_eq, if◌then◌else◌,
}
use stocky_cognitive_runtime.Prelude.Int.{pos}
use stocky_cognitive_runtime.Data.Float.{Float}
use stocky_cognitive_runtime.Data.Json.{Json, null, bool, int, real, str, Fields, end, field}
use stocky_cognitive_runtime.Data.Trace.{ExecutionTrace}
use stocky_cognitive_runtime.TraceWindow.{TraceWindow, append}
use stocky_cognitive_runtime.Runtime.Health.{
  RuntimeState, LoopStatus, stopped, running, paused, degraded_status, HealthStatus, healthy,
  degraded, critical,
}

abbrev pub loop_status : String → LoopStatus → LoopStatus
loop_status text otherwise =
    if str_eq text "stopped"
    then stopped
    else if str_eq text "running"
    then running
    else if str_eq text "paused"
    then paused
    else if str_eq text "degraded"
    then degraded_status
    else otherwise

abbrev pub health_status : String → HealthStatus → HealthStatus
health_status text otherwise =
    if str_eq text "healthy"
    then healthy
    else if str_eq text "degraded"
    then degraded
    else if str_eq text "critical"
    then critical
    else otherwise

-- `setattr(state, key, val)` at a key of the state's snapshot and a value as the snapshot has it there;
-- no other key is one of a snapshot.
unfoldable pub set_attr : String → Json → RuntimeState → RuntimeState
set_attr key (str text) s =
    if str_eq key "status"
    then record s { status = loop_status text s.status }
    else if str_eq key "health_status"
    then record s { health_status = health_status text s.health_status }
    else if str_eq key "last_error"
    then record s { last_error = some text }
    else s
set_attr key (int (pos n)) s =
    if str_eq key "uptime_seconds"
    then record s { uptime = n }
    else if str_eq key "queue_depth"
    then record s { queue_depth = n }
    else if str_eq key "total_events_processed"
    then record s { total_events_processed = n }
    else if str_eq key "active_sessions"
    then record s { active_sessions = n }
    else if str_eq key "consecutive_failures"
    then record s { consecutive_failures = n }
    else s
set_attr key (bool b) s = if str_eq key "drift_detected" then record s { drift_detected = b } else s
set_attr key (real x) s =
    if str_eq key "average_cycle_ms" then record s { average_cycle_ms = x } else s
set_attr key null s = if str_eq key "last_error" then record s { last_error = none } else s
set_attr key _ s = s

unfoldable pub restore_state : Fields → RuntimeState → RuntimeState
unfolding set_attr
restore_state end s = s
restore_state (field key v rest) s = restore_state rest (set_attr key v s)

-- An append that raises ends the loop over the traces with the ones before appended.
unfoldable pub append_each :
    (String → String) → (Float → String) → TraceWindow → List ExecutionTrace → TraceWindow × Bool
append_each digest show w [] = (w, true)
append_each digest show w (t ∷ ts) = elim (append digest show w t) [
  | none ↦ (w, false)
  | some w' ↦ append_each digest show w' ts
]
