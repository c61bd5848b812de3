-- ===== src/Runtime/Orchestrator.antt =====
-- cognitive_runtime/runtime/runtime_orchestrator.py: start, stop, pause and resume of the loop, and
-- its heartbeat. The callbacks are outside the model: a call returns which of them it makes.
use stocky_cognitive_runtime.Prelude.{
  ℕ, ◌-◌, ◌≡◌, refl, Bool, true, false, not, ◌⊎◌, inl, none, some, List, [], ◌∷◌, arith,
  if◌then◌else◌, if_cases,
}
use stocky_cognitive_runtime.Data.Float.{Float}
use stocky_cognitive_runtime.Runtime.Health.{
  LoopStatus, stopped, running, paused, HealthStatus, RuntimeState,
}

pub record Heartbeat : Type 0 where
  pub timestamp : ℕ
  pub status : LoopStatus
  pub uptime : ℕ
  pub queue_depth : ℕ
  pub events_processed : ℕ
  pub health_status : HealthStatus
  pub average_cycle_ms : Float
  pub drift_detected : Bool

-- `active` is `_running`.
pub record RuntimeOrchestrator : Type 0 where
  pub state : RuntimeState
  pub active : Bool

pub data Callback : Type 0 where
  on_start on_stop : Callback
  on_heartbeat : Heartbeat → Callback

unfoldable pub start : RuntimeOrchestrator → ℕ → RuntimeOrchestrator × List Callback
start o now = if o.active then (o, []) else (
  record { state = record o.state { status = running; started_at = some now }; active = true },
  on_start ∷ [],
)

unfoldable pub stop : RuntimeOrchestrator → RuntimeOrchestrator × List Callback
stop o =
    if not o.active
    then (o, [])
    else (record { state = record o.state { status = stopped }; active = false }, on_stop ∷ [])

abbrev pub same_loop_status : LoopStatus → LoopStatus → Bool
same_loop_status stopped stopped = true
same_loop_status running running = true
same_loop_status paused paused = true
same_loop_status LoopStatus.degraded_status LoopStatus.degraded_status = true
same_loop_status _ _ = false

unfoldable pub pause : RuntimeOrchestrator → RuntimeOrchestrator
pause o =
    if same_loop_status o.state.status running
    then record o { state = record o.state { status = paused } }
    else o

unfoldable pub resume : RuntimeOrchestrator → RuntimeOrchestrator
resume o =
    if same_loop_status o.state.status paused
    then record o { state = record o.state { status = running } }
    else o

-- `tick_heartbeat`, with the two readings of the clock: for the uptime and for the heartbeat. A
-- clock that went back counts as no time.
unfoldable pub tick_heartbeat : RuntimeOrchestrator → ℕ → ℕ → RuntimeOrchestrator × Heartbeat
tick_heartbeat o now stamp =
    let uptime : ℕ = elim o.state.started_at [ none ↦ 0 | some t ↦ now - t ] in
    (
      record o { state = record o.state { uptime = uptime } },
      record {
        timestamp = stamp;
        status = o.state.status;
        uptime = uptime;
        queue_depth = o.state.queue_depth;
        events_processed = o.state.total_events_processed;
        health_status = o.state.health_status;
        average_cycle_ms = o.state.average_cycle_ms;
        drift_detected = o.state.drift_detected;
      },
    )

pub data Call : Type 0 where
  starts : ℕ → Call
  stops pauses resumes : Call
  ticks : ℕ → ℕ → Call

unfoldable pub step : RuntimeOrchestrator → Call → RuntimeOrchestrator
unfolding start stop pause resume tick_heartbeat
step o (starts now) = (start o now).0
step o stops = (stop o).0
step o pauses = pause o
step o resumes = resume o
step o (ticks now stamp) = (tick_heartbeat o now stamp).0

unfoldable pub run : RuntimeOrchestrator → List Call → RuntimeOrchestrator
run o [] = o
run o (c ∷ cs) = run (step o c) cs

-- The status of the state agrees with the flag, and a running loop has a start time.
pub record IsConsistent (o : RuntimeOrchestrator) : Type 0 where
  pub off : o.active ≡ false → o.state.status ≡ stopped
  pub on : o.active ≡ true → (o.state.status ≡ running) ⊎ (o.state.status ≡ paused)
  pub started : o.active ≡ true → (t : ℕ) × (o.state.started_at ≡ some t)

step-IsConsistent : (o : RuntimeOrchestrator) (c : Call) → IsConsistent o → IsConsistent (step o c)
unfolding step
step-IsConsistent o (starts now) h =
    if_cases (λ (r : RuntimeOrchestrator × List Callback). IsConsistent r.0) o.active _ _ (λ on. h)
      λ off. record { off = λ bad. cc; on = λ _. inl refl; started = λ _. (now, refl) }
step-IsConsistent o stops h = ground arith
step-IsConsistent o pauses h = ground arith
step-IsConsistent o resumes h = ground arith
step-IsConsistent o (ticks now stamp) h = record { off = h.off; on = h.on; started = h.started }

-- Whatever calls are made from a consistent state, the loop's status is "stopped" exactly while it
-- does not run, "running" or "paused" while it does, and a loop that runs has a time of start.
pub run-IsConsistent :
    (o : RuntimeOrchestrator) (calls : List Call) → IsConsistent o → IsConsistent (run o calls)
unfolding run
run-IsConsistent o [] h = h
run-IsConsistent o (c ∷ cs) h = run-IsConsistent (step o c) cs (step-IsConsistent o c h)
