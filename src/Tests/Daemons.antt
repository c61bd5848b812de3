-- ===== src/Tests/Daemons.antt =====
-- Tests of the runtime's state, its orchestrator and the daemon.
use stocky_cognitive_runtime.Prelude.{
  ◌≡◌, refl, true, false, none, some, List, [], ◌∷◌, arith, length,
}
use stocky_cognitive_runtime.Data.Float.{Float, zero_float}
use stocky_cognitive_runtime.Runtime.Health.{new_state}
use stocky_cognitive_runtime.Runtime.Health.Cycles.{
  Cycle, trailing, failures, grade, record_cycles, record_cycles-grade,
}
use stocky_cognitive_runtime.Runtime.Orchestrator.{
  RuntimeOrchestrator, IsConsistent, starts, pauses, stops, run-IsConsistent,
}
use stocky_cognitive_runtime.Runtime.Orchestrator.{run as run_loop}
use stocky_cognitive_runtime.Runtime.Lifecycle.{shutdown}
use stocky_cognitive_runtime.Runtime.Crash.{connection_error}
use stocky_cognitive_runtime.Runtime.Daemon.{RuntimeDaemon, new_daemon}
use stocky_cognitive_runtime.Runtime.Daemon.Moves.{boots, crashes, Call, run, Moves}
use stocky_cognitive_runtime.Runtime.Daemon.Safety.{shutdown_stays}

abbrev first : Float → Float → Float
first a b = a

abbrev bad_run : List Cycle
bad_run = (zero_float, true, 1) ∷ (zero_float, false, 1) ∷ (zero_float, false, 2) ∷ []

abbrev loop : RuntimeOrchestrator
loop = record { state = new_state; active = false }

loop-IsConsistent : IsConsistent loop
loop-IsConsistent = record {
  off = λ _. refl;
  on = λ bad. ground (arith, bad);
  started = λ bad. ground (arith, bad);
}

run-IsConsistent_example : IsConsistent (run_loop loop (starts 3 ∷ pauses ∷ stops ∷ []))
run-IsConsistent_example = run-IsConsistent loop (starts 3 ∷ pauses ∷ stops ∷ []) loop-IsConsistent

abbrev crashing : List Call
crashing =
    boots 5 none true
    ∷ crashes (record { kind = connection_error; message = "connection" }) "connection" none
    ∷ []

abbrev down : RuntimeDaemon
down = record (new_daemon loop) { lifecycle = shutdown; started_at = some 1 }

shutdown_stays_example : (run down crashing).lifecycle ≡ shutdown
shutdown_stays_example = shutdown_stays down crashing refl

record_cycles-grade_example :
    ((record_cycles first new_state bad_run).health_status ≡ grade (trailing 0 bad_run))
    × ((record_cycles first new_state bad_run).consecutive_failures ≡ trailing 0 bad_run)
    × ((record_cycles first new_state bad_run).total_failures ≡ failures bad_run)
    × ((record_cycles first new_state bad_run).total_events_processed ≡ length bad_run)
record_cycles-grade_example = record_cycles-grade first bad_run
