-- ===== src/Runtime/Daemon.antt =====
-- cognitive_runtime/runtime/daemon/runtime_daemon.py: the daemon that hosts the loop.
--
-- The asyncio task, its cancellation and the sleeps are outside the model. Their outcome is an
-- argument: whether the loop started within the 200 polls of `boot`, and what a recovery did. A
-- method returns the daemon and its exception, since what was written before a raise stays written.
pub mod Safety
pub mod Moves
use Prim.Native.String.{◌++◌ as concat}
use stocky_cognitive_runtime.Prelude.{
  ℕ, ◌+◌, ◌≡◌, refl, String, Bool, true, false, not, Option, none, some, List, [], ◌∷◌,
  if◌then◌else◌,
}
use stocky_cognitive_runtime.Prelude.Raise.{Result, ok, err}
use stocky_cognitive_runtime.Runtime.Health.{RuntimeState, record_error}
use stocky_cognitive_runtime.Runtime.Orchestrator.{RuntimeOrchestrator, stop, pause, resume}
use stocky_cognitive_runtime.Runtime.Lifecycle.{
  LifecycleState, stopped, booting, running, paused, recovering, shutdown, same_lifecycle, Invalid,
  invalid, assert_transition,
}
use stocky_cognitive_runtime.Runtime.Crash.{
  Exception, CrashCategory, recoverable, non_recoverable, configuration, internal_runtime, classify,
}

pub record RuntimeDaemon : Type 0 where
  pub lifecycle : LifecycleState
  pub orchestrator : RuntimeOrchestrator
  pub recovery_completed : Bool
  pub panic_count : ℕ
  pub recovery_count : ℕ
  pub started_at : Option ℕ

pub data DaemonError : Type 0 where
  invalid_transition : LifecycleState → LifecycleState → DaemonError
  start_timeout : DaemonError
  recovery_error : String → DaemonError

-- A method's new daemon, and what it raised.
abbrev pub Raises : Type 0
Raises = RuntimeDaemon × Option DaemonError

abbrev pub new_daemon : RuntimeOrchestrator → RuntimeDaemon
new_daemon o = record {
  lifecycle = stopped;
  orchestrator = o;
  recovery_completed = false;
  panic_count = 0;
  recovery_count = 0;
  started_at = none;
}

unfoldable pub on_valid :
    Result Invalid Unit → RuntimeDaemon → LifecycleState → (RuntimeDaemon → Raises) → Raises
on_valid (err (invalid from to')) d to next = (d, some (invalid_transition from to'))
on_valid (ok _) d to next = next (record d { lifecycle = to })

-- `_transition`, with what follows it.
unfoldable pub enter : RuntimeDaemon → LifecycleState → (RuntimeDaemon → Raises) → Raises
unfolding on_valid assert_transition
enter d to next = on_valid (assert_transition d.lifecycle to) d to next

abbrev pub done : RuntimeDaemon → Raises
done d = (d, none)

-- `_assert_current`, with what follows it.
unfoldable pub expect : RuntimeDaemon → LifecycleState → (RuntimeDaemon → Raises) → Raises
expect d state next =
    if not (same_lifecycle d.lifecycle state)
    then (d, some (invalid_transition d.lifecycle state))
    else next d

-- The end of `boot`: the loop runs, or the daemon gives up.
unfoldable pub booted : Bool → RuntimeDaemon → Raises
unfolding enter
booted starts d =
    if starts then enter d running done else (record d { lifecycle = shutdown }, some start_timeout)

-- The recovery of `boot`, which raises what it does not survive.
unfoldable pub recovered_first : Option String → Bool → RuntimeDaemon → Raises
unfolding booted
recovered_first none starts d = booted starts (record d { recovery_completed = true })
recovered_first (some failure) starts d = (d, some (recovery_error failure))

-- `boot` behind its transition to BOOTING.
unfoldable pub booting_up : ℕ → Option String → Bool → RuntimeDaemon → Raises
unfolding recovered_first
booting_up now recovery starts d =
    let d' : RuntimeDaemon = record d { started_at = some now } in
    if not d.recovery_completed then recovered_first recovery starts d' else booted starts d'

unfoldable pub boot_stopped : ℕ → Option String → Bool → RuntimeDaemon → Raises
unfolding enter booting_up
boot_stopped now recovery starts d = enter d booting (booting_up now recovery starts)

unfoldable pub boot : RuntimeDaemon → ℕ → Option String → Bool → Raises
unfolding expect boot_stopped
boot d now recovery starts = expect d stopped (boot_stopped now recovery starts)

unfoldable pub stop_loop : RuntimeDaemon → Raises
stop_loop d = (record d { orchestrator = (stop d.orchestrator).0 }, none)

unfoldable pub shut_down : RuntimeDaemon → Raises
unfolding enter stop_loop
shut_down d = enter d shutdown stop_loop

unfoldable pub pause_running : RuntimeDaemon → Raises
unfolding enter
pause_running d = enter (record d { orchestrator = pause d.orchestrator }) paused done

unfoldable pub pause_daemon : RuntimeDaemon → Raises
unfolding expect pause_running
pause_daemon d = expect d running pause_running

unfoldable pub resume_paused : RuntimeDaemon → Raises
unfolding enter
resume_paused d = enter (record d { orchestrator = resume d.orchestrator }) running done

unfoldable pub resume_daemon : RuntimeDaemon → Raises
unfolding expect resume_paused
resume_daemon d = expect d paused resume_paused

abbrev pub note : RuntimeDaemon → String → RuntimeDaemon
note d error = record d {
  orchestrator = record d.orchestrator { state = record_error d.orchestrator.state error };
}

abbrev pub category_text : CrashCategory → String
category_text recoverable = "RECOVERABLE"
category_text non_recoverable = "NON_RECOVERABLE"
category_text configuration = "CONFIGURATION"
category_text internal_runtime = "INTERNAL_RUNTIME"

-- The handler's `try`: the recovery returned, or raised an error.
unfoldable pub after_recovery : Option String → RuntimeDaemon → Raises
unfolding enter
after_recovery none d = enter d running done
after_recovery (some failure) d =
    enter (note d (concat "daemon.recovery_failed: " failure)) shutdown done

abbrev pub is_recoverable : CrashCategory → Bool
is_recoverable recoverable = true
is_recoverable internal_runtime = true
is_recoverable _ = false

-- The daemon that tries to recover.
unfoldable pub try_recovery : Option String → RuntimeDaemon → Raises
unfolding after_recovery
try_recovery recovery d =
    after_recovery recovery (record d { recovery_count = d.recovery_count + 1 })

-- The daemon that has counted and noted a crash.
abbrev pub crashed : RuntimeDaemon → CrashCategory → String → RuntimeDaemon
crashed d category text =
    note (record d { panic_count = d.panic_count + 1 })
      (concat "daemon.crash." (concat (category_text category) (concat ": " text)))

-- `_handle_event_crash`, with the exception, its text, and what a recovery raises if it is tried.
unfoldable pub handle_event_crash : RuntimeDaemon → Exception → String → Option String → Raises
unfolding enter try_recovery
handle_event_crash d exc text recovery =
    let category = classify exc in
    if is_recoverable category
    then enter (crashed d category text) recovering (try_recovery recovery)
    else enter (crashed d category text) shutdown done
