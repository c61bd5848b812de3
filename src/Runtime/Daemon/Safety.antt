-- ===== src/Runtime/Daemon/Safety.antt =====
-- runtime_daemon.py: what any sequence of calls and crashes does to the daemon's life.
use Prim.Native.String.{◌++◌ as concat}
use stocky_cognitive_runtime.Prelude.{ℕ, ◌≤◌, ◌≡◌, ◌⊎◌, String, some, List}
use stocky_cognitive_runtime.Runtime.Lifecycle.{LifecycleState, stopped, shutdown}
use stocky_cognitive_runtime.Runtime.Daemon.{RuntimeDaemon}
use mathlib.Core.Path.{subst}
use stocky_cognitive_runtime.Runtime.Daemon.Moves.{Call, run, Moves, run-Moves, shutdown-Moves}

-- The daemon has counted a panic for each recovery, and knows when it was started unless it never was.
pub record IsTracked (d : RuntimeDaemon) : Type 0 where
  pub recoveries_counted : d.recovery_count ≤ d.panic_count
  pub started : (d.lifecycle ≡ stopped) ⊎ ((t : ℕ) × (d.started_at ≡ some t))

abbrev moved : RuntimeDaemon → LifecycleState → RuntimeDaemon
moved d to = record d { lifecycle = to }

-- A daemon that is SHUTDOWN stays so, whatever calls and crashes it gets.
pub shutdown_stays :
    (d : RuntimeDaemon) (cs : List Call) → d.lifecycle ≡ shutdown → (run d cs).lifecycle ≡ shutdown
shutdown_stays d cs e =
    shutdown-Moves cs (run d cs).lifecycle
      (subst (λ s. Moves cs s (run d cs).lifecycle) e (run-Moves d cs))
