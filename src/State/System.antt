-- ===== src/State/System.antt =====
-- core/lifecycle_manager.py: the system's life around the state machine. `now` and the other times
-- are the readings of the clock, in their order; the observer and the event bus are left aside.
pub mod Safety
use stocky_cognitive_runtime.Prelude.{
  ℕ, suc, ◌≡◌, ◌⊎◌, inl, inr, refl, String, Bool, true, false, not, Option, none, some, List, [],
  ◌∷◌, arith, ltb, if◌then◌else◌,
}
use stocky_cognitive_runtime.Prelude.Int.{ℤ, pos, sub_ℕ}
use stocky_cognitive_runtime.State.{
  RuntimeState, idle, planning, completed, StateContext, new_context, transition, move,
  can_transition_to, time_in_current_state,
}

pub data SystemStatus : Type 0 where
  stopped booting running suspended recovering shutting_down failing : SystemStatus

abbrev pub same_status : SystemStatus → SystemStatus → Bool
same_status stopped stopped = true
same_status booting booting = true
same_status running running = true
same_status suspended suspended = true
same_status recovering recovering = true
same_status shutting_down shutting_down = true
same_status failing failing = true
same_status _ _ = false

pub record LifecycleManager : Type 0 where
  pub status : SystemStatus
  pub started_at : Option ℕ
  pub stopped_at : Option ℕ
  pub uptime : ℤ
  pub error_count : ℕ
  pub last_error : Option String
  pub context : StateContext

abbrev pub new_manager : LifecycleManager
new_manager = record {
  status = stopped;
  started_at = none;
  stopped_at = none;
  uptime = pos 0;
  error_count = 0;
  last_error = none;
  context = new_context;
}

-- What a call returns, or the TypeError of a difference with `None`.
pub data Reply : Type 0 where
  returned : Bool → Reply
  type_error : Reply

unfoldable pub boot_system : LifecycleManager → ℕ → ℕ → ℕ → LifecycleManager × Reply
unfolding transition
boot_system m now checked moved =
    if not (same_status m.status stopped) then (m, returned false) else (
      record m {
        status = running;
        started_at = some now;
        context = (transition m.context planning "system_boot" checked moved).0;
      },
      returned true,
    )

-- `shutdown`, from the subtraction on.
unfoldable pub close_down : LifecycleManager → Option ℕ → ℕ → ℕ → ℕ → LifecycleManager × Reply
unfolding transition
close_down m none now checked moved = (m, type_error)
close_down m (some started) now checked moved = (
  record m {
    uptime = sub_ℕ now started;
    context = (transition m.context completed "system_shutdown" checked moved).0;
    status = stopped;
  },
  returned true,
)

unfoldable pub shut_down_system : LifecycleManager → ℕ → ℕ → ℕ → LifecycleManager × Reply
unfolding close_down
shut_down_system m now checked moved =
    if not (same_status m.status running)
    then (m, returned false)
    else close_down (record m { status = shutting_down; stopped_at = some now }) m.started_at now
        checked moved

unfoldable pub suspend : LifecycleManager → LifecycleManager × Reply
suspend m =
    if not (same_status m.status running)
    then (m, returned false)
    else (record m { status = suspended }, returned true)

unfoldable pub resume_system : LifecycleManager → LifecycleManager × Reply
resume_system m =
    if not (same_status m.status suspended)
    then (m, returned false)
    else (record m { status = running }, returned true)

unfoldable pub record_system_error : LifecycleManager → String → LifecycleManager
record_system_error m error =
    let counted = record m { error_count = suc m.error_count; last_error = some error } in
    if ltb 5 (suc m.error_count) then record counted { status = failing } else counted

-- `uptime`, at a reading of the clock.
unfoldable pub uptime_at : LifecycleManager → ℕ → ℤ
uptime_at m now = elim m.started_at [
  | none ↦ pos 0
  | some started ↦ elim m.stopped_at [ none ↦ sub_ℕ now started | some ended ↦ sub_ℕ ended started ]
]

pub data SystemCall : Type 0 where
  boots shuts_down : ℕ → ℕ → ℕ → SystemCall
  suspends resumes : SystemCall
  errs : String → SystemCall

unfoldable pub system_step : LifecycleManager → SystemCall → LifecycleManager
unfolding boot_system shut_down_system suspend resume_system record_system_error
system_step m (boots now checked moved) = (boot_system m now checked moved).0
system_step m (shuts_down now checked moved) = (shut_down_system m now checked moved).0
system_step m suspends = (suspend m).0
system_step m resumes = (resume_system m).0
system_step m (errs error) = record_system_error m error

unfoldable pub system_run : LifecycleManager → List SystemCall → LifecycleManager
unfolding system_step
system_run m [] = m
system_run m (c ∷ cs) = system_run (system_step m c) cs
