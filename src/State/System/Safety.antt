-- ===== src/State/System/Safety.antt =====
-- What holds of core/lifecycle_manager.py after any calls.
use stocky_cognitive_runtime.Prelude.{
  ℕ, suc, ◌≡◌, ◌⊎◌, inl, inr, refl, Bool-cases, String, true, Option, none, some, List, [], ◌∷◌,
  arith, ltb,
}
use stocky_cognitive_runtime.State.{
  idle, planning, completed, StateContext, transition, move, can_transition_to,
  time_in_current_state,
}
use stocky_cognitive_runtime.State.System.{
  stopped, running, shutting_down, suspended, failing, same_status, LifecycleManager, new_manager,
  SystemCall, boots, shuts_down, suspends, resumes, errs, boot_system, close_down, shut_down_system,
  suspend, resume_system, record_system_error, system_step, system_run,
}

-- The manager's state machine rests in IDLE or PLANNING, and it has started if it runs or is
-- suspended.
pub record IsEarly (m : LifecycleManager) : Type 0 where
  pub place : (m.context.machine.current ≡ idle) ⊎ (m.context.machine.current ≡ planning)
  pub started : same_status m.status running ≡ true → (t : ℕ) × (m.started_at ≡ some t)
  pub paused : same_status m.status suspended ≡ true → (t : ℕ) × (m.started_at ≡ some t)

planning_keeps :
    (c : StateContext) (checked moved : ℕ)
    → (c.machine.current ≡ idle) ⊎ (c.machine.current ≡ planning)
    → ((transition c planning "system_boot" checked moved).0.machine.current ≡ idle)
      ⊎ ((transition c planning "system_boot" checked moved).0.machine.current ≡ planning)
unfolding transition can_transition_to move time_in_current_state
planning_keeps c checked moved (inl e) = inr (ground (arith, e))
planning_keeps c checked moved (inr e) = inr (ground (arith, e))

completed_refused :
    (c : StateContext) (checked moved : ℕ)
    → (c.machine.current ≡ idle) ⊎ (c.machine.current ≡ planning)
    → (transition c completed "system_shutdown" checked moved).0 ≡ c
unfolding transition can_transition_to
completed_refused c checked moved (inl e) = ground (arith, e)
completed_refused c checked moved (inr e) = ground (arith, e)

close_down-IsEarly :
    (m : LifecycleManager) (started : Option ℕ) (now checked moved : ℕ)
    → IsEarly m
    → IsEarly
        (close_down
          (record m { status = shutting_down; stopped_at = some now })
          started
          now
          checked
          moved).0
unfolding close_down
close_down-IsEarly m none now checked moved h = record {
  place = h.place;
  started = λ bad. ground (arith, bad);
  paused = λ bad. ground (arith, bad);
}
close_down-IsEarly m (some t) now checked moved h = record {
  place = rw (completed_refused m.context checked moved h.place) h.place;
  started = λ bad. ground (arith, bad);
  paused = λ bad. ground (arith, bad);
}

boot-IsEarly :
    (m : LifecycleManager) (now checked moved : ℕ)
    → IsEarly m
    → IsEarly (boot_system m now checked moved).0
unfolding boot_system
boot-IsEarly m now checked moved h = elim (Bool-cases (same_status m.status stopped)) [
  | inl e ↦ rw e (record {
    place = planning_keeps m.context checked moved h.place;
    started = λ _. (now, refl);
    paused = λ _. (now, refl);
  })
  | inr e ↦ rw e h
]

shut_down-IsEarly :
    (m : LifecycleManager) (now checked moved : ℕ)
    → IsEarly m
    → IsEarly (shut_down_system m now checked moved).0
unfolding shut_down_system
shut_down-IsEarly m now checked moved h = elim (Bool-cases (same_status m.status running)) [
  | inl e ↦ rw e (close_down-IsEarly m m.started_at now checked moved h)
  | inr e ↦ rw e h
]

suspend-IsEarly : (m : LifecycleManager) → IsEarly m → IsEarly (suspend m).0
unfolding suspend
suspend-IsEarly m h = elim (Bool-cases (same_status m.status running)) [
  | inl e ↦ rw e (record { place = h.place; started = λ _. h.started e; paused = λ _. h.started e })
  | inr e ↦ rw e h
]

resume-IsEarly : (m : LifecycleManager) → IsEarly m → IsEarly (resume_system m).0
unfolding resume_system
resume-IsEarly m h = elim (Bool-cases (same_status m.status suspended)) [
  | inl e ↦ rw e (record { place = h.place; started = λ _. h.paused e; paused = λ _. h.paused e })
  | inr e ↦ rw e h
]

error-IsEarly :
    (m : LifecycleManager) (error : String) → IsEarly m → IsEarly (record_system_error m error)
unfolding record_system_error
error-IsEarly m error h = elim (Bool-cases (ltb 5 (suc m.error_count))) [
  | inl e ↦ rw e (record {
    place = h.place;
    started = λ bad. ground (arith, bad);
    paused = λ bad. ground (arith, bad);
  })
  | inr e ↦ rw e (record { place = h.place; started = h.started; paused = h.paused })
]

step-IsEarly : (m : LifecycleManager) (c : SystemCall) → IsEarly m → IsEarly (system_step m c)
unfolding system_step
step-IsEarly m (boots now checked moved) h = boot-IsEarly m now checked moved h
step-IsEarly m (shuts_down now checked moved) h = shut_down-IsEarly m now checked moved h
step-IsEarly m suspends h = suspend-IsEarly m h
step-IsEarly m resumes h = resume-IsEarly m h
step-IsEarly m (errs error) h = error-IsEarly m error h

run-IsEarly : (m : LifecycleManager) (cs : List SystemCall) → IsEarly m → IsEarly (system_run m cs)
unfolding system_run
run-IsEarly m [] h = h
run-IsEarly m (c ∷ cs) h = run-IsEarly (system_step m c) cs (step-IsEarly m c h)

-- Whatever calls a new manager gets, its state machine is IDLE or PLANNING afterwards (the
-- transition to COMPLETED at a shutdown is never accepted), and it has a time of start while it
-- runs or is suspended.
pub system_run-IsEarly : (cs : List SystemCall) → IsEarly (system_run new_manager cs)
system_run-IsEarly cs = run-IsEarly new_manager cs (record {
  place = inl refl;
  started = λ bad. ground (arith, bad);
  paused = λ bad. ground (arith, bad);
})

failing_step :
    (m : LifecycleManager) (c : SystemCall)
    → m.status ≡ failing
    → (system_step m c).status ≡ failing
unfolding system_step boot_system shut_down_system suspend resume_system record_system_error
failing_step m (boots now checked moved) h = ground (arith, h)
failing_step m (shuts_down now checked moved) h = ground (arith, h)
failing_step m suspends h = ground (arith, h)
failing_step m resumes h = ground (arith, h)
failing_step m (errs error) h = ground (arith, h)

-- A manager that is FAILED stays so, whatever calls it gets.
failing_stays :
    (m : LifecycleManager) (cs : List SystemCall)
    → m.status ≡ failing
    → (system_run m cs).status ≡ failing
unfolding system_run
failing_stays m [] h = h
failing_stays m (c ∷ cs) h = failing_stays (system_step m c) cs (failing_step m c h)
