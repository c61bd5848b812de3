-- ===== src/State/Timeouts.antt =====
-- state_context.py: what the timeouts do to a state that has outstayed its own.
use stocky_cognitive_runtime.Prelude.{
  ℕ, ◌+◌, ◌<◌, ◌≡◌, refl, true, some, List, [], ◌∷◌, arith, All, sym, ◌∙◌,
}
use stocky_cognitive_runtime.State.{
  RuntimeState, state_timeouts, StateData, StateContext, time_in_current_state, exceeds, on_enter,
  on_exit, on_error, set_execution_id, set_error,
}
use stocky_cognitive_runtime.State.Calls.{
  Call, transitions, enters, executes, fails, step, run, transition_cases,
}
use mathlib.Core.Bool.{false≢true}

-- A transition attempt later than a given time.
abbrev pub IsLater : ℕ → Call → Type 0
IsLater t (transitions target trigger checked now) = t < checked
IsLater t _ = Unit

record IsStuck (s : RuntimeState) (t : ℕ) (d : StateData) : Type 0 where
  at_state : d.current ≡ s
  since : d.entry_time ≡ some t

late_exceeds :
    (d : StateData) (t limit checked : ℕ)
    → d.entry_time ≡ some t
    → t + limit < checked
    → exceeds (time_in_current_state d checked) (some limit) ≡ true
unfolding time_in_current_state
late_exceeds d t limit checked e late = ground arith

step-IsStuck :
    (s : RuntimeState) (t limit : ℕ) (c : StateContext) (call : Call)
    → state_timeouts s ≡ some limit
    → IsLater (t + limit) call
    → IsStuck s t c.machine
    → IsStuck s t (step c call).machine
unfolding step on_enter on_exit on_error set_execution_id set_error
step-IsStuck s t limit c (transitions target trigger checked now) e late h =
    transition_cases (IsStuck s t) c target trigger checked now h λ edge fits.
      let late_too = late_exceeds c.machine t limit checked h.since late in
      absurd (false≢true (sym fits ∙ simp (h.at_state, e) late_too))
step-IsStuck s t limit c (enters state hook) e late h = h
step-IsStuck s t limit c (executes id) e late h = record { at_state = h.at_state; since = h.since }
step-IsStuck s t limit c (fails error) e late h = record { at_state = h.at_state; since = h.since }
step-IsStuck s t limit c _ e late h = h

run-IsStuck :
    (s : RuntimeState) (t limit : ℕ) (c : StateContext) (calls : List Call)
    → state_timeouts s ≡ some limit
    → All (IsLater (t + limit)) calls
    → IsStuck s t c.machine
    → IsStuck s t (run c calls).machine
unfolding run
run-IsStuck s t limit c [] e late h = h
run-IsStuck s t limit c (call ∷ calls) e late h =
    run-IsStuck s t limit (step c call) calls e late.1 (step-IsStuck s t limit c call e late.0 h)

-- A state with a timeout that was entered at time t is never left by calls whose attempts at a
-- transition all read the clock after t plus the timeout: RECOVERING and FAILED are refused too.
pub timed_out_state_stays :
    (c : StateContext) (t limit : ℕ) (calls : List Call)
    → c.machine.entry_time ≡ some t
    → state_timeouts c.machine.current ≡ some limit
    → All (IsLater (t + limit)) calls
    → (run c calls).machine.current ≡ c.machine.current
timed_out_state_stays c t limit calls since e late =
    (run-IsStuck c.machine.current t limit c calls e late
      (record { at_state = refl; since = since })).at_state
