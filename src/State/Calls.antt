-- ===== src/State/Calls.antt =====
-- state_context.py: any sequence of the calls that change a context.
use stocky_cognitive_runtime.Prelude.{
  ℕ, ◌≡◌, String, false, Option, List, [], ◌∷◌, Bool-cases, inl, inr,
}
use stocky_cognitive_runtime.Prelude.Int.{ℤ}
use stocky_cognitive_runtime.State.{
  RuntimeState, same_state, state_timeouts, StateData, StateContext, contains, transition_matrix,
  time_in_current_state, exceeds, move, transition, on_enter, on_exit, on_error, set_execution_id,
  set_error,
}
use stocky_cognitive_runtime.State.Diagram.{◌⟶◌, contains-⟶}

-- The calls that change a context.
pub data Call : Type 0 where
  transitions : RuntimeState → String → ℕ → ℕ → Call
  enters exits : RuntimeState → String → Call
  errors executes fails : String → Call

unfoldable pub step : StateContext → Call → StateContext
step c (transitions target trigger checked now) = (transition c target trigger checked now).0
step c (enters state hook) = on_enter c state hook
step c (exits state hook) = on_exit c state hook
step c (errors hook) = on_error c hook
step c (executes id) = set_execution_id c id
step c (fails error) = set_error c error

unfoldable pub run : StateContext → List Call → StateContext
run c [] = c
run c (call ∷ calls) = run (step c call) calls

-- A transition leaves the machine alone, or moves it along an edge in time.
pub transition_cases :
    (P : StateData → Type 0) (c : StateContext) (target : RuntimeState) (trigger : String)
    (checked now : ℕ)
    → P c.machine
    → (c.machine.current ⟶ target
        → exceeds (time_in_current_state c.machine checked) (state_timeouts c.machine.current)
          ≡ false
        → P (move c.machine target trigger now))
    → P (transition c target trigger checked now).0.machine
unfolding transition
transition_cases P c target trigger checked now stays moves =
    elim (Bool-cases (same_state target c.machine.current)) [
      | inl e ↦ rw e stays
      | inr ne ↦ elim (Bool-cases (contains (transition_matrix c.machine.current) target)) [
        | inr e ↦ rw (ne, e) stays
        | inl e ↦ elim (Bool-cases (exceeds elapsed limit)) [
          | inl late ↦ rw (ne, e, late) stays
          | inr fits ↦ rw (ne, e, fits) (moves (contains-⟶ c.machine.current target ne e) fits)
        ]
      ]
    ]
  where
    elapsed : ℤ
    elapsed = time_in_current_state c.machine checked

    limit : Option ℕ
    limit = state_timeouts c.machine.current
