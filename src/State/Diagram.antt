-- ===== src/State/Diagram.antt =====
-- The tables of runtime_state_machine.py read as a diagram, and `transition` on every branch.
use stocky_cognitive_runtime.Prelude.{ℕ, ◌≡◌, ◌≢◌, ◌↔◌, refl, String, true, false, [], arith}
use stocky_cognitive_runtime.State.{
  RuntimeState, idle, planning, executing, verifying, recovering, failed, completed, same_state,
  contains, transition_matrix, forbidden_transitions, state_timeouts, StateContext, accepted,
  disallowed, time_in_current_state, exceeds, transition,
}

-- The diagram that the comments of the engine describe, an edge for each row.
infix 4 ◌⟶◌
pub data ◌⟶◌ : RuntimeState → RuntimeState → Type 0 where
  plan : idle ⟶ planning
  execute : planning ⟶ executing
  verify : executing ⟶ verifying
  interrupt : executing ⟶ recovering
  fail : executing ⟶ failed
  complete : verifying ⟶ completed
  reject : verifying ⟶ recovering
  replan : recovering ⟶ planning
  give_up : recovering ⟶ failed
  abandon : recovering ⟶ idle
  reset_failed : failed ⟶ idle
  reset_completed : completed ⟶ idle

pub ruleset edges = (
  plan, execute, verify, interrupt, fail, complete, reject, replan, give_up, abandon, reset_failed,
  reset_completed,
)

pub same_state_lem : (s t : RuntimeState) → same_state s t ≡ true → s ≡ t
same_state_lem s t h = ground arith

pub same_state_refl : (s : RuntimeState) → same_state s s ≡ true
same_state_refl s = ground arith

-- A row of the matrix, other than the step from a state to itself, is an edge.
pub contains-⟶ :
    (s t : RuntimeState) → same_state t s ≡ false → contains (transition_matrix s) t ≡ true → s ⟶ t
contains-⟶ s t ne h = grind (arith, edges)

pub ⟶-contains : {s t : RuntimeState} → s ⟶ t → contains (transition_matrix s) t ≡ true
⟶-contains plan = refl
⟶-contains _ = refl

pub ⟶-irrefl : {s t : RuntimeState} → s ⟶ t → same_state t s ≡ false
⟶-irrefl plan = refl
⟶-irrefl _ = refl

-- Between two states, no step is both allowed and forbidden, and the step from PLANNING to IDLE is
-- the only one that neither table names.
pub tables_partition :
    (s t : RuntimeState)
    → same_state t s ≡ false
    → ((contains (transition_matrix s) t ≡ true) → contains (forbidden_transitions s) t ≡ false)
      × (((contains (transition_matrix s) t ≡ false)
            × (contains (forbidden_transitions s) t ≡ false))
          ↔ ((s ≡ planning) × (t ≡ idle)))
tables_partition s t ne = (ground arith, (λ h. ground arith, λ h. ground arith))

abbrev pub InTime : StateContext → ℕ → Type 0
InTime c checked =
    exceeds (time_in_current_state c.machine checked) (state_timeouts c.machine.current) ≡ false

module _ (c : StateContext) (target : RuntimeState) (trigger : String) (checked now : ℕ) where
  -- A transition to another state is accepted exactly when the diagram has the edge and the current
  -- state has not outstayed its timeout.
  pub transition-⟶ :
      same_state target c.machine.current ≡ false
      → ((transition c target trigger checked now).1 ≡ accepted)
        ↔ ((c.machine.current ⟶ target) × InTime c checked)
  unfolding transition
  transition-⟶ ne = (
    λ h. (contains-⟶ c.machine.current target ne (ground arith), ground arith),
    λ h. ground (arith, ⟶-contains h.0),
  )

  -- A refused transition leaves the context as it was and runs no hook.
  transition_refused :
      (transition c target trigger checked now).1 ≢ accepted
      → ((transition c target trigger checked now).0 ≡ c)
        × ((transition c target trigger checked now).2 ≡ [])
  unfolding transition
  transition_refused h = ground arith

  -- The refusal "disallowed_transition" is given for PLANNING to IDLE only.
  transition_disallowed :
      {s t : RuntimeState}
      → (transition c target trigger checked now).1 ≡ disallowed s t
      → (s ≡ planning) × (t ≡ idle)
  unfolding transition
  transition_disallowed h = ground arith
