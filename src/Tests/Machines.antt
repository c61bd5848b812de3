-- ===== src/Tests/Machines.antt =====
-- Tests of the state machine, its guards and the manager over it.
use stocky_cognitive_runtime.Prelude.{
  ◌≡◌, ◌≢◌, ◌↔◌, refl, true, false, some, List, [], ◌∷◌, arith, any,
}
use stocky_cognitive_runtime.State.{
  idle, planning, executing, verifying, completed, failed, accepted, disallowed, StateContext,
  new_context, transition, move, contains, transition_matrix, forbidden_transitions,
  time_in_current_state, can_transition_to,
}
use stocky_cognitive_runtime.State.Calls.{Call, transitions, step, run}
use stocky_cognitive_runtime.State.Diagram.{◌⟶◌, InTime, transition-⟶, tables_partition}
use stocky_cognitive_runtime.State.History.{
  IsCoherent, new-IsCoherent, run-IsCoherent, enters_executing, completed_needs_execution,
}
use stocky_cognitive_runtime.State.Timeouts.{timed_out_state_stays}
use stocky_cognitive_runtime.State.Guards.{
  TransitionRule, TransitionGuard, evaluate, no_pending_locks,
}
use stocky_cognitive_runtime.State.System.{
  LifecycleManager, new_manager, failing, boots, shuts_down, system_run,
}
use stocky_cognitive_runtime.State.System.Safety.{IsEarly, system_run-IsEarly}

abbrev life : List Call
life =
    transitions planning "go" 1 2
    ∷ transitions executing "go" 3 4
    ∷ transitions verifying "go" 5 6
    ∷ transitions completed "go" 7 8
    ∷ []

transition-⟶_example :
    ((transition new_context planning "go" 1 2).1 ≡ accepted)
    ↔ ((new_context.machine.current ⟶ planning) × InTime new_context 1)
transition-⟶_example = transition-⟶ new_context planning "go" 1 2 refl

refused : (transition new_context completed "go" 1 2).1 ≢ accepted
unfolding transition can_transition_to
refused = λ h. ground (arith, h)

abbrev in_planning : StateContext
in_planning = record new_context {
  machine = record new_context.machine { current = planning; entry_time = some 2 };
}

back_to_idle : (transition in_planning idle "go" 3 4).1 ≡ disallowed planning idle
unfolding transition can_transition_to
back_to_idle = refl

tables_partition_example :
    ((contains (transition_matrix planning) idle ≡ true)
      → contains (forbidden_transitions planning) idle ≡ false)
    × (((contains (transition_matrix planning) idle ≡ false)
          × (contains (forbidden_transitions planning) idle ≡ false))
        ↔ ((planning ≡ planning) × (idle ≡ idle)))
tables_partition_example = tables_partition planning idle refl

run-IsCoherent_example : IsCoherent (run new_context life).machine
run-IsCoherent_example = run-IsCoherent new_context life new-IsCoherent

life_completes : (run new_context life).machine.current ≡ completed
unfolding run step transition can_transition_to time_in_current_state move
life_completes = refl

completed_needs_execution_example :
    any enters_executing (run new_context life).machine.transitions ≡ true
completed_needs_execution_example = completed_needs_execution life life_completes

abbrev late : List Call
late = transitions failed "give up" 9000000 9000001 ∷ []

timed_out_state_stays_example : (run in_planning late).machine.current ≡ in_planning.machine.current
timed_out_state_stays_example =
    timed_out_state_stays in_planning 2 5000000 late refl refl (omega arith, tt)

abbrev open_rule : TransitionRule
open_rule = record {
  source = planning;
  target = executing;
  condition = some no_pending_locks;
  description = "locks";
}

abbrev id_rule : TransitionRule
id_rule = record {
  source = planning;
  target = executing;
  condition = some (λ s t. (false, some "no_execution_id"));
  description = "id";
}

abbrev gates : TransitionGuard
gates = record { pre_rules = open_rule ∷ id_rule ∷ []; post_rules = open_rule ∷ [] }

open_rule_passes : (evaluate open_rule planning executing).0 ≡ true
unfolding evaluate no_pending_locks
open_rule_passes = refl

id_rule_fails : (evaluate id_rule planning executing).0 ≡ false
unfolding evaluate
id_rule_fails = refl

system_run-IsEarly_example : IsEarly (system_run new_manager (boots 1 2 3 ∷ shuts_down 4 5 6 ∷ []))
system_run-IsEarly_example = system_run-IsEarly (boots 1 2 3 ∷ shuts_down 4 5 6 ∷ [])

abbrev failed_manager : LifecycleManager
failed_manager = record new_manager { status = failing; error_count = 6 }
