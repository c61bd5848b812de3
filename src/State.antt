-- ===== src/State.antt =====
-- cognitive_runtime/state/runtime_state_machine.py and state_context.py: the runtime's state machine
-- with its tables, timeouts, transition records and hooks.
--
-- Clock readings are whole microseconds (the resolution of `datetime`) and arguments of the calls
-- that read the clock, one for each reading. A hook is named by a text; what it does is outside the
-- model, except that it does not call back into the context. A call that runs hooks returns the
-- list of their calls, in order; an exception of a hook is swallowed by the code.
pub mod Diagram
pub mod Calls
pub mod History
pub mod Timeouts
pub mod Guards
pub mod System
use stocky_cognitive_runtime.Prelude.{
  ℕ, ◌++◌, String, Bool, true, false, not, Option, none, some, List, [], ◌∷◌, any, if◌then◌else◌,
}
use stocky_cognitive_runtime.Prelude.Int.{ℤ, pos, sub_ℕ, gt_ℕ}

pub data RuntimeState : Type 0 where
  idle planning executing verifying recovering failed completed : RuntimeState

abbrev pub same_state : RuntimeState → RuntimeState → Bool
same_state idle idle = true
same_state planning planning = true
same_state executing executing = true
same_state verifying verifying = true
same_state recovering recovering = true
same_state failed failed = true
same_state completed completed = true
same_state _ _ = false

-- `target in states`
abbrev pub contains : List RuntimeState → RuntimeState → Bool
contains states target = any (same_state target) states

abbrev pub transition_matrix : RuntimeState → List RuntimeState
transition_matrix idle = planning ∷ []
transition_matrix planning = executing ∷ []
transition_matrix executing = executing ∷ verifying ∷ recovering ∷ failed ∷ []
transition_matrix verifying = completed ∷ recovering ∷ []
transition_matrix recovering = planning ∷ failed ∷ idle ∷ []
transition_matrix failed = idle ∷ []
transition_matrix completed = idle ∷ []

abbrev pub forbidden_transitions : RuntimeState → List RuntimeState
forbidden_transitions idle = executing ∷ completed ∷ failed ∷ verifying ∷ recovering ∷ []
forbidden_transitions planning = completed ∷ recovering ∷ failed ∷ verifying ∷ []
forbidden_transitions executing = completed ∷ idle ∷ planning ∷ []
forbidden_transitions verifying = executing ∷ planning ∷ failed ∷ idle ∷ []
forbidden_transitions recovering = completed ∷ executing ∷ verifying ∷ []
forbidden_transitions failed = executing ∷ completed ∷ planning ∷ verifying ∷ recovering ∷ []
forbidden_transitions completed = executing ∷ planning ∷ verifying ∷ recovering ∷ failed ∷ []

-- In microseconds; `none` is `float("inf")`.
abbrev pub state_timeouts : RuntimeState → Option ℕ
state_timeouts planning = some 5_000_000
state_timeouts executing = some 30_000_000
state_timeouts verifying = some 10_000_000
state_timeouts recovering = some 30_000_000
state_timeouts _ = none

pub record StateTransitionRecord : Type 0 where
  pub from_state : RuntimeState
  pub to_state : RuntimeState
  pub timestamp : ℕ
  pub trigger : String
  pub duration : ℤ

-- `error` holds the text of the error that was set.
pub record StateData : Type 0 where
  pub current : RuntimeState
  pub previous : Option RuntimeState
  pub transitions : List StateTransitionRecord
  pub execution_id : String
  pub started_at : Option ℕ
  pub updated_at : Option ℕ
  pub error : Option String
  pub entry_time : Option ℕ

abbrev pub new_data : StateData
new_data = record {
  current = idle;
  previous = none;
  transitions = [];
  execution_id = "";
  started_at = none;
  updated_at = none;
  error = none;
  entry_time = none;
}

-- A hook table holds the hooks in the order of their registration, each with its state.
pub record StateContext : Type 0 where
  pub machine : StateData
  pub on_enter_hooks : List (RuntimeState × String)
  pub on_exit_hooks : List (RuntimeState × String)
  pub on_error_hooks : List String

abbrev pub new_context : StateContext
new_context = record {
  machine = new_data;
  on_enter_hooks = [];
  on_exit_hooks = [];
  on_error_hooks = [];
}

-- A call `hook(state, other, trigger)`.
pub record HookCall : Type 0 where
  pub hook : String
  pub state : RuntimeState
  pub other : RuntimeState
  pub trigger : String

pub data Outcome : Type 0 where
  accepted : Outcome
  forbidden disallowed : RuntimeState → RuntimeState → Outcome
  state_timeout : RuntimeState → Outcome

unfoldable pub time_in_current_state : StateData → ℕ → ℤ
time_in_current_state d now = elim d.entry_time [ none ↦ pos 0 | some t ↦ sub_ℕ now t ]

unfoldable pub can_transition_to : StateData → RuntimeState → Bool
can_transition_to d target = contains (transition_matrix d.current) target

abbrev pub exceeds : ℤ → Option ℕ → Bool
exceeds elapsed none = false
exceeds elapsed (some limit) = gt_ℕ elapsed limit

-- `_run_enter_hooks` and `_run_exit_hooks`: the hooks of a state, in order.
pub run_hooks : List (RuntimeState × String) → RuntimeState → RuntimeState → String → List HookCall
run_hooks [] state other trigger = []
run_hooks ((s, hook) ∷ hooks) state other trigger =
    let rest = run_hooks hooks state other trigger in
    let call : HookCall = record { hook = hook; state = state; other = other; trigger = trigger } in
    if same_state s state then call ∷ rest else rest

-- The writes of an accepted transition, `now` the second reading of the clock.
unfoldable pub move : StateData → RuntimeState → String → ℕ → StateData
move d target trigger now = record d {
  previous = some d.current;
  current = target;
  entry_time = some now;
  updated_at = some now;
  transitions =
      d.transitions
      ++ (record {
        from_state = d.current;
        to_state = target;
        timestamp = now;
        trigger = trigger;
        duration = elim d.entry_time [ none ↦ pos 0 | some t ↦ sub_ℕ now t ];
      })
        ∷ [];
}

-- `transition`, with the readings of the clock for the timeout and for the record.
unfoldable pub transition :
    StateContext → RuntimeState → String → ℕ → ℕ → StateContext × Outcome × List HookCall
unfolding time_in_current_state can_transition_to move
transition c target trigger checked now =
    if same_state target source
    then (c, accepted, [])
    else if not (can_transition_to c.machine target)
    then (
      c,
      (if contains (forbidden_transitions source) target
          then forbidden source target
          else disallowed source target),
      [],
    )
    else if exceeds (time_in_current_state c.machine checked) (state_timeouts source)
    then (c, state_timeout source, [])
    else (
      record c { machine = move c.machine target trigger now },
      accepted,
      run_hooks c.on_exit_hooks source target trigger
          ++ run_hooks c.on_enter_hooks target source trigger,
    )
  where
    source : RuntimeState
    source = c.machine.current

pub on_enter : StateContext → RuntimeState → String → StateContext
on_enter c state hook = record c { on_enter_hooks = c.on_enter_hooks ++ (state, hook) ∷ [] }

pub on_exit : StateContext → RuntimeState → String → StateContext
on_exit c state hook = record c { on_exit_hooks = c.on_exit_hooks ++ (state, hook) ∷ [] }

pub on_error : StateContext → String → StateContext
on_error c hook = record c { on_error_hooks = c.on_error_hooks ++ hook ∷ [] }

pub set_execution_id : StateContext → String → StateContext
set_execution_id c id = record c { machine = record c.machine { execution_id = id } }

pub set_error : StateContext → String → StateContext
set_error c error = record c { machine = record c.machine { error = some error } }
