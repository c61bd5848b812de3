-- ===== src/State/History.antt =====
-- state_context.py over any sequence of calls: the recorded transitions as a path in the diagram.
use stocky_cognitive_runtime.Prelude.{
  ℕ, ◌≡◌, ◌⊎◌, refl, String, Bool, true, false, Option, none, some, List, [], ◌∷◌, ◌++◌, arith, any,
  inl, inr, sym, ◌∙◌,
}
use stocky_cognitive_runtime.State.{
  RuntimeState, idle, planning, executing, completed, same_state, StateTransitionRecord, StateData,
  StateContext, new_context, move, on_enter, on_exit, on_error, set_execution_id, set_error,
}
use stocky_cognitive_runtime.State.Diagram.{◌⟶◌, plan, execute}
use stocky_cognitive_runtime.State.Calls.{
  Call, transitions, enters, executes, fails, step, run, transition_cases,
}

-- A list of records is a path in the diagram from one state to another.
abbrev pub IsPathTo : RuntimeState → RuntimeState → List StateTransitionRecord → Type 0
IsPathTo s e [] = s ≡ e
IsPathTo s e (r ∷ rs) = (r.from_state ≡ s) × (s ⟶ r.to_state) × IsPathTo r.to_state e rs

-- What the last record says of the state before the current one and of the time of entry.
abbrev pub last_from : Option RuntimeState → List StateTransitionRecord → Option RuntimeState
last_from before [] = before
last_from before (r ∷ rs) = last_from (some r.from_state) rs

abbrev pub last_time : Option ℕ → List StateTransitionRecord → Option ℕ
last_time before [] = before
last_time before (r ∷ rs) = last_time (some r.timestamp) rs

pub record IsCoherent (d : StateData) : Type 0 where
  pub path : IsPathTo idle d.current d.transitions
  pub previous_recorded : d.previous ≡ last_from none d.transitions
  pub entry_recorded : d.entry_time ≡ last_time none d.transitions
  pub updated_recorded : d.updated_at ≡ last_time none d.transitions

IsPathTo-append :
    (s t u : RuntimeState) (rs : List StateTransitionRecord) (r : StateTransitionRecord)
    → IsPathTo s t rs
    → r.from_state ≡ t
    → t ⟶ u
    → r.to_state ≡ u
    → IsPathTo s u (rs ++ r ∷ [])
IsPathTo-append s t u [] r p from edge to = (from ∙ sym p, rw (p, to) edge, to)
IsPathTo-append s t u (q ∷ rs) r p from edge to =
    (p.0, p.1, IsPathTo-append q.to_state t u rs r p.2 from edge to)

last_from-append :
    (o : Option RuntimeState) (rs : List StateTransitionRecord) (r : StateTransitionRecord)
    → last_from o (rs ++ r ∷ []) ≡ some r.from_state
last_from-append o [] r = refl
last_from-append o (q ∷ rs) r = last_from-append (some q.from_state) rs r

last_time-append :
    (o : Option ℕ) (rs : List StateTransitionRecord) (r : StateTransitionRecord)
    → last_time o (rs ++ r ∷ []) ≡ some r.timestamp
last_time-append o [] r = refl
last_time-append o (q ∷ rs) r = last_time-append (some q.timestamp) rs r

move-IsCoherent :
    (d : StateData) (target : RuntimeState) (trigger : String) (now : ℕ)
    → d.current ⟶ target
    → IsCoherent d
    → IsCoherent (move d target trigger now)
unfolding move
move-IsCoherent d target trigger now edge h = record {
  path = IsPathTo-append idle d.current target d.transitions _ h.path refl edge refl;
  previous_recorded = sym (last_from-append none d.transitions _);
  entry_recorded = sym (last_time-append none d.transitions _);
  updated_recorded = sym (last_time-append none d.transitions _);
}

step-IsCoherent :
    (c : StateContext) (call : Call) → IsCoherent c.machine → IsCoherent (step c call).machine
unfolding step on_enter on_exit on_error set_execution_id set_error
step-IsCoherent c (transitions target trigger checked now) h =
    transition_cases IsCoherent c target trigger checked now h
      λ edge fits. move-IsCoherent c.machine target trigger now edge h
step-IsCoherent c (enters state hook) h = h
step-IsCoherent c (executes id) h = record {
  path = h.path;
  previous_recorded = h.previous_recorded;
  entry_recorded = h.entry_recorded;
  updated_recorded = h.updated_recorded;
}
step-IsCoherent c (fails error) h = record {
  path = h.path;
  previous_recorded = h.previous_recorded;
  entry_recorded = h.entry_recorded;
  updated_recorded = h.updated_recorded;
}
step-IsCoherent c _ h = h

-- From a context with a coherent history, whatever the calls, the recorded transitions are a path in
-- the diagram from IDLE to the current state, the previous state is where the last record starts,
-- and the entry and update times are the time of the last record.
pub run-IsCoherent :
    (c : StateContext) (calls : List Call) → IsCoherent c.machine → IsCoherent (run c calls).machine
unfolding run
run-IsCoherent c [] h = h
run-IsCoherent c (call ∷ calls) h = run-IsCoherent (step c call) calls (step-IsCoherent c call h)

pub new-IsCoherent : IsCoherent new_context.machine
new-IsCoherent = record {
  path = refl;
  previous_recorded = refl;
  entry_recorded = refl;
  updated_recorded = refl;
}

abbrev pub enters_executing : StateTransitionRecord → Bool
enters_executing r = same_state r.to_state executing

abbrev starts : RuntimeState → Bool
starts idle = true
starts planning = true
starts _ = false

start_edge : {s t : RuntimeState} → s ⟶ t → starts s ≡ true → (t ≡ executing) ⊎ (starts t ≡ true)
start_edge plan h = inr refl
start_edge execute h = inl refl
start_edge edge h = ground arith

path_needs_execution :
    (s : RuntimeState) (rs : List StateTransitionRecord)
    → starts s ≡ true
    → IsPathTo s completed rs
    → any enters_executing rs ≡ true
path_needs_execution s [] h p = ground arith
path_needs_execution s (r ∷ rs) h p = elim (start_edge p.1 h) [
  | inl e ↦ rw e refl
  | inr again ↦ ground (arith, path_needs_execution r.to_state rs again p.2)
]

-- A context that starts afresh is COMPLETED only after a recorded entry into EXECUTING.
pub completed_needs_execution :
    (calls : List Call)
    → (run new_context calls).machine.current ≡ completed
    → any enters_executing (run new_context calls).machine.transitions ≡ true
completed_needs_execution calls h =
    path_needs_execution idle _ refl
      (rw h at (run-IsCoherent new_context calls new-IsCoherent).path)
