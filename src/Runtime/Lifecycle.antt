-- ===== src/Runtime/Lifecycle.antt =====
-- cognitive_runtime/runtime/daemon/runtime_lifecycle.py: the states of the daemon and the table of
-- its transitions.
use stocky_cognitive_runtime.Prelude.{Bool, true, false, not, List, [], ◌∷◌, any, if◌then◌else◌}
use stocky_cognitive_runtime.Prelude.Raise.{Result, ok, err}

pub data LifecycleState : Type 0 where
  stopped booting running paused recovering shutdown : LifecycleState

abbrev pub same_lifecycle : LifecycleState → LifecycleState → Bool
same_lifecycle stopped stopped = true
same_lifecycle booting booting = true
same_lifecycle running running = true
same_lifecycle paused paused = true
same_lifecycle recovering recovering = true
same_lifecycle shutdown shutdown = true
same_lifecycle _ _ = false

abbrev pub valid_transitions : LifecycleState → List LifecycleState
valid_transitions stopped = booting ∷ []
valid_transitions booting = running ∷ shutdown ∷ []
valid_transitions running = paused ∷ recovering ∷ shutdown ∷ []
valid_transitions paused = running ∷ recovering ∷ shutdown ∷ []
valid_transitions recovering = running ∷ shutdown ∷ []
valid_transitions shutdown = []

unfoldable pub can_transition : LifecycleState → LifecycleState → Bool
can_transition from to = any (same_lifecycle to) (valid_transitions from)

-- `InvalidLifecycleTransition`, with its two states.
pub data Invalid : Type 0 where
  invalid : LifecycleState → LifecycleState → Invalid

unfoldable pub assert_transition : LifecycleState → LifecycleState → Result Invalid Unit
unfolding can_transition
assert_transition from to = if not (can_transition from to) then err (invalid from to) else ok tt
