-- ===== src/Tests/Clocks.antt =====
-- Tests of the logical clock.
use stocky_cognitive_runtime.Prelude.{◌≡◌, none, some, List, [], ◌∷◌, drop}
use stocky_cognitive_runtime.Kernel.{new_kernel, Tick, stamps, resets, ticks, timeline_since}
use stocky_cognitive_runtime.Kernel.Sequence.{timeline_since-drop}

abbrev history : List Tick
history = stamps "z" none 1 ∷ resets ∷ stamps "a" none 2 ∷ stamps "b" (some "a") 3 ∷ []

timeline_since-drop_example :
    timeline_since (ticks (new_kernel "s") history) 1
    ≡ drop 1 (ticks (new_kernel "s") history).timeline
timeline_since-drop_example = timeline_since-drop "s" history 1
