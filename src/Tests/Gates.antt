-- ===== src/Tests/Gates.antt =====
-- Tests of the gates and the pool of the sandbox.
use stocky_cognitive_runtime.Prelude.{◌≡◌, ◌↔◌, String, true, List, [], ◌∷◌, arith, All}
use stocky_cognitive_runtime.Data.Json.{Json, null}
use stocky_cognitive_runtime.Data.Contract.{success}
use stocky_cognitive_runtime.Sandbox.Enforcer.{new_enforcer, IsFree}
use stocky_cognitive_runtime.Sandbox.Preflight.{analyze, IsSound, analyze-IsSound}
use stocky_cognitive_runtime.Sandbox.Cell.{returned, execute_cell, execute_cell-IsFree}
use stocky_cognitive_runtime.Sandbox.Pool.{new_pool, finish, begin}
use stocky_cognitive_runtime.Sandbox.Pool.Balance.{
  starts, steps, begins, IsBalanced, reachable-IsBalanced, finish_within,
}
use stocky_cognitive_runtime.Tests.Samples.{proposal, allowing, result, world, limits}

abbrev reading : List String
reading = "filesystem.read" ∷ []

analyze-IsSound_example : ((analyze (proposal reading)).valid ≡ true) ↔ IsSound (proposal reading)
analyze-IsSound_example = analyze-IsSound (proposal reading)

execute_cell-IsFree_example :
    (((execute_cell new_enforcer 30000 world (proposal reading) allowing).called ≡ true)
      ↔ All (IsFree new_enforcer) reading)
    × (((execute_cell new_enforcer 30000 world (proposal reading) allowing).result.status ≡ success)
        ↔ (All (IsFree new_enforcer) reading
            × ((output : Json) × (returned null ≡ returned output))))
execute_cell-IsFree_example =
    execute_cell-IsFree new_enforcer 30000 world (proposal reading) allowing

reachable-IsBalanced_example : IsBalanced (begin (new_pool limits))
reachable-IsBalanced_example =
    reachable-IsBalanced limits (begin (new_pool limits)) (steps starts begins)

finish_within_example : (finish (λ n. "n") 0 result (begin (new_pool limits))).1 ≡ result
unfolding begin
finish_within_example =
    finish_within (λ n. "n") 0 result (begin (new_pool limits)) (omega arith) (omega arith)
