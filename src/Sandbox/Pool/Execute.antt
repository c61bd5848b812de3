-- ===== src/Sandbox/Pool/Execute.antt =====
-- cognitive_runtime/sandbox/sandbox_pool.py: `execute` with no other call of it in between.
use stocky_cognitive_runtime.Prelude.{ℕ, Bool}
use stocky_cognitive_runtime.Data.Contract.{ExecutionProposal, PolicyDecision, ExecutionResult}
use stocky_cognitive_runtime.Sandbox.Enforcer.{CapabilityEnforcer}
use stocky_cognitive_runtime.Sandbox.Cell.{Surroundings, execute_cell}
use stocky_cognitive_runtime.Sandbox.Pool.{SandboxPool, begin, finish}

-- What a call leaves and returns, and whether the cell called the worker.
pub record PoolRun : Type 0 where
  pub pool : SandboxPool
  pub result : ExecutionResult
  pub called : Bool

unfoldable pub execute :
    CapabilityEnforcer
    → ℕ
    → Surroundings
    → SandboxPool
    → ExecutionProposal
    → PolicyDecision
    → PoolRun
unfolding begin execute_cell finish
execute e max_time_ms s pool p d =
    let run = execute_cell e max_time_ms s p d in
    let finished = finish s.show pool.next_cell run.result (begin pool) in
    record { pool = finished.0; result = finished.1; called = run.called }
