-- ===== src/Sandbox/Pool.antt =====
-- cognitive_runtime/sandbox/resource_monitor.py and sandbox_pool.py: the limits of a run and the
-- pool of cells.
--
-- `execute` awaits, so two calls of it interleave: it is two steps, `begin` up to the await and
-- `finish` after it. A cell is known by its number, since Python compares cells by identity.
-- Every time is in microseconds. The audit call is left aside.
pub mod Balance
pub mod Execute
use Prim.Native.String.{◌++◌ as concat}
use stocky_cognitive_runtime.Prelude.{
  ℕ, suc, ◌+◌, ◌-◌, ◌*◌, ◌≡◌, refl, String, Bool, true, false, Option, none, some, List, [], ◌∷◌,
  ◌++◌, any, arith, ltb, ◌==◌, if◌then◌else◌,
}
use stocky_cognitive_runtime.Prelude.Int.{ℤ, sub_ℕ, gt_ℕ}
use stocky_cognitive_runtime.Data.Contract.{
  ExecutionResult, ResultStatus, success, failed, skipped, queued,
}

pub record ResourceLimits : Type 0 where
  pub max_time_ms : ℕ
  pub max_operations : ℕ
  pub max_memory_mb : ℕ

pub record ResourceUsage : Type 0 where
  pub time : ℤ
  pub operations : ℕ

pub record ResourceGuard : Type 0 where
  pub limits : ResourceLimits
  pub usage : ResourceUsage
  pub exceeded : Bool
  pub violation : String

abbrev pub create_guard : ResourceLimits → ResourceGuard
create_guard limits = record {
  limits = limits;
  usage = record { time = sub_ℕ 0 0; operations = 0 };
  exceeded = false;
  violation = "";
}

module _ (show : ℕ → String) where
  unfoldable pub check_operation : ResourceGuard → ResourceGuard × Option String
  check_operation g =
      let used = record g { usage = record (g.usage) { operations = suc g.usage.operations } } in
      let violation = concat "max_operations_exceeded: " (show g.limits.max_operations) in
      if ltb g.limits.max_operations (suc g.usage.operations)
      then (record used { exceeded = true; violation = violation }, some violation)
      else (used, none)

  -- `elapsed` is the number that the caller passes as `elapsed_ms`, in millionths.
  unfoldable pub check_time : ResourceGuard → ℤ → ResourceGuard × Option String
  check_time g elapsed =
      let used = record g { usage = record (g.usage) { time = elapsed } } in
      let violation = concat "max_time_exceeded: " (concat (show g.limits.max_time_ms) "ms") in
      if gt_ℕ elapsed (g.limits.max_time_ms * 1000000)
      then (record used { exceeded = true; violation = violation }, some violation)
      else (used, none)

pub record SandboxStats : Type 0 where
  pub active_cells : ℕ
  pub completed_cells : ℕ
  pub failed_cells : ℕ
  pub total_executions : ℕ

pub record SandboxPool : Type 0 where
  pub limits : ResourceLimits
  pub active : List ℕ
  pub next_cell : ℕ
  pub stats : SandboxStats

abbrev pub new_pool : ResourceLimits → SandboxPool
new_pool limits = record {
  limits = limits;
  active = [];
  next_cell = 0;
  stats = record { active_cells = 0; completed_cells = 0; failed_cells = 0; total_executions = 0 };
}

abbrev pub acquire : SandboxPool → SandboxPool
acquire pool = record pool {
  active = pool.active ++ pool.next_cell ∷ [];
  next_cell = suc pool.next_cell;
}

-- `self._active.remove(cell)`
abbrev pub remove : ℕ → List ℕ → List ℕ
remove cell [] = []
remove cell (c ∷ cs) = let rest = remove cell cs in if c == cell then cs else c ∷ rest

abbrev pub holds : ℕ → List ℕ → Bool
holds cell cells = any (λ c. c == cell) cells

abbrev pub release : ℕ → SandboxPool → SandboxPool
release cell pool = record pool {
  active = if holds cell pool.active then remove cell pool.active else pool.active;
}

-- `execute` up to the await: `pre_check` returns no violation.
unfoldable pub begin : SandboxPool → SandboxPool
begin pool =
    let acquired = acquire pool in
    record acquired {
      stats = record (acquired.stats) { total_executions = suc acquired.stats.total_executions };
    }

abbrev pub succeeded : ResultStatus → Bool
succeeded success = true
succeeded failed = false
succeeded skipped = false
succeeded queued = false

abbrev pub overrule : Option String → ExecutionResult → ExecutionResult
overrule none result = result
overrule (some violation) result = record result {
  status = failed;
  error = some violation;
  correlation_id = "";
}

abbrev pub count_result : Bool → SandboxStats → SandboxStats
count_result true stats = record stats { completed_cells = suc stats.completed_cells }
count_result false stats = record stats { failed_cells = suc stats.failed_cells }

-- `execute` from the result that the cell's run gives, with the result it returns.
unfoldable pub finish :
    (ℕ → String) → ℕ → ExecutionResult → SandboxPool → SandboxPool × ExecutionResult
unfolding check_time
finish show cell result pool =
    let checked =
      check_time show (create_guard pool.limits) (sub_ℕ result.finished_at result.started_at) in
    let final = overrule checked.1 result in
    (release cell (record pool { stats = count_result (succeeded final.status) pool.stats }), final)
