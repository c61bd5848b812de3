-- ===== src/Sandbox/Pool/Balance.antt =====
-- The pool's counters over any interleaving of its calls (sandbox_pool.py).
use stocky_cognitive_runtime.Prelude.{
  ℕ, suc, ◌+◌, ◌-◌, ◌*◌, ◌≤◌, ◌≡◌, inl, inr, refl, String, Bool, true, false, List, [], ◌∷◌, length,
  length-append, arith, ◌==◌, Bool-cases,
}
use stocky_cognitive_runtime.Prelude.Int.{sub_ℕ, gt_ℕ}
use stocky_cognitive_runtime.Data.Contract.{ExecutionResult}
use stocky_cognitive_runtime.Sandbox.Pool.{
  ResourceLimits, check_time, SandboxStats, SandboxPool, new_pool, remove, holds, release, begin,
  count_result, finish,
}

infix 20 ◌⟶◌
-- One step of a pool: a call of `execute` reaches its await, or the result of a cell that is
-- active arrives.
pub data ◌⟶◌ (pool : SandboxPool) : SandboxPool → Type 0 where
  begins : pool ⟶ begin pool
  finishes :
      (show : ℕ → String) (cell : ℕ) (result : ExecutionResult)
      → holds cell pool.active ≡ true
      → pool ⟶ (finish show cell result pool).0

pub data IsReachable (limits : ResourceLimits) : SandboxPool → Type 0 where
  starts : IsReachable limits (new_pool limits)
  steps :
      {pool next : SandboxPool} → IsReachable limits pool → pool ⟶ next → IsReachable limits next

-- Every execution has completed, has failed, or holds an active cell.
abbrev pub IsBalanced : SandboxPool → Type 0
IsBalanced pool =
    pool.stats.completed_cells + pool.stats.failed_cells + length pool.active
    ≡ pool.stats.total_executions

remove-length :
    (cell : ℕ) (cells : List ℕ)
    → holds cell cells ≡ true
    → suc (length (remove cell cells)) ≡ length cells
remove-length cell [] h = ground (arith, h)
remove-length cell (c ∷ cells) h = elim (Bool-cases (c == cell)) [
  | inl e ↦ ground (arith, e)
  | inr e ↦ ground (arith, e, h, remove-length cell cells (ground (arith, e, h)))
]

count_result-total :
    (b : Bool) (stats : SandboxStats)
    → ((count_result b stats).completed_cells + (count_result b stats).failed_cells
        ≡ suc (stats.completed_cells + stats.failed_cells))
      × ((count_result b stats).total_executions ≡ stats.total_executions)
count_result-total true stats = (omega arith, refl)
count_result-total false stats = (omega arith, refl)

begin-IsBalanced : (pool : SandboxPool) → IsBalanced pool → IsBalanced (begin pool)
unfolding begin
begin-IsBalanced pool h = omega (arith, h, length-append pool.active (pool.next_cell ∷ []))

release-IsBalanced :
    (b : Bool) (cell : ℕ) (pool : SandboxPool)
    → holds cell pool.active ≡ true
    → IsBalanced pool
    → IsBalanced (release cell (record pool { stats = count_result b pool.stats }))
release-IsBalanced b cell pool active h =
    let totals = count_result-total b pool.stats in
    let removed = remove-length cell pool.active active in
    rw active (omega (arith, h, totals.0, totals.1, removed))

finish-IsBalanced :
    (show : ℕ → String) (cell : ℕ) (result : ExecutionResult) (pool : SandboxPool)
    → holds cell pool.active ≡ true
    → IsBalanced pool
    → IsBalanced (finish show cell result pool).0
unfolding finish
finish-IsBalanced show cell result pool active h = release-IsBalanced _ cell pool active h

-- In every pool that its calls reach, in any interleaving, the executions are the completed ones,
-- the failed ones and the active cells.
pub reachable-IsBalanced :
    (limits : ResourceLimits) (pool : SandboxPool) → IsReachable limits pool → IsBalanced pool
reachable-IsBalanced limits _ starts = refl
reachable-IsBalanced limits _ (steps r begins) =
    begin-IsBalanced _ (reachable-IsBalanced limits _ r)
reachable-IsBalanced limits _ (steps r (finishes show cell result h)) =
    finish-IsBalanced show cell result _ h (reachable-IsBalanced limits _ r)

within-gt_ℕ : (a b limit : ℕ) → a ≤ b → b - a ≤ limit → gt_ℕ (sub_ℕ b a) limit ≡ false
within-gt_ℕ a b limit forward short = ground arith

-- The monitor compares seconds with milliseconds: a run of at most `max_time_ms` seconds is never
-- overruled.
pub finish_within :
    (show : ℕ → String) (cell : ℕ) (result : ExecutionResult) (pool : SandboxPool)
    → result.started_at ≤ result.finished_at
    → result.finished_at - result.started_at ≤ pool.limits.max_time_ms * 1000000
    → (finish show cell result pool).1 ≡ result
unfolding finish check_time
finish_within show cell result pool forward short =
    rw (within-gt_ℕ result.started_at result.finished_at _ forward short) refl
