-- ===== src/Runtime/Health/Cycles.antt =====
-- runtime_state.py: the health over any sequence of cycles.
use stocky_cognitive_runtime.Prelude.{
  ℕ, suc, ◌+◌, ◌≡◌, refl, ap, ◌∙◌, Bool, true, false, List, [], ◌∷◌, arith, length, leb,
  if◌then◌else◌,
}
use stocky_cognitive_runtime.Data.Float.{Float}
use stocky_cognitive_runtime.Runtime.Health.{
  HealthStatus, healthy, degraded, critical, RuntimeState, new_state, record_cycle,
}

-- A cycle: its duration, whether it succeeded, and the depth of the queue.
abbrev pub Cycle : Type 0
Cycle = Float × Bool × ℕ

-- The failures at the end of a sequence, after `n` before it.
abbrev pub trailing : ℕ → List Cycle → ℕ
trailing n [] = n
trailing n ((duration, true, depth) ∷ cycles) = trailing 0 cycles
trailing n ((duration, false, depth) ∷ cycles) = trailing (n + 1) cycles

abbrev pub failures : List Cycle → ℕ
failures [] = 0
failures ((duration, true, depth) ∷ cycles) = failures cycles
failures ((duration, false, depth) ∷ cycles) = suc (failures cycles)

-- The health that a number of consecutive failures stands for.
abbrev pub grade : ℕ → HealthStatus
grade n = if leb 5 n then critical else if leb 3 n then degraded else healthy

module _ (blend : Float → Float → Float) where
  unfoldable pub record_cycles : RuntimeState → List Cycle → RuntimeState
  record_cycles s [] = s
  record_cycles s ((duration, success, depth) ∷ cycles) =
      record_cycles (record_cycle blend s duration success depth) cycles

  pub record IsGraded (s : RuntimeState) : Type 0 where
    pub graded : s.health_status ≡ grade s.consecutive_failures

  record_cycle-IsGraded :
      (s : RuntimeState) (duration : Float) (success : Bool) (depth : ℕ)
      → IsGraded s
      → IsGraded (record_cycle blend s duration success depth)
  unfolding record_cycle
  record_cycle-IsGraded s duration success depth h = record { graded = ground arith }

  after_success :
      (s : RuntimeState) (duration : Float) (depth : ℕ)
      → let s' = record_cycle blend s duration true depth in
        (s'.consecutive_failures ≡ 0)
        × (s'.total_failures ≡ s.total_failures)
        × (s'.total_events_processed ≡ s.total_events_processed + 1)
  unfolding record_cycle
  after_success s duration depth = (refl, refl, refl)

  after_failure :
      (s : RuntimeState) (duration : Float) (depth : ℕ)
      → let s' = record_cycle blend s duration false depth in
        (s'.consecutive_failures ≡ s.consecutive_failures + 1)
        × (s'.total_failures ≡ s.total_failures + 1)
        × (s'.total_events_processed ≡ s.total_events_processed + 1)
  unfolding record_cycle
  after_failure s duration depth = (refl, refl, refl)

  record_cycles-counts :
      (s : RuntimeState) (cycles : List Cycle)
      → IsGraded s
      → ((record_cycles s cycles).health_status ≡ grade (trailing s.consecutive_failures cycles))
        × ((record_cycles s cycles).consecutive_failures ≡ trailing s.consecutive_failures cycles)
        × ((record_cycles s cycles).total_failures ≡ s.total_failures + failures cycles)
        × ((record_cycles s cycles).total_events_processed
            ≡ s.total_events_processed + length cycles)
  unfolding record_cycles
  record_cycles-counts s [] h = (h.graded, refl, omega arith, omega arith)
  record_cycles-counts s ((duration, true, depth) ∷ cycles) h =
      let s' = record_cycle blend s duration true depth in
      let (a, b, c, d) =
        record_cycles-counts s' cycles (record_cycle-IsGraded s duration true depth h) in
      let (x, y, z) = after_success s duration depth in
      (
        a ∙ ap (λ n. grade (trailing n cycles)) x,
        b ∙ ap (λ n. trailing n cycles) x,
        omega (arith, c, y),
        omega (arith, d, z),
      )
  record_cycles-counts s ((duration, false, depth) ∷ cycles) h =
      let s' = record_cycle blend s duration false depth in
      let (a, b, c, d) =
        record_cycles-counts s' cycles (record_cycle-IsGraded s duration false depth h) in
      let (x, y, z) = after_failure s duration depth in
      (
        a ∙ ap (λ n. grade (trailing n cycles)) x,
        b ∙ ap (λ n. trailing n cycles) x,
        omega (arith, c, y),
        omega (arith, d, z),
      )

  -- After any sequence of cycles of a fresh state, the consecutive failures are the failures at the
  -- end of the sequence, the health is "critical" from five of them on, "degraded" from three on and
  -- "healthy" below, and the totals count all failures and all cycles.
  pub record_cycles-grade :
      (cycles : List Cycle)
      → let s = record_cycles new_state cycles in
        (s.health_status ≡ grade (trailing 0 cycles))
        × (s.consecutive_failures ≡ trailing 0 cycles)
        × (s.total_failures ≡ failures cycles)
        × (s.total_events_processed ≡ length cycles)
  record_cycles-grade cycles =
      let (a, b, c, d) = record_cycles-counts new_state cycles (record { graded = refl }) in
      (a, b, omega (arith, c), omega (arith, d))
