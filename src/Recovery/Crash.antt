-- ===== src/Recovery/Crash.antt =====
-- recovery/crash_detector.py: the signs of a crash in a loop's state and traces. `number_at_end` is the
-- number that a text ends in (the regular expression \d+$ and `int`).
use Prim.Native.String.{◌++◌ as concat}
use text.Mathlib.Text.{starts_with}
use stocky_cognitive_runtime.Prelude.{
  ℕ, ◌+◌, ◌-◌, String, Bool, true, false, not, ◌&&◌, ◌||◌, Option, none, some, List, [], ◌∷◌, ◌++◌,
  length, keep, str_eq, ltb, ◌==◌, if◌then◌else◌,
}
use stocky_cognitive_runtime.Data.Trace.{ExecutionTrace}
use stocky_cognitive_runtime.Queue.{order_by}
use stocky_cognitive_runtime.Runtime.Health.{
  RuntimeState, LoopStatus, stopped, running, paused, degraded_status, HealthStatus, healthy,
  degraded, critical, loop_text,
}

pub record CrashIndicator : Type 0 where
  pub unclean_shutdown : Bool
  pub corrupted_cycles : ℕ
  pub partial_executions : ℕ
  pub orphan_traces : ℕ
  pub gap_in_sequence : Bool
  pub expected_trace_count : ℕ
  pub actual_trace_count : ℕ
  pub details : String

-- The numbers of the identifiers that end in one.
unfoldable pub numbers : (String → Option ℕ) → List ExecutionTrace → List ℕ
numbers number_at_end [] = []
numbers number_at_end (t ∷ ts) =
    let rest = numbers number_at_end ts in
    elim (number_at_end t.event_id) [ none ↦ rest | some n ↦ n ∷ rest ]

-- `ids != list(range(ids[0], ids[-1] + 1))`, on sorted numbers: each is one more than the one before.
unfoldable pub has_gap : List ℕ → Bool
has_gap [] = false
has_gap (n ∷ []) = false
has_gap (n ∷ k ∷ rest) = let more = has_gap (k ∷ rest) in if k == n + 1 then more else true

unfoldable pub gap_found : (String → Option ℕ) → List ExecutionTrace → Bool
unfolding numbers has_gap order_by
gap_found number_at_end traces =
    if ltb (length traces) 2 then false else has_gap (order_by ltb (numbers number_at_end traces))

abbrev pub is_partial : ExecutionTrace → Bool
is_partial t = str_eq t.final_status "UNKNOWN"

abbrev pub is_corrupted : ExecutionTrace → Bool
is_corrupted t =
    str_eq t.final_status "UNKNOWN"
    || (starts_with t.final_status "P4_" && str_eq t.execution_status "UNKNOWN")

abbrev is_stopped : LoopStatus → Bool
is_stopped stopped = true
is_stopped running = false
is_stopped paused = false
is_stopped degraded_status = false

abbrev is_critical : HealthStatus → Bool
is_critical healthy = false
is_critical degraded = false
is_critical critical = true

abbrev pub is_unclean : RuntimeState → Bool
is_unclean s = not (is_stopped s.status) || is_critical s.health_status

unfoldable pub join : List String → String
join [] = "clean"
join (part ∷ []) = part
join (part ∷ next ∷ rest) = concat part (concat "; " (join (next ∷ rest)))

-- `x=n` in the details, if there are any.
abbrev pub counted : (ℕ → String) → String → ℕ → List String
counted show name n = if ltb 0 n then concat name (show n) ∷ [] else []

-- `detect`, with the processed events of the queue's statistics; `show` is the text of a number.
unfoldable pub detect :
    (String → Option ℕ) → (ℕ → String) → RuntimeState → List ExecutionTrace → ℕ → CrashIndicator
unfolding gap_found join
detect number_at_end show s traces processed =
    let partial = length (keep is_partial traces) in
    let gap = gap_found number_at_end traces in
    let orphans : ℕ = length traces - processed in
    let parts : List String =
      (if is_unclean s then concat "last_status=" (loop_text s.status) ∷ [] else [])
      ++ (if gap then "sequence_gap" ∷ [] else [])
      ++ counted show "orphans=" orphans
      ++ counted show "partial=" partial in
    record {
      unclean_shutdown = is_unclean s || (gap || ltb 0 partial);
      corrupted_cycles = length (keep is_corrupted traces);
      partial_executions = partial;
      orphan_traces = orphans;
      gap_in_sequence = gap;
      expected_trace_count = length traces;
      actual_trace_count = length traces;
      details = join parts;
    }
