-- ===== src/TraceWindow/Access.antt =====
-- trace_window.py: `__getitem__` for a position and for a slice, and membership.
--
-- A position or a bound of a slice is a Python integer; a step is a positive number (the code takes
-- 1 for a step of 0). `none` is an IndexError.
use stocky_cognitive_runtime.Prelude.{
  ℕ, zero, suc, ◌+◌, ◌-◌, ◌/◌, min, Bool, Option, none, some, List, [], ◌∷◌, length, get_elem?,
  take, drop, any, str_eq, leb, ltb, if◌then◌else◌,
}
use stocky_cognitive_runtime.Prelude.Int.{ℤ, pos, negsuc, sub_ℕ}
use stocky_cognitive_runtime.Data.Trace.{ExecutionTrace}
use stocky_cognitive_runtime.TraceWindow.{TraceWindow, all_traces}

-- A bound of a slice, at the length of the list.
abbrev pub bound : ℕ → ℕ → Option ℤ → ℕ
bound len absent none = absent
bound len absent (some (pos i)) = min i len
bound len absent (some (negsuc i)) = len - suc i

module _ {ℓ} {A : Type ℓ} where
  -- `xs[i]` of a Python list.
  abbrev pub list_item : List A → ℤ → Option A
  list_item xs (pos i) = get_elem? xs i
  list_item xs (negsuc i) =
      if leb (suc i) (length xs) then get_elem? xs (length xs - suc i) else none

  unfoldable pub every : ℕ → ℕ → List A → List A
  every step skip [] = []
  every step zero (x ∷ xs) = x ∷ every step (step - 1) xs
  every step (suc n) (x ∷ xs) = every step n xs

  -- `xs[start:stop:step]` of a Python list.
  unfoldable pub list_slice : List A → Option ℤ → Option ℤ → ℕ → List A
  unfolding every
  list_slice xs start stop step =
      let a = bound (length xs) 0 start in
      let b = bound (length xs) (length xs) stop in every step 0 (take (b - a) (drop a xs))

-- `__getitem__` at a position.
unfoldable pub item_at : TraceWindow → ℤ → Option ExecutionTrace
unfolding all_traces
item_at w (pos k) =
    if ltb k w.archived_total
    then list_item (all_traces w) (pos k)
    else list_item w.active (pos (k - w.archived_total))
item_at w (negsuc k) = list_item (all_traces w) (negsuc k)

abbrev pub from_end : ℕ → ℤ → ℤ
from_end total (pos k) = pos k
from_end total (negsuc k) = sub_ℕ total (suc k)

unfoldable pub get_item : TraceWindow → ℤ → Option ExecutionTrace
unfolding item_at
get_item w key = item_at w (from_end w.total_count key)

-- `start` and `stop` of the code: absent bounds replaced, negative ones counted from the end.
abbrev pub slice_bound : ℕ → ℕ → Option ℤ → ℕ
slice_bound total absent none = absent
slice_bound total absent (some (pos k)) = k
slice_bound total absent (some (negsuc k)) = total - suc k

-- `__getitem__` at a slice.
unfoldable pub get_slice : TraceWindow → Option ℤ → Option ℤ → ℕ → List ExecutionTrace
unfolding list_slice all_traces
get_slice w start stop step =
    let a = slice_bound w.total_count 0 start in
    let b = slice_bound w.total_count w.total_count stop in
    let active_start = w.total_count - length w.active in
    let offset = a - active_start in
    if leb active_start a
    then take (min (offset + (b - a) / step) (length w.active) - offset) (drop offset w.active)
    else list_slice (all_traces w) start stop step

-- `__contains__`
unfoldable pub contains : TraceWindow → ExecutionTrace → Bool
contains w trace = any (λ t. str_eq t.event_id trace.event_id) w.active
