-- ===== src/TraceWindow/Reads.antt =====
-- trace_window.py: the positions of the window and of the kept history.
use stocky_cognitive_runtime.Prelude.{
  ℕ, zero, suc, ◌+◌, ◌-◌, ◌≤◌, ◌<◌, ◌≡◌, refl, sym, ap, ◌∙◌, none, some, List, [], ◌∷◌, ◌++◌, arith,
  length, get_elem?, ltb, Bool-cases, inl, inr,
}
use stocky_cognitive_runtime.Prelude.Int.{ℤ, pos, negsuc}
use stocky_cognitive_runtime.Data.Trace.{ExecutionTrace}
use stocky_cognitive_runtime.TraceWindow.{TraceWindow, archived_traces, all_traces}
use stocky_cognitive_runtime.TraceWindow.History.{Keeps}
use stocky_cognitive_runtime.TraceWindow.Access.{list_item, item_at, from_end, get_item}

get_elem?-append_right {ℓ} :
    {A : Type ℓ} (xs ys : List A) (k : ℕ)
    → length xs ≤ k
    → get_elem? (xs ++ ys) k ≡ get_elem? ys (k - length xs)
get_elem?-append_right [] ys k h = ap (get_elem? ys) (omega arith)
get_elem?-append_right (x ∷ xs) ys zero h = absurd (omega arith)
get_elem?-append_right (x ∷ xs) ys (suc k) h =
    get_elem?-append_right xs ys k (omega arith) ∙ ap (get_elem? ys) (omega arith)

pub all_traces_lem : (w : TraceWindow) → archived_traces w.archived ++ w.active ≡ all_traces w
unfolding all_traces
all_traces_lem w = refl

get_elem?_lem {ℓ} :
    {A : Type ℓ} (xs : List A) (k : ℕ) → k < length xs → (x : A) × (get_elem? xs k ≡ some x)
get_elem?_lem [] k h = elim h [ ]
get_elem?_lem (x ∷ xs) zero h = (x, refl)
get_elem?_lem (x ∷ xs) (suc k) h = get_elem?_lem xs k (omega arith)

from_end-negsuc : (total k : ℕ) → suc k ≤ total → from_end total (negsuc k) ≡ pos (total - suc k)
from_end-negsuc total k h = ground arith

from_end-below : (total k : ℕ) → total ≤ k → from_end total (negsuc k) ≡ negsuc (k - total)
from_end-below total k h = ground arith

list_item_lem {ℓ} :
    {A : Type ℓ} (xs : List A) (k : ℕ)
    → suc k ≤ length xs
    → list_item xs (negsuc k) ≡ get_elem? xs (length xs - suc k)
list_item_lem xs k h = ground arith

get_item-pos :
    (w : TraceWindow) (history : List ExecutionTrace) (k : ℕ)
    → Keeps history w
    → item_at w (pos k) ≡ get_elem? history k
unfolding item_at
get_item-pos w history k h = elim (Bool-cases (ltb k w.archived_total)) [
  | inl old ↦ rw old (ap (λ xs. get_elem? xs k) h.contents)
  | inr new ↦ rw new (
      ap (get_elem? w.active) (omega (arith, h.archive_kept.counted))
      ∙ sym (
          get_elem?-append_right (archived_traces w.archived) w.active k
            (ground (arith, h.archive_kept.counted)))
      ∙ ap (λ xs. get_elem? xs k) (all_traces_lem w ∙ h.contents))
]

-- A position that is not below the start of the history.
abbrev pub IsFromStart : List ExecutionTrace → ℤ → Type 0
IsFromStart history (pos k) = Unit
IsFromStart history (negsuc k) = suc k ≤ length history

-- For a window that keeps a history, a position from -len on reads the history as a Python list
-- does; a position at or beyond the length is an IndexError for both.
pub get_item-Keeps :
    (w : TraceWindow) (history : List ExecutionTrace) (key : ℤ)
    → Keeps history w
    → IsFromStart history key
    → get_item w key ≡ list_item history key
unfolding get_item
get_item-Keeps w history (pos k) h r = get_item-pos w history k h
get_item-Keeps w history (negsuc k) h r =
    rw (from_end-negsuc w.total_count k (omega (arith, h.total))) (
      get_item-pos w history (w.total_count - suc k) h
      ∙ ap (get_elem? history) (omega (arith, h.total))
      ∙ sym (list_item_lem history k r))

-- A position below -len, down to -2 * len, reads a trace, where a list raises an IndexError.
pub get_item_below :
    (w : TraceWindow) (history : List ExecutionTrace) (k : ℕ)
    → Keeps history w
    → length history ≤ k
    → k < length history + length history
    → (t : ExecutionTrace) × (get_item w (negsuc k) ≡ some t)
      × (list_item history (negsuc k) ≡ none)
unfolding get_item item_at
get_item_below w history k h low high =
    let i = length history + length history - suc k in
    let (t, e) = get_elem?_lem history i (omega arith) in
    (
      t,
      rw (from_end-below w.total_count k (omega (arith, h.total))) (
          ap (λ xs. list_item xs (negsuc (k - w.total_count))) h.contents
          ∙ list_item_lem history (k - w.total_count) (omega (arith, h.total))
          ∙ ap (get_elem? history) (omega (arith, h.total))
          ∙ e),
      ground arith,
    )
