-- ===== src/TraceWindow/Slices.antt =====
-- trace_window.py: the slices of the window and of the kept history.
use mathlib.Core.Path.{ap₂, subst}
use stocky_cognitive_runtime.Prelude.{
  ℕ, zero, suc, ◌+◌, ◌-◌, ◌/◌, ◌≤◌, ◌<◌, ◌≡◌, refl, sym, ap, ◌∙◌, min, true, Option, none, some,
  List, [], ◌∷◌, ◌++◌, arith, length, length-append, take, drop, leb, if_cases, Bool-cases, inl,
  inr,
}
use stocky_cognitive_runtime.Prelude.Int.{ℤ, pos, negsuc}
use stocky_cognitive_runtime.Data.Trace.{ExecutionTrace}
use stocky_cognitive_runtime.TraceWindow.{TraceWindow, archived_traces}
use stocky_cognitive_runtime.TraceWindow.History.{Keeps, length-all_traces}
use stocky_cognitive_runtime.TraceWindow.Reads.{all_traces_lem}
use stocky_cognitive_runtime.TraceWindow.Access.{bound, slice_bound, every, list_slice, get_slice}

drop-append {ℓ} :
    {A : Type ℓ} (xs ys : List A) (n : ℕ)
    → length xs ≤ n
    → drop n (xs ++ ys) ≡ drop (n - length xs) ys
drop-append [] ys n h = ap (λ k. drop k ys) (omega arith)
drop-append (x ∷ xs) ys zero h = absurd (omega arith)
drop-append (x ∷ xs) ys (suc n) h =
    drop-append xs ys n (omega arith) ∙ ap (λ k. drop k ys) (omega arith)

drop_all {ℓ} : {A : Type ℓ} (n : ℕ) (xs : List A) → length xs ≤ n → drop n xs ≡ []
drop_all zero [] h = refl
drop_all zero (x ∷ xs) h = absurd (omega arith)
drop_all (suc n) [] h = refl
drop_all (suc n) (x ∷ xs) h = drop_all n xs (omega arith)

take_nil {ℓ} : {A : Type ℓ} (n : ℕ) → take {A = A} n [] ≡ []
take_nil zero = refl
take_nil (suc n) = refl

every_one {ℓ} : {A : Type ℓ} (xs : List A) → every 1 0 xs ≡ xs
unfolding every
every_one [] = refl
every_one (x ∷ xs) = ap (λ ys. x ∷ ys) (every_one xs)

bound_start : (len : ℕ) (start : Option ℤ) → bound len 0 start ≡ min (slice_bound len 0 start) len
bound_start len none = omega arith
bound_start len (some (pos k)) = refl
bound_start len (some (negsuc k)) = omega arith

bound_stop : (len : ℕ) (stop : Option ℤ) → bound len len stop ≡ min (slice_bound len len stop) len
bound_stop len none = omega arith
bound_stop len (some (pos k)) = refl
bound_stop len (some (negsuc k)) = omega arith

-- The active branch, at bounds that count from the start.
active_slice {ℓ} :
    {A : Type ℓ} (old new : List A) (a b : ℕ)
    → length old ≤ a
    → take
        (min ((a - length old) + (b - a) / 1) (length new) - (a - length old))
        (drop (a - length old) new)
      ≡ take
          (min b (length old + length new) - min a (length old + length new))
          (drop (min a (length old + length new)) (old ++ new))
active_slice old new a b h = elim (Bool-cases (leb a (length old + length new))) [
  | inl inside ↦
      let fits : a ≤ length old + length new = ground arith in
      let same : min a (length old + length new) ≡ a = omega arith in
      rw same (ap₂ take (omega arith) (sym (drop-append old new a h)))
  | inr outside ↦
      let beyond : length old + length new < a = ground arith in
      let cut : min a (length old + length new) ≡ length old + length new = omega arith in
      rw
        (
          drop_all (a - length old) new (omega arith),
          cut,
          drop_all (length old + length new) (old ++ new) (omega (arith, length-append old new)),
        )
        (take_nil _ ∙ sym (take_nil _))
]

active_case {ℓ} :
    {A : Type ℓ} (old new : List A) (total : ℕ) (start stop : Option ℤ)
    → total ≡ length old + length new
    → leb (total - length new) (slice_bound total 0 start) ≡ true
    → (let a = slice_bound total 0 start in
        let offset = a - (total - length new) in
        take
          (min (offset + (slice_bound total total stop - a) / 1) (length new) - offset)
          (drop offset new))
      ≡ take
          (bound total total stop - bound total 0 start)
          (drop (bound total 0 start) (old ++ new))
active_case old new total start stop e h =
    let old_length : total - length new ≡ length old = omega arith in
    let low : length old ≤ slice_bound total 0 start = ground arith in
    rw (bound_start total start, bound_stop total stop, old_length)
      (subst
        (λ t.
          take
            (min
                ((slice_bound total 0 start - length old)
                  + (slice_bound total total stop - slice_bound total 0 start) / 1)
                (length new)
              - (slice_bound total 0 start - length old))
            (drop (slice_bound total 0 start - length old) new)
          ≡ take (min (slice_bound total total stop) t - min (slice_bound total 0 start) t)
              (drop (min (slice_bound total 0 start) t) (old ++ new)))
        (sym e)
        (active_slice old new (slice_bound total 0 start) (slice_bound total total stop) low))

list_slice_one {ℓ} :
    {A : Type ℓ} (xs : List A) (start stop : Option ℤ)
    → list_slice xs start stop 1
      ≡ take
          (bound (length xs) (length xs) stop - bound (length xs) 0 start)
          (drop (bound (length xs) 0 start) xs)
unfolding list_slice
list_slice_one xs start stop = every_one _

-- For a window that keeps a history, a slice with step 1 is Python's slice of that history, whatever
-- the bounds: absent, counted from either end, or out of range.
pub get_slice-Keeps :
    (w : TraceWindow) (history : List ExecutionTrace) (start stop : Option ℤ)
    → Keeps history w
    → get_slice w start stop 1 ≡ list_slice history start stop 1
unfolding get_slice
get_slice-Keeps w history start stop h =
    if_cases (λ ts. ts ≡ list_slice history start stop 1) _ _ _
      (λ recent.
        active_case (archived_traces w.archived) w.active w.total_count start stop
          (omega (arith, h.total, ap length h.contents, length-all_traces w)) recent
        ∙ ap₂
            (λ (n : ℕ) (xs : List ExecutionTrace).
              take (bound n n stop - bound n 0 start) (drop (bound n 0 start) xs))
            h.total (all_traces_lem w ∙ h.contents)
        ∙ sym (list_slice_one history start stop))
      (λ old. ap (λ xs. list_slice xs start stop 1) h.contents)
