-- ===== src/Data/Store.antt =====
-- contracts/execution_trace.py, `ExecutionTraceStore`: the last traces, and the searches in them.
use stocky_cognitive_runtime.Prelude.{
  ℕ, zero, suc, ◌+◌, ◌-◌, ◌≤◌, ◌<◌, ◌≡◌, refl, sym, ap, ◌∙◌, String, Option, none, some, List, [],
  ◌∷◌, ◌++◌, arith, length, drop, keep, length-append, length-drop, append_assoc, append-nil, ltb,
  str_eq, if◌then◌else◌, Bool-cases, inl, inr,
}
use stocky_cognitive_runtime.Prelude.Int.{ℤ, pos, negsuc}
use stocky_cognitive_runtime.Data.Trace.{ExecutionTrace}

pub record ExecutionTraceStore : Type 0 where
  pub traces : List ExecutionTrace
  pub max_size : ℕ

abbrev pub new_store : ℕ → ExecutionTraceStore
new_store max_size = record { traces = []; max_size = max_size }

-- `self._traces.pop(0)`
abbrev pub pop_oldest : List ExecutionTrace → List ExecutionTrace
pop_oldest [] = []
pop_oldest (t ∷ ts) = ts

unfoldable pub add : ExecutionTraceStore → ExecutionTrace → ExecutionTraceStore
add s t =
    let traces = s.traces ++ t ∷ [] in
    record s { traces = if ltb s.max_size (length traces) then pop_oldest traces else traces }

-- `by_correlation_id` and `by_event_id`: the first trace whose key has the value.
unfoldable pub first_by :
    (ExecutionTrace → String) → String → List ExecutionTrace → Option ExecutionTrace
first_by key text [] = none
first_by key text (t ∷ ts) =
    let rest = first_by key text ts in if str_eq (key t) text then some t else rest

abbrev pub by_correlation_id : ExecutionTraceStore → String → Option ExecutionTrace
by_correlation_id s id = first_by (λ t. t.correlation_id) id s.traces

abbrev pub by_event_id : ExecutionTraceStore → String → Option ExecutionTrace
by_event_id s id = first_by (λ t. t.event_id) id s.traces

abbrev pub by_final_status : ExecutionTraceStore → String → List ExecutionTrace
by_final_status s status = keep (λ t. str_eq t.final_status status) s.traces

-- `traces[-n:]`
abbrev pub recent : ExecutionTraceStore → ℤ → List ExecutionTrace
recent s (pos zero) = s.traces
recent s (pos (suc n)) = drop (length s.traces - suc n) s.traces
recent s (negsuc n) = drop (suc n) s.traces

abbrev pub clear : ExecutionTraceStore → ExecutionTraceStore
clear s = record s { traces = [] }

abbrev pub last : ℕ → List ExecutionTrace → List ExecutionTrace
last n ts = drop (length ts - n) ts

unfoldable pub add_all : ExecutionTraceStore → List ExecutionTrace → ExecutionTraceStore
add_all s [] = s
add_all s (t ∷ ts) = add_all (add s t) ts

drop-append_left :
    (n : ℕ) (xs ys : List ExecutionTrace) → n ≤ length xs → drop n (xs ++ ys) ≡ drop n xs ++ ys
drop-append_left zero xs ys h = refl
drop-append_left (suc n) [] ys h = absurd (omega arith)
drop-append_left (suc n) (x ∷ xs) ys h = drop-append_left n xs ys (omega arith)

pop_oldest-drop : (n : ℕ) (xs : List ExecutionTrace) → pop_oldest (drop n xs) ≡ drop (suc n) xs
pop_oldest-drop zero [] = refl
pop_oldest-drop zero (x ∷ xs) = refl
pop_oldest-drop (suc n) [] = refl
pop_oldest-drop (suc n) (x ∷ xs) = pop_oldest-drop n xs

drop_nil : (n : ℕ) → drop {A = ExecutionTrace} n [] ≡ []
drop_nil zero = refl
drop_nil (suc n) = refl

drop-drop : (m n : ℕ) (xs : List ExecutionTrace) → drop m (drop n xs) ≡ drop (n + m) xs
drop-drop m zero xs = ap (λ k. drop k xs) (omega arith)
drop-drop m (suc n) [] = drop_nil m ∙ sym (drop_nil (suc n + m))
drop-drop m (suc n) (x ∷ xs) =
    drop-drop m n xs ∙ ap (λ k. drop k (x ∷ xs)) {x = suc (n + m)} (omega arith)

module _ (max : ℕ) (history : List ExecutionTrace) where
  add-last :
      (s : ExecutionTraceStore) (t : ExecutionTrace)
      → s.max_size ≡ max
      → s.traces ≡ last max history
      → ((add s t).traces ≡ last max (history ++ t ∷ []))
  unfolding add
  add-last s t m h =
      let len = length-append history (t ∷ []) in
      let kept = length-append s.traces (t ∷ []) in
      let part = length-drop (length history - max) history in
      let same = ap length h in
      let joined =
        ap (λ ts. ts ++ t ∷ []) h
        ∙ sym (drop-append_left (length history - max) history (t ∷ []) (omega arith)) in
      elim (Bool-cases (ltb s.max_size (length (s.traces ++ t ∷ [])))) [
        | inl full ↦
            let many : max ≤ length history = ground (arith, kept, part, same, m) in
            rw full (
              ap pop_oldest joined
              ∙ pop_oldest-drop (length history - max) (history ++ t ∷ [])
              ∙ ap (λ n. drop n (history ++ t ∷ [])) {x = suc (length history - max)}
                  (omega (arith, len)))
        | inr fits ↦
            let few : length history < max = ground (arith, kept, part, same, m) in
            rw fits (joined ∙ ap (λ n. drop n (history ++ t ∷ [])) (omega (arith, len)))
      ]

add_all-last :
    (max : ℕ) (history ts : List ExecutionTrace) (s : ExecutionTraceStore)
    → s.max_size ≡ max
    → s.traces ≡ last max history
    → (add_all s ts).traces ≡ last max (history ++ ts)
unfolding add_all add
add_all-last max history [] s m h = h ∙ ap (last max) (sym (append-nil history))
add_all-last max history (t ∷ ts) s m h =
    add_all-last max (history ++ t ∷ []) ts (add s t) m (add-last max history s t m h)
    ∙ ap (last max) (append_assoc history (t ∷ []) ts)

-- A fresh store to which traces are added holds the last `max_size` of them, in their order, and
-- `recent` at a positive number of at most `max_size` reads that many of the last ones added.
pub recent-last :
    (max n : ℕ) (ts : List ExecutionTrace)
    → suc n ≤ max
    → ((add_all (new_store max) ts).traces ≡ last max ts)
      × (recent (add_all (new_store max) ts) (pos (suc n)) ≡ last (suc n) ts)
recent-last max n ts h =
    let all = add_all-last max [] ts (new_store max) refl (sym (drop_nil (0 - max))) in
    let part = length-drop (length ts - max) ts in
    (
      all,
      ap (λ xs. drop (length xs - suc n) xs) all
          ∙ drop-drop (length (last max ts) - suc n) (length ts - max) ts
          ∙ ap (λ k. drop k ts) (omega (arith, part)),
    )
