-- ===== src/Runtime/Health/Errors.antt =====
-- runtime_state.py: the list of errors over any sequence of errors.
use stocky_cognitive_runtime.Prelude.{
  ℕ, zero, suc, ◌-◌, ◌≤◌, ◌<◌, ◌≡◌, refl, sym, ap, ◌∙◌, String, List, [], ◌∷◌, ◌++◌, arith, length,
  drop, length-append, length-drop, append_assoc, append-nil, ltb, if◌then◌else◌, Bool-cases, inl,
  inr,
}
use stocky_cognitive_runtime.Runtime.Health.{RuntimeState, new_state, record_error, drop_first}

abbrev pub last_hundred : List String → List String
last_hundred es = drop (length es - 100) es

unfoldable pub record_errors : RuntimeState → List String → RuntimeState
record_errors s [] = s
record_errors s (e ∷ es) = record_errors (record_error s e) es

drop-append_left :
    (n : ℕ) (xs ys : List String) → n ≤ length xs → drop n (xs ++ ys) ≡ drop n xs ++ ys
drop-append_left zero xs ys h = refl
drop-append_left (suc n) [] ys h = absurd (omega arith)
drop-append_left (suc n) (x ∷ xs) ys h = drop-append_left n xs ys (omega arith)

drop_first-drop : (n : ℕ) (xs : List String) → drop_first (drop n xs) ≡ drop (suc n) xs
unfolding drop_first
drop_first-drop zero [] = refl
drop_first-drop zero (x ∷ xs) = refl
drop_first-drop (suc n) [] = refl
drop_first-drop (suc n) (x ∷ xs) = drop_first-drop n xs

abbrev capped : List String → List String
capped es = if ltb 100 (length es) then drop_first es else es

capped-last_hundred :
    (history : List String) (e : String)
    → capped (last_hundred history ++ e ∷ []) ≡ last_hundred (history ++ e ∷ [])
capped-last_hundred history e =
    let len = length-append history (e ∷ []) in
    let kept = length-append (last_hundred history) (e ∷ []) in
    let part = length-drop (length history - 100) history in
    let moved = drop-append_left (length history - 100) history (e ∷ []) (omega arith) in
    elim (Bool-cases (ltb 100 (length (last_hundred history ++ e ∷ [])))) [
      | inl full ↦
          let many : 100 ≤ length history = ground (arith, kept, part) in
          rw full (
            ap drop_first (sym moved)
            ∙ drop_first-drop (length history - 100) (history ++ e ∷ [])
            ∙ ap (λ n. drop n (history ++ e ∷ [])) {x = suc (length history - 100)}
                (omega (arith, len)))
      | inr fits ↦
          let few : length history < 100 = ground (arith, kept, part) in
          rw fits (sym moved ∙ ap (λ n. drop n (history ++ e ∷ [])) (omega (arith, len)))
    ]

record_error-last :
    (s : RuntimeState) (history : List String) (e : String)
    → s.errors ≡ last_hundred history
    → (record_error s e).errors ≡ last_hundred (history ++ e ∷ [])
unfolding record_error
record_error-last s history e h = ap (λ es. capped (es ++ e ∷ [])) h ∙ capped-last_hundred history e

record_errors-last :
    (s : RuntimeState) (history es : List String)
    → s.errors ≡ last_hundred history
    → (record_errors s es).errors ≡ last_hundred (history ++ es)
unfolding record_errors
record_errors-last s history [] h = h ∙ ap last_hundred (sym (append-nil history))
record_errors-last s history (e ∷ es) h =
    record_errors-last (record_error s e) (history ++ e ∷ []) es (record_error-last s history e h)
    ∙ ap last_hundred (append_assoc history (e ∷ []) es)

-- The errors that a fresh state keeps are the last hundred that were recorded, in their order.
record_errors-last_hundred :
    (es : List String) → (record_errors new_state es).errors ≡ last_hundred es
record_errors-last_hundred es = record_errors-last new_state [] es refl
