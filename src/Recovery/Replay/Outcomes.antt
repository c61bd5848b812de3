-- ===== src/Recovery/Replay/Outcomes.antt =====
-- recovery/replay_validator.py: what a valid replay says of the traces.
use stocky_cognitive_runtime.Prelude.{
  ℕ, ◌+◌, min, ◌==◌, ◌≡◌, refl, ap, ◌∙◌, inl, inr, String, Bool, true, not, ◌&&◌, List, [], ◌∷◌,
  ◌++◌, map, length, take, str_eq, eq_iff, eq_refl, if◌then◌else◌, if_cases, arith, Bool-cases,
}
use stocky_cognitive_runtime.Data.Trace.{ExecutionTrace}
use stocky_cognitive_runtime.Causal.{CausalGraph}
use stocky_cognitive_runtime.Causal.Build.{build}
use stocky_cognitive_runtime.Recovery.Replay.{
  Divergence, causal_graph_mismatch, fingerprint_mismatch, compare, compare_all, check_count,
  is_empty, fingerprint_text, causal_ok, fingerprints_match, found, validate,
}

-- What the validation compares of a trace.
abbrev pub outcome : ExecutionTrace → String × String
outcome t = (t.event_id, t.final_status)

append-is_empty :
    (xs ys : List Divergence)
    → is_empty (xs ++ ys) ≡ true
    → (is_empty xs ≡ true) × (is_empty ys ≡ true)
append-is_empty [] ys h = (refl, h)
append-is_empty (x ∷ xs) ys h = ground (arith, h)

compare-outcome :
    (i : ℕ) (x y : ExecutionTrace) → is_empty (compare i x y) ≡ true → outcome x ≡ outcome y
unfolding compare
compare-outcome i x y h = elim (Bool-cases (str_eq x.event_id y.event_id)) [
  | inr other ↦ ground (arith, h, other)
  | inl same ↦ elim (Bool-cases (str_eq x.final_status y.final_status)) [
    | inr other ↦ ground (arith, h, same, other)
    | inl too ↦
        let ids = (eq_iff x.event_id y.event_id).0 same in
        let statuses = (eq_iff x.final_status y.final_status).0 too in λ j. (ids j, statuses j)
  ]
]

compare_all-outcomes :
    (i : ℕ) (xs ys : List ExecutionTrace)
    → length xs ≡ length ys
    → is_empty (compare_all i xs ys) ≡ true
    → map outcome xs ≡ map outcome ys
unfolding compare_all
compare_all-outcomes i [] [] n h = refl
compare_all-outcomes i [] (y ∷ ys) n h = absurd (omega (arith, n))
compare_all-outcomes i (x ∷ xs) [] n h = absurd (omega (arith, n))
compare_all-outcomes i (x ∷ xs) (y ∷ ys) n h =
    let (first, rest) = append-is_empty (compare i x y) (compare_all (i + 1) xs ys) h in
    ap (λ o. o ∷ map outcome xs) (compare-outcome i x y first)
    ∙ ap (λ os. outcome y ∷ os) (compare_all-outcomes (i + 1) xs ys (omega (arith, n)) rest)

check_count-length :
    (xs ys : List ExecutionTrace) → is_empty (check_count xs ys) ≡ true → length xs ≡ length ys
check_count-length xs ys h = ground (arith, h)

compare-same : (i : ℕ) (x : ExecutionTrace) → compare i x x ≡ []
unfolding compare
compare-same i x = ground (arith, eq_refl x.event_id, eq_refl x.final_status)

compare_all-same : (i : ℕ) (xs : List ExecutionTrace) → compare_all i xs xs ≡ []
unfolding compare_all
compare_all-same i [] = refl
compare_all-same i (x ∷ xs) = rw (compare-same i x) (compare_all-same (i + 1) xs)

same_count : (n : ℕ) → (n == n) ≡ true
same_count n = ground arith

no_divergence :
    (match sound : Bool) (ds : List Divergence)
    → (is_empty (if not match && is_empty ds then ds ++ fingerprint_mismatch ∷ [] else ds) && sound)
      ≡ true
    → is_empty ds ≡ true
no_divergence match sound [] h = refl
no_divergence match sound (d ∷ ds) h = ground (arith, h)

module _ (digest : String → String) (keys : CausalGraph → String) where
  causal_ok-same : (xs : List ExecutionTrace) → causal_ok digest keys xs xs ≡ true
  unfolding causal_ok
  causal_ok-same xs =
      if_cases (λ b. b ≡ true) (min (length xs) (length xs) == 0) true _ (λ h. refl)
        (λ h. eq_refl (digest (keys (build (take (min (length xs) (length xs)) xs)))))

  found-same : (xs : List ExecutionTrace) → found digest keys xs xs ≡ []
  unfolding found
  found-same xs = rw (same_count (length xs), compare_all-same 0 xs, causal_ok-same xs) refl

  fingerprints_match-same : (xs : List ExecutionTrace) → fingerprints_match digest keys xs xs ≡ true
  unfolding fingerprints_match
  fingerprints_match-same xs = eq_refl (digest (fingerprint_text xs))

  found-parts :
      (xs ys : List ExecutionTrace)
      → is_empty (found digest keys xs ys) ≡ true
      → (is_empty (check_count xs ys) ≡ true) × (is_empty (compare_all 0 xs ys) ≡ true)
  unfolding found
  found-parts xs ys h =
      let graph : List Divergence =
        if causal_ok digest keys xs ys then [] else causal_graph_mismatch ∷ [] in
      append-is_empty (check_count xs ys) (compare_all 0 xs ys)
        (append-is_empty (check_count xs ys ++ compare_all 0 xs ys) graph h).0

  -- A list of traces validates against itself.
  validate-same : (xs : List ExecutionTrace) → (validate digest keys xs xs).valid ≡ true
  unfolding validate
  validate-same xs = rw (fingerprints_match-same xs, found-same xs, causal_ok-same xs) refl

  -- A validation that is valid shows that the snapshot's traces and the loop's agree in number, and one
  -- by one in event and final status.
  validate-outcomes :
      (xs ys : List ExecutionTrace)
      → (validate digest keys xs ys).valid ≡ true
      → map outcome xs ≡ map outcome ys
  unfolding validate
  validate-outcomes xs ys h =
      let (counted, compared) =
        found-parts xs ys (
          no_divergence (fingerprints_match digest keys xs ys) (causal_ok digest keys xs ys) _ h) in
      compare_all-outcomes 0 xs ys (check_count-length xs ys counted) compared
