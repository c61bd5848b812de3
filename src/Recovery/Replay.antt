-- ===== src/Recovery/Replay.antt =====
-- recovery/replay_validator.py: the traces of a snapshot against the traces of a loop. `digest` is the
-- hexadecimal SHA-256, cut to sixteen digits, and `keys` the text of a graph's sorted node identifiers.
pub mod Outcomes
use Prim.Native.String.{◌++◌ as concat}
use stocky_cognitive_runtime.Prelude.{
  ℕ, zero, suc, ◌+◌, min, ◌==◌, ◌≡◌, refl, sym, ap, ◌∙◌, inl, inr, String, Bool, true, false, not,
  ◌&&◌, Option, none, some, List, [], ◌∷◌, ◌++◌, map, length, take, ltb, str_eq, eq_iff, eq_refl,
  if◌then◌else◌, if_cases, arith, Bool-cases,
}
use stocky_cognitive_runtime.Data.Trace.{ExecutionTrace}
use stocky_cognitive_runtime.Causal.{CausalGraph}
use stocky_cognitive_runtime.Causal.Build.{build}

pub data Divergence : Type 0 where
  count_mismatch : (original replayed : ℕ) → Divergence
  event_id_mismatch : (index : ℕ) → (original replayed : String) → Divergence
  final_status_mismatch : (index : ℕ) → (event_id original replayed : String) → Divergence
  causal_graph_mismatch fingerprint_mismatch : Divergence

pub record ReplayValidation : Type 0 where
  pub valid : Bool
  pub total_original : ℕ
  pub total_replayed : ℕ
  pub divergences : List Divergence
  pub causal_integrity : Bool
  pub fingerprint_match : Bool

unfoldable pub compare : ℕ → ExecutionTrace → ExecutionTrace → List Divergence
compare i original replayed =
    if not (str_eq original.event_id replayed.event_id)
    then event_id_mismatch i original.event_id replayed.event_id ∷ []
    else if not (str_eq original.final_status replayed.final_status)
    then final_status_mismatch i original.event_id original.final_status replayed.final_status ∷ []
    else []

-- The loop over the traces that both have.
unfoldable pub compare_all : ℕ → List ExecutionTrace → List ExecutionTrace → List Divergence
unfolding compare
compare_all i [] ys = []
compare_all i (x ∷ xs) [] = []
compare_all i (x ∷ xs) (y ∷ ys) = compare i x y ++ compare_all (i + 1) xs ys

abbrev pub check_count : List ExecutionTrace → List ExecutionTrace → List Divergence
check_count original replayed =
    if length original == length replayed
    then []
    else count_mismatch (length original) (length replayed) ∷ []

abbrev pub is_empty : List Divergence → Bool
is_empty [] = true
is_empty (d ∷ ds) = false

unfoldable pub fingerprint_text : List ExecutionTrace → String
fingerprint_text [] = ""
fingerprint_text (t ∷ ts) =
    concat t.event_id (concat ":" (concat t.final_status (concat "|" (fingerprint_text ts))))

module _ (digest : String → String) (keys : CausalGraph → String) where
  unfoldable pub causal_ok : List ExecutionTrace → List ExecutionTrace → Bool
  unfolding build
  causal_ok original replayed =
      let n = min (length original) (length replayed) in
      if n == 0
      then true
      else str_eq (digest (keys (build (take n original))))
          (digest (keys (build (take n replayed))))

  unfoldable pub fingerprints_match : List ExecutionTrace → List ExecutionTrace → Bool
  unfolding fingerprint_text
  fingerprints_match original replayed =
      str_eq (digest (fingerprint_text original)) (digest (fingerprint_text replayed))

  -- The divergences before the overall fingerprint.
  unfoldable pub found : List ExecutionTrace → List ExecutionTrace → List Divergence
  unfolding compare_all causal_ok
  found original replayed =
      check_count original replayed
      ++ compare_all 0 original replayed
      ++ (if causal_ok original replayed then [] else causal_graph_mismatch ∷ [])

  -- `validate`, on the traces of the snapshot.
  unfoldable pub validate : List ExecutionTrace → List ExecutionTrace → ReplayValidation
  unfolding found fingerprints_match causal_ok
  validate original replayed =
      let before = found original replayed in
      let match = fingerprints_match original replayed in
      let divergences : List Divergence =
        if not match && is_empty before then before ++ fingerprint_mismatch ∷ [] else before in
      record {
        valid = is_empty divergences && causal_ok original replayed;
        total_original = length original;
        total_replayed = length replayed;
        divergences = divergences;
        causal_integrity = causal_ok original replayed;
        fingerprint_match = match;
      }
