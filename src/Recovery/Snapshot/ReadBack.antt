-- ===== src/Recovery/Snapshot/ReadBack.antt =====
-- recovery/runtime_snapshot.py: `from_json` on what `to_json` wrote.
use stocky_cognitive_runtime.Prelude.{◌≡◌, refl, String, Option, none, some, List, [], ◌∷◌}
use stocky_cognitive_runtime.Data.Json.{Json, str, real, obj, Codec}
use stocky_cognitive_runtime.Data.Trace.{ExecutionTrace}
use stocky_cognitive_runtime.Recovery.Snapshot.{RuntimeSnapshot}
use stocky_cognitive_runtime.Recovery.Snapshot.Text.{
  json_trace, read_trace, trace_dict, trace_of, to_dict, from_dict, to_json, from_json,
}
use stocky_cognitive_runtime.Data.Json.Read.{
  json_items, json_option, read_text, read_real, read_option, read_items,
}

read_items-json_items {ℓ} :
    {A : Type ℓ} (show : A → Json) (read : Json → Option A) (xs : List A)
    → ((x : A) → read (show x) ≡ some x)
    → read_items read (json_items show xs) ≡ some xs
read_items-json_items show read [] h = refl
read_items-json_items show read (x ∷ xs) h = rw (h x, read_items-json_items show read xs h) refl

read_option-json_option : (o : Option String) → read_option (json_option o) ≡ some o
read_option-json_option none = refl
read_option-json_option (some s) = refl

trace_of-trace_dict : (t : ExecutionTrace) → trace_of (trace_dict t) ≡ some t
unfolding trace_of trace_dict
trace_of-trace_dict t =
    rw
      (
        read_option-json_option t.preflight_reason,
        read_items-json_items str read_text t.preflight_rules_triggered (λ x. refl),
        read_option-json_option t.p4_reason,
        read_option-json_option t.p4_risk_level,
        read_option-json_option t.p4_rule_triggered,
        read_option-json_option t.execution_error,
        read_items-json_items str read_text t.capabilities_checked (λ x. refl),
      )
      refl

from_dict-to_dict : (s : RuntimeSnapshot) → from_dict (to_dict s) ≡ some s
unfolding from_dict to_dict
from_dict-to_dict s =
    rw
      (
        read_items-json_items json_trace read_trace s.traces trace_of-trace_dict,
        read_items-json_items real read_real s.governance_scores (λ x. refl),
        read_items-json_items real read_real s.confidence_scores (λ x. refl),
        read_items-json_items real read_real s.stability_scores (λ x. refl),
      )
      refl

-- A snapshot is read back from its text where the `json` module reads back the dictionary.
pub from_json-to_json :
    (codec : Codec) (s : RuntimeSnapshot)
    → codec.loads (codec.dumps (obj (to_dict s))) ≡ obj (to_dict s)
    → from_json codec (to_json codec s) ≡ some s
unfolding from_json to_json
from_json-to_json codec s e = rw e (from_dict-to_dict s)
