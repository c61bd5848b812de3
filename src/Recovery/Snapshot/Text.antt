-- ===== src/Recovery/Snapshot/Text.antt =====
-- recovery/runtime_snapshot.py: `to_dict`, `to_json`, `from_dict` and `from_json`, over the `json`
-- module.
--
-- Python keeps what the text holds, of whatever type; here a value of another type than the field's
-- is not read, and neither is a dictionary that lacks a field without a default. The traces, which
-- the code keeps as dictionaries, are read as `_dict_to_trace` of recovery_coordinator.py reads them
-- when they are restored.
use stocky_cognitive_runtime.Prelude.{String, false, Option, none, some, [], ◌∷◌}
use stocky_cognitive_runtime.Prelude.Int.{pos}
use stocky_cognitive_runtime.Data.Float.{zero_float}
use stocky_cognitive_runtime.Data.Json.{
  Json, bool, int, real, str, obj, Fields, end, get_field, Codec,
}
use stocky_cognitive_runtime.Data.Trace.{ExecutionTrace}
use stocky_cognitive_runtime.Recovery.Snapshot.{RuntimeSnapshot}
use stocky_cognitive_runtime.Data.Json.Read.{
  ◌>>=◌, dict, json_list, json_option, json_number, read_text, read_option, read_bool, read_int,
  read_number, read_real, read_dict, read_list, read_or,
}

-- `asdict` of a trace.
unfoldable pub trace_dict : ExecutionTrace → Fields
trace_dict t = dict (
    ("event_id", str t.event_id)
    ∷ ("session_id", str t.session_id)
    ∷ ("sequence_no", json_number t.sequence_no)
    ∷ ("correlation_id", str t.correlation_id)
    ∷ ("preflight_valid", bool t.preflight_valid)
    ∷ ("preflight_reason", json_option t.preflight_reason)
    ∷ ("preflight_rules_triggered", json_list str t.preflight_rules_triggered)
    ∷ ("risk_score", real t.risk_score)
    ∷ ("p4_verdict", str t.p4_verdict)
    ∷ ("p4_reason", json_option t.p4_reason)
    ∷ ("p4_risk_level", json_option t.p4_risk_level)
    ∷ ("p4_rule_triggered", json_option t.p4_rule_triggered)
    ∷ ("execution_status", str t.execution_status)
    ∷ ("execution_error", json_option t.execution_error)
    ∷ ("capabilities_checked", json_list str t.capabilities_checked)
    ∷ ("resource_usage", t.resource_usage)
    ∷ ("preflight_time", int t.preflight_time)
    ∷ ("p4_time", int t.p4_time)
    ∷ ("execution_time", int t.execution_time)
    ∷ ("total_time", int t.total_time)
    ∷ ("final_status", str t.final_status)
    ∷ [])

-- `_dict_to_trace`
unfoldable pub trace_of : Fields → Option ExecutionTrace
unfolding get_field
trace_of d = do
  event ← read_or read_text (some "") (get_field d "event_id")
  session ← read_or read_text (some "") (get_field d "session_id")
  number ← read_or read_number (some 0) (get_field d "sequence_no")
  correlation ← read_or read_text (some "") (get_field d "correlation_id")
  valid ← read_or read_bool (some false) (get_field d "preflight_valid")
  reason ← read_or read_option (some none) (get_field d "preflight_reason")
  rules ← read_or (read_list read_text) (some []) (get_field d "preflight_rules_triggered")
  risk ← read_or read_real (some zero_float) (get_field d "risk_score")
  verdict ← read_or read_text (some "UNKNOWN") (get_field d "p4_verdict")
  p4_reason ← read_or read_option (some none) (get_field d "p4_reason")
  p4_risk ← read_or read_option (some none) (get_field d "p4_risk_level")
  p4_rule ← read_or read_option (some none) (get_field d "p4_rule_triggered")
  status ← read_or read_text (some "UNKNOWN") (get_field d "execution_status")
  error ← read_or read_option (some none) (get_field d "execution_error")
  capabilities ← read_or (read_list read_text) (some []) (get_field d "capabilities_checked")
  usage ← read_or some (some (obj end)) (get_field d "resource_usage")
  preflight ← read_or read_int (some (pos 0)) (get_field d "preflight_time")
  p4 ← read_or read_int (some (pos 0)) (get_field d "p4_time")
  execution ← read_or read_int (some (pos 0)) (get_field d "execution_time")
  total ← read_or read_int (some (pos 0)) (get_field d "total_time")
  final ← read_or read_text (some "UNKNOWN") (get_field d "final_status")
  some (record {
    event_id = event;
    session_id = session;
    sequence_no = number;
    correlation_id = correlation;
    preflight_valid = valid;
    preflight_reason = reason;
    preflight_rules_triggered = rules;
    risk_score = risk;
    p4_verdict = verdict;
    p4_reason = p4_reason;
    p4_risk_level = p4_risk;
    p4_rule_triggered = p4_rule;
    execution_status = status;
    execution_error = error;
    capabilities_checked = capabilities;
    resource_usage = usage;
    preflight_time = preflight;
    p4_time = p4;
    execution_time = execution;
    total_time = total;
    final_status = final;
  })

abbrev pub json_trace : ExecutionTrace → Json
json_trace t = obj (trace_dict t)

abbrev pub read_trace : Json → Option ExecutionTrace
read_trace j = read_dict j >>= trace_of

unfoldable pub to_dict : RuntimeSnapshot → Fields
to_dict s = dict (
    ("snapshot_id", str s.snapshot_id)
    ∷ ("created_at", json_number s.created_at)
    ∷ ("runtime_state_snapshot", obj s.state)
    ∷ ("trace_count", json_number s.trace_count)
    ∷ ("traces", json_list json_trace s.traces)
    ∷ ("governance_score_history", json_list real s.governance_scores)
    ∷ ("confidence_score_history", json_list real s.confidence_scores)
    ∷ ("confidence_gradient", str s.confidence_gradient)
    ∷ ("stability_score_history", json_list real s.stability_scores)
    ∷ ("queue_depth", json_number s.queue_depth)
    ∷ ("total_events_processed", json_number s.total_events_processed)
    ∷ ("schema_version", str s.schema_version)
    ∷ ("schema_fingerprint", str s.schema_fingerprint)
    ∷ ("cycle_count", json_number s.cycle_count)
    ∷ ("recovery_mode_enabled", bool s.recovery_mode_enabled)
    ∷ [])

-- `FROZEN_SCHEMA_VERSION_STR`
abbrev pub frozen_schema_text : String
frozen_schema_text = "1.1.0"

unfoldable pub from_dict : Fields → Option RuntimeSnapshot
unfolding get_field
from_dict d = do
  id ← read_or read_text none (get_field d "snapshot_id")
  created ← read_or read_number none (get_field d "created_at")
  state ← read_or read_dict none (get_field d "runtime_state_snapshot")
  count ← read_or read_number none (get_field d "trace_count")
  traces ← read_or (read_list read_trace) none (get_field d "traces")
  governance ← read_or (read_list read_real) none (get_field d "governance_score_history")
  confidence ← read_or (read_list read_real) none (get_field d "confidence_score_history")
  gradient ← read_or read_text (some "HIGH") (get_field d "confidence_gradient")
  stability ← read_or (read_list read_real) none (get_field d "stability_score_history")
  depth ← read_or read_number (some 0) (get_field d "queue_depth")
  events ← read_or read_number (some 0) (get_field d "total_events_processed")
  version ← read_or read_text (some frozen_schema_text) (get_field d "schema_version")
  fingerprint ← read_or read_text (some "") (get_field d "schema_fingerprint")
  cycles ← read_or read_number (some 0) (get_field d "cycle_count")
  recovering ← read_or read_bool (some false) (get_field d "recovery_mode_enabled")
  some (record {
    snapshot_id = id;
    created_at = created;
    state = state;
    trace_count = count;
    traces = traces;
    governance_scores = governance;
    confidence_scores = confidence;
    confidence_gradient = gradient;
    stability_scores = stability;
    queue_depth = depth;
    total_events_processed = events;
    schema_version = version;
    schema_fingerprint = fingerprint;
    cycle_count = cycles;
    recovery_mode_enabled = recovering;
  })

module _ (codec : Codec) where
  unfoldable pub to_json : RuntimeSnapshot → String
  unfolding to_dict
  to_json s = codec.dumps (obj (to_dict s))

  unfoldable pub from_json : String → Option RuntimeSnapshot
  unfolding from_dict
  from_json text = read_dict (codec.loads text) >>= from_dict
