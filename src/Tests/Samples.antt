-- ===== src/Tests/Samples.antt =====
-- The inputs of the tests.
use stocky_cognitive_runtime.Prelude.{String, true, none, List, []}
use stocky_cognitive_runtime.Prelude.Int.{pos}
use stocky_cognitive_runtime.Data.Float.{zero_float}
use stocky_cognitive_runtime.Data.Json.{null, Codec}
use stocky_cognitive_runtime.Data.Contract.{
  HostEvent, ExecutionProposal, PolicyDecision, allow, ExecutionResult, success,
}
use stocky_cognitive_runtime.Sandbox.Cell.{Surroundings, returned}
use stocky_cognitive_runtime.Sandbox.Pool.{ResourceLimits}
use stocky_cognitive_runtime.Data.Trace.{ExecutionTrace}

-- `json` on the value `null`.
abbrev pub null_codec : Codec
null_codec = record { dumps = λ j. "null"; loads = λ s. null }

abbrev pub event : String → HostEvent
event id = record {
  event_id = id;
  session_id = "s";
  timestamp = 1;
  source = "test";
  payload = null;
}

abbrev pub proposal : List String → ExecutionProposal
proposal caps = record {
  proposal_id = "p";
  session_id = "s";
  event_id = "e";
  action = "read";
  target = none;
  params = null;
  required_capabilities = caps;
  confidence = zero_float;
  risk_score = zero_float;
  metadata = null;
  correlation_id = "";
}

abbrev pub allowing : PolicyDecision
allowing = record {
  decision_id = "d";
  proposal_id = "p";
  session_id = "s";
  verdict = allow;
  reason = "fine";
  risk_level = "low";
  rule_triggered = none;
  confidence = zero_float;
  correlation_id = "";
}

abbrev pub result : ExecutionResult
result = record {
  execution_id = "x";
  proposal_id = "p";
  session_id = "s";
  status = success;
  output = none;
  error = none;
  started_at = 1;
  finished_at = 2;
  correlation_id = "";
}

abbrev pub trace : String → ExecutionTrace
trace id = record {
  event_id = id;
  session_id = "s";
  sequence_no = 1;
  correlation_id = "";
  preflight_valid = true;
  preflight_reason = none;
  preflight_rules_triggered = [];
  risk_score = zero_float;
  p4_verdict = "ALLOW";
  p4_reason = none;
  p4_risk_level = none;
  p4_rule_triggered = none;
  execution_status = "SUCCESS";
  execution_error = none;
  capabilities_checked = [];
  resource_usage = null;
  preflight_time = pos 1;
  p4_time = pos 1;
  execution_time = pos 1;
  total_time = pos 3;
  final_status = "P4_ALLOW";
}

abbrev pub world : Surroundings
world = record {
  uuid = "u";
  created = 1;
  started = 2;
  finished = 3;
  show = λ n. "n";
  worker = λ p d. returned null;
}

abbrev pub limits : ResourceLimits
limits = record { max_time_ms = 30000; max_operations = 100; max_memory_mb = 128 }
