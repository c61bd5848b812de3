-- ===== src/Data/Normalize.antt =====
-- contracts/execution_trace.py, `ExecutionTraceNormalizer`: the trace of an event from the raw data
-- of its stages.
--
-- A section or a key that the dictionary lacks is `none`; a key that is there holds a value of the
-- field's type.
use Prim.Native.String.{◌++◌ as concat}
use stocky_cognitive_runtime.Prelude.{
  ℕ, String, Bool, true, false, not, Option, none, some, List, [], str_eq, if◌then◌else◌,
}
use stocky_cognitive_runtime.Prelude.Int.{ℤ, pos}
use stocky_cognitive_runtime.Data.Float.{Float, zero_float}
use stocky_cognitive_runtime.Data.Json.{Json, obj, end}
use stocky_cognitive_runtime.Data.Trace.{ExecutionTrace}

pub record RawPreflight : Type 0 where
  pub valid : Option Bool
  pub reason : Option String
  pub rules : Option (List String)

pub record RawPolicy : Type 0 where
  pub verdict : Option String
  pub reason : Option String
  pub risk_level : Option String
  pub rule_triggered : Option String

pub record RawSandbox : Type 0 where
  pub status : Option String
  pub error : Option String
  pub capabilities : Option (List String)
  pub resource_usage : Option Json

pub record RawTiming : Type 0 where
  pub preflight : Option ℤ
  pub p4 : Option ℤ
  pub execution : Option ℤ
  pub total : Option ℤ

-- A section that is absent reads as one without keys.
pub record RawTrace : Type 0 where
  pub event_id : Option String
  pub session_id : Option String
  pub sequence_no : Option ℕ
  pub correlation_id : Option String
  pub risk_score : Option Float
  pub preflight : RawPreflight
  pub p4 : RawPolicy
  pub sandbox : RawSandbox
  pub timing : RawTiming

-- `d.get(key, default)`
abbrev pub get_or {ℓ} : {A : Type ℓ} → A → Option A → A
get_or default none = default
get_or default (some a) = a

abbrev derive_preflight : RawPreflight → String
derive_preflight p = if get_or true p.valid then "UNKNOWN" else "BLOCKED_BY_PREFLIGHT"

abbrev derive_policy : RawPolicy → String → String
derive_policy p otherwise =
    let verdict = get_or "" p.verdict in
    if not (str_eq verdict "") then concat "P4_" verdict else otherwise

abbrev pub derive_final_status : RawTrace → String
derive_final_status raw =
    if str_eq (get_or "" raw.sandbox.status) "FAILED"
    then "SANDBOX_FAILED"
    else derive_policy raw.p4 (derive_preflight raw.preflight)

abbrev pub normalize : RawTrace → ExecutionTrace
normalize raw = record {
  event_id = get_or "" raw.event_id;
  session_id = get_or "" raw.session_id;
  sequence_no = get_or 0 raw.sequence_no;
  correlation_id = get_or "" raw.correlation_id;
  preflight_valid = get_or false raw.preflight.valid;
  preflight_reason = raw.preflight.reason;
  preflight_rules_triggered = get_or [] raw.preflight.rules;
  risk_score = get_or zero_float raw.risk_score;
  p4_verdict = get_or "UNKNOWN" raw.p4.verdict;
  p4_reason = raw.p4.reason;
  p4_risk_level = raw.p4.risk_level;
  p4_rule_triggered = raw.p4.rule_triggered;
  execution_status = get_or "UNKNOWN" raw.sandbox.status;
  execution_error = raw.sandbox.error;
  capabilities_checked = get_or [] raw.sandbox.capabilities;
  resource_usage = get_or (obj end) raw.sandbox.resource_usage;
  preflight_time = get_or (pos 0) raw.timing.preflight;
  p4_time = get_or (pos 0) raw.timing.p4;
  execution_time = get_or (pos 0) raw.timing.execution;
  total_time = get_or (pos 0) raw.timing.total;
  final_status = derive_final_status raw;
}
