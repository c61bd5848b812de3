-- ===== src/Data/Contract.antt =====
-- cognitive_runtime/contracts/execution_contract.py. Times are readings of the clock, in whole
-- microseconds.
use stocky_cognitive_runtime.Prelude.{ℕ, String, Option, List, str_eq, if◌then◌else◌}
use stocky_cognitive_runtime.Data.Float.{Float}
use stocky_cognitive_runtime.Data.Json.{Json}

pub data Capability : Type 0 where
  filesystem_read filesystem_write process_execute network_http : Capability
  runtime_spawn audit_read replay_read counterfactual_analyze : Capability

abbrev pub value : Capability → String
value filesystem_read = "filesystem.read"
value filesystem_write = "filesystem.write"
value process_execute = "process.execute"
value network_http = "network.http"
value runtime_spawn = "runtime.spawn"
value audit_read = "audit.read"
value replay_read = "replay.read"
value counterfactual_analyze = "counterfactual.analyze"

-- `_LEGACY_MAP` and `Capability.from_legacy`.
abbrev pub from_legacy : String → Capability
from_legacy name =
    if str_eq name "READ_FILE"
    then filesystem_read
    else if str_eq name "WRITE_FILE"
    then filesystem_write
    else if str_eq name "EXECUTE"
    then process_execute
    else if str_eq name "NETWORK"
    then network_http
    else if str_eq name "AUDIT"
    then audit_read
    else if str_eq name "REPLAY"
    then replay_read
    else if str_eq name "COUNTERFACTUAL"
    then counterfactual_analyze
    else filesystem_read

pub record HostEvent : Type 0 where
  pub event_id : String
  pub session_id : String
  pub timestamp : ℕ
  pub source : String
  pub payload : Json

-- `Capability` is a subclass of `str`: a list of capabilities is given by its texts, which may also
-- be the name of no capability (both gates of the sandbox test for that).
pub record ExecutionProposal : Type 0 where
  pub proposal_id : String
  pub session_id : String
  pub event_id : String
  pub action : String
  pub target : Option String
  pub params : Json
  pub required_capabilities : List String
  pub confidence : Float
  pub risk_score : Float
  pub metadata : Json
  pub correlation_id : String

pub data Verdict : Type 0 where
  allow block defer review : Verdict

pub record PolicyDecision : Type 0 where
  pub decision_id : String
  pub proposal_id : String
  pub session_id : String
  pub verdict : Verdict
  pub reason : String
  pub risk_level : String
  pub rule_triggered : Option String
  pub confidence : Float
  pub correlation_id : String

pub data ResultStatus : Type 0 where
  success failed skipped queued : ResultStatus

pub record ExecutionResult : Type 0 where
  pub execution_id : String
  pub proposal_id : String
  pub session_id : String
  pub status : ResultStatus
  pub output : Option Json
  pub error : Option String
  pub started_at : ℕ
  pub finished_at : ℕ
  pub correlation_id : String

pub record DeadLetterEvent : Type 0 where
  pub event_id : String
  pub original_event : Json
  pub failure_reason : String
  pub retry_count : ℕ
