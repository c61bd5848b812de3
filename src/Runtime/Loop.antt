-- ===== src/Runtime/Loop.antt =====
-- cognitive_runtime/runtime/runtime_loop.py: the loop over the event queue, its state and its traces.
--
-- Of the loop's analyses the compression, the confidence, the governance, the feedback, the telemetry
-- and the liveness monitor report only, and return: they are left out, with the observer. The scores
-- that a checkpoint and the stability analysis read of them are given with the readings of a cycle.
pub mod Finalize
pub mod Process
pub mod Run
pub mod Settle
pub mod Gate
pub mod Cycle
pub mod Turns
pub mod Statuses
pub mod Stuck
use stocky_cognitive_runtime.Prelude.{
  ℕ, String, Bool, true, false, Option, none, some, List, if◌then◌else◌, ◌==◌,
}
use stocky_cognitive_runtime.Prelude.Int.{pos, sub_ℕ, ℤ}
use stocky_cognitive_runtime.Prelude.Raise.{Result}
use stocky_cognitive_runtime.Data.Float.{Float}
use stocky_cognitive_runtime.Data.Json.{Codec, obj, end}
use stocky_cognitive_runtime.Data.Contract.{
  HostEvent, ExecutionProposal, PolicyDecision, ExecutionResult, ResultStatus, failed,
}
use stocky_cognitive_runtime.Data.Trace.{ExecutionTrace}
use stocky_cognitive_runtime.Data.Normalize.{RawTrace, normalize}
use stocky_cognitive_runtime.Queue.{EventQueue, QueueError}
use stocky_cognitive_runtime.Queue.Events.{status_text}
use stocky_cognitive_runtime.Substrate.{verdict_text}
use stocky_cognitive_runtime.Sandbox.Enforcer.{CapabilityEnforcer}
use stocky_cognitive_runtime.Sandbox.Preflight.{PreflightResult}
use stocky_cognitive_runtime.Sandbox.Cell.{Surroundings}
use stocky_cognitive_runtime.Sandbox.Pool.{SandboxPool}
use stocky_cognitive_runtime.TraceWindow.{TraceWindow}
use stocky_cognitive_runtime.Causal.{CausalGraph}
use stocky_cognitive_runtime.Recovery.Snapshot.{RuntimeSnapshot}
use stocky_cognitive_runtime.Recovery.Delta.{DeltaCheckpointManager}
use stocky_cognitive_runtime.Runtime.Orchestrator.{RuntimeOrchestrator}
use stocky_cognitive_runtime.Runtime.Coherence.{CoherenceMonitor}

-- What the loop is made with, and the libraries behind it. `enforcer` and `max_time_ms` are those of
-- the pool's cells.
pub record Parts : Type 0 where
  pub codec : Codec
  pub digest : String → String
  pub show : Float → String
  pub blend : Float → Float → Float
  pub round : Float → Float
  pub error_text : QueueError → String
  pub p3 : HostEvent → Result String ExecutionProposal
  pub p4 : ExecutionProposal → Result String PolicyDecision
  pub enforcer : CapabilityEnforcer
  pub max_time_ms : ℕ
  pub schema_version : String
  pub schema_fingerprint : String

-- What one cycle reads from outside: the clock at its stages, at the start and the end of the trace,
-- a fresh identifier, the cell's surroundings, the scores of the analyses, whether a checkpoint can
-- be written, and how long the cycle took.
pub record Moment : Type 0 where
  pub now : ℕ
  pub start_time : ℕ
  pub built : ℕ
  pub uuid : String
  pub cell : Surroundings
  pub stability : Float
  pub governance_scores : List Float
  pub confidence_scores : List Float
  pub confidence_gradient : Option String
  pub stability_scores : List Float
  pub snapshot_id : String
  pub writes : Bool
  pub duration : Float

-- The orchestrator shares the loop's state and holds it here. `recovering` is the coordinator's
-- `recovery_in_progress`.
pub record RuntimeLoop : Type 0 where
  pub orchestrator : RuntimeOrchestrator
  pub queue : EventQueue
  pub pool : SandboxPool
  pub traces : TraceWindow
  pub graph : CausalGraph
  pub coherence : CoherenceMonitor
  pub stability_score : Option Float
  pub checkpoints : DeltaCheckpointManager
  pub last_checkpoint_cycle : ℕ
  pub recovering : Bool

-- The verdict of the trace, and the status.
abbrev pub traced_verdict : Option PolicyDecision → String
traced_verdict none = "BLOCKED_BY_PREFLIGHT"
traced_verdict (some d) = verdict_text d.verdict

abbrev pub traced_status : Option ExecutionResult → String
traced_status none = ""
traced_status (some r) = status_text r.status

abbrev policy_reason : PreflightResult → Option PolicyDecision → String
policy_reason pre none = pre.reason
policy_reason pre (some d) = d.reason

abbrev risk_level : Option PolicyDecision → String
risk_level none = ""
risk_level (some d) = d.risk_level

abbrev rule_triggered : Option PolicyDecision → Option String
rule_triggered none = none
rule_triggered (some d) = d.rule_triggered

abbrev result_error : Option ExecutionResult → Option String
result_error none = none
result_error (some r) = r.error

abbrev execution_span : Option ExecutionResult → ℤ
execution_span none = pos 0
execution_span (some r) = if r.started_at == 0 then pos 0 else sub_ℕ r.finished_at r.started_at

abbrev pub raw_trace :
    Moment
    → HostEvent
    → ExecutionProposal
    → PreflightResult
    → Option PolicyDecision
    → Option ExecutionResult
    → RawTrace
raw_trace m e p pre decision result = record {
  event_id = some e.event_id;
  session_id = some e.session_id;
  sequence_no = some 1;
  correlation_id = some m.uuid;
  risk_score = some pre.risk_score;
  preflight = record {
    valid = some pre.valid;
    reason = some pre.reason;
    rules = some pre.triggered_rules;
  };
  p4 = record {
    verdict = some (traced_verdict decision);
    reason = some (policy_reason pre decision);
    risk_level = some (risk_level decision);
    rule_triggered = rule_triggered decision;
  };
  sandbox = record {
    status = some (traced_status result);
    error = result_error result;
    capabilities = some p.required_capabilities;
    resource_usage = some (obj end);
  };
  timing = record {
    preflight = some (sub_ℕ m.built m.start_time);
    p4 = some (sub_ℕ m.built m.start_time);
    execution = some (execution_span result);
    total = some (sub_ℕ m.built m.start_time);
  };
}

-- `_build_trace`
unfoldable pub build_trace :
    Moment
    → HostEvent
    → ExecutionProposal
    → PreflightResult
    → Option PolicyDecision
    → Option ExecutionResult
    → ExecutionTrace
build_trace m e p pre decision result = normalize (raw_trace m e p pre decision result)

-- The result that stands for an execution that P4 did not allow.
abbrev pub refusal : Moment → HostEvent → ExecutionProposal → String → ExecutionResult
refusal m e p reason = record {
  execution_id = "";
  proposal_id = p.proposal_id;
  session_id = e.session_id;
  status = failed;
  output = none;
  error = some reason;
  started_at = m.now;
  finished_at = m.now;
  correlation_id = "";
}
