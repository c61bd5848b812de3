-- ===== src/Runtime/Loop/Process.antt =====
-- runtime/runtime_loop.py, `_process_event`: the stages of an event.
--
-- A call that raises leaves the loop as the stages before it did.
use Prim.Native.String.{◌++◌ as concat}
use stocky_cognitive_runtime.Prelude.{
  ◌+◌, String, Bool, false, not, Option, none, some, if◌then◌else◌,
}
use stocky_cognitive_runtime.Prelude.Raise.{Result, ok, err}
use stocky_cognitive_runtime.Data.Contract.{
  HostEvent, ExecutionProposal, Verdict, allow, block, defer, review, PolicyDecision,
  ExecutionResult,
}
use stocky_cognitive_runtime.Data.Trace.{ExecutionTrace}
use stocky_cognitive_runtime.Queue.{Answer}
use stocky_cognitive_runtime.Queue.Events.{ack}
use stocky_cognitive_runtime.Queue.DeadLetter.{nack, record_decision}
use stocky_cognitive_runtime.Substrate.{verdict_text}
use stocky_cognitive_runtime.Sandbox.Preflight.{PreflightResult, analyze}
use stocky_cognitive_runtime.Sandbox.Pool.Execute.{execute}
use stocky_cognitive_runtime.Runtime.Loop.{Parts, Moment, RuntimeLoop, build_trace, refusal}
use stocky_cognitive_runtime.Runtime.Loop.Finalize.{finalize_cycle}

-- What a call leaves: the loop, whether the worker was called, the trace of the event, and the text
-- of the exception that leaves it.
pub record Outcome : Type 0 where
  pub after : RuntimeLoop
  pub called : Bool
  pub trace : Option ExecutionTrace
  pub raised : Option String

abbrev pub abandoned : RuntimeLoop → Bool → String → Outcome
abandoned l called error = record { after = l; called = called; trace = none; raised = some error }

abbrev pub replay_protection : String
replay_protection = "Replay protection: event processing blocked during recovery"

abbrev pub block_reason : PolicyDecision → String
block_reason d = concat "P4_blocked: " (concat (verdict_text d.verdict) (concat " - " d.reason))

abbrev empty_deque : String
empty_deque = "pop from an empty deque"

-- The deque of a window of size 0 is empty, so its `append` raises before it archives.
unfoldable pub finished : RuntimeLoop → Bool → ExecutionTrace → Option RuntimeLoop → Outcome
finished l called t none =
    abandoned (record l { traces = record l.traces { total_count = l.traces.total_count + 1 } })
      called empty_deque
finished l called t (some l') = record {
  after = l';
  called = called;
  trace = some t;
  raised = none;
}

module _ (parts : Parts) (m : Moment) where
  -- Stage 5.
  unfoldable pub completed :
      RuntimeLoop
      → HostEvent
      → ExecutionProposal
      → PreflightResult
      → Option PolicyDecision
      → Option ExecutionResult
      → Bool
      → Outcome
  unfolding finished finalize_cycle build_trace
  completed l e p pre decision result called =
      let t = build_trace m e p pre decision result in
      finished l called t (finalize_cycle parts m l t)

  -- What follows the acknowledgement or the refusal of the event, in the queue.
  unfoldable pub answered :
      RuntimeLoop
      → HostEvent
      → ExecutionProposal
      → PreflightResult
      → PolicyDecision
      → ExecutionResult
      → Bool
      → Answer Unit
      → Outcome
  unfolding completed
  answered l e p pre d result called (err error) = abandoned l called (parts.error_text error)
  answered l e p pre d result called (ok (_, q)) =
      completed (record l { queue = q }) e p pre (some d) (some result) called

  unfoldable pub allowed :
      RuntimeLoop → HostEvent → ExecutionProposal → PreflightResult → PolicyDecision → Outcome
  unfolding answered execute ack
  allowed l e p pre d =
      let run = execute parts.enforcer parts.max_time_ms m.cell l.pool p d in
      answered (record l { pool = run.pool }) e p pre d run.result run.called
        (ack parts.codec l.queue e.event_id run.result m.now)

  unfoldable pub refused :
      RuntimeLoop → HostEvent → ExecutionProposal → PreflightResult → PolicyDecision → Outcome
  unfolding answered nack
  refused l e p pre d =
      answered l e p pre d (refusal m e p (block_reason d)) false
        (nack l.queue e.event_id (block_reason d) m.now)

  -- Stage 4.
  unfoldable pub act :
      Verdict
      → RuntimeLoop
      → HostEvent
      → ExecutionProposal
      → PreflightResult
      → PolicyDecision
      → Outcome
  unfolding allowed refused
  act allow l e p pre d = allowed l e p pre d
  act block l e p pre d = refused l e p pre d
  act defer l e p pre d = refused l e p pre d
  act review l e p pre d = refused l e p pre d

  unfoldable pub recorded :
      RuntimeLoop
      → HostEvent
      → ExecutionProposal
      → PreflightResult
      → PolicyDecision
      → Answer Unit
      → Outcome
  unfolding act
  recorded l e p pre d (err error) = abandoned l false (parts.error_text error)
  recorded l e p pre d (ok (_, q)) = act d.verdict (record l { queue = q }) e p pre d

  -- Stage 3, from what P4 returns.
  unfoldable pub decided :
      RuntimeLoop
      → HostEvent
      → ExecutionProposal
      → PreflightResult
      → Result String PolicyDecision
      → Outcome
  unfolding recorded record_decision
  decided l e p pre (err error) = abandoned l false error
  decided l e p pre (ok d) = recorded l e p pre d (record_decision l.queue d m.now)

  -- Stage 2, from what the preflight check returns.
  unfoldable pub checked : RuntimeLoop → HostEvent → ExecutionProposal → PreflightResult → Outcome
  unfolding completed decided
  checked l e p pre =
      if not pre.valid then completed l e p pre none none false else decided l e p pre (parts.p4 p)

  -- Stage 1, from what P3 returns.
  unfoldable pub proposed : RuntimeLoop → HostEvent → Result String ExecutionProposal → Outcome
  unfolding checked analyze
  proposed l e (err error) = abandoned l false error
  proposed l e (ok p) = checked l e p (analyze p)

  unfoldable pub process_event : RuntimeLoop → HostEvent → Outcome
  unfolding proposed
  process_event l e =
      if l.recovering then abandoned l false replay_protection else proposed l e (parts.p3 e)
