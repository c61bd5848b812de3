-- ===== src/Substrate.antt =====
-- substrate/substrate_loop.py: one turn of the loop over the event queue.
--
-- The stages P3, P4 and the worker are parameters that return or raise; the clock is given by its
-- reading, and `correlation` by the identifier that the observation tap made for the event. The
-- tap and the time kernel only observe and are not modelled.
pub mod Gate
pub mod Turns
pub mod Potential
pub mod Drains
pub mod Liveness
pub mod Settles
use Prim.Native.String.{◌++◌ as concat}
use stocky_cognitive_runtime.Prelude.{
  ℕ, String, Bool, true, false, not, Option, none, some, List, [], ◌∷◌, if◌then◌else◌,
}
use stocky_cognitive_runtime.Prelude.Raise.{Result, ok, err}
use stocky_cognitive_runtime.Data.Json.{Json, Codec}
use stocky_cognitive_runtime.Data.Contract.{
  HostEvent, ExecutionProposal, Verdict, allow, block, defer, review, PolicyDecision,
  ExecutionResult, success, failed,
}
use stocky_cognitive_runtime.Queue.{EventQueue, QueueError, Answer}
use stocky_cognitive_runtime.Queue.Events.{pop, ack}
use stocky_cognitive_runtime.Queue.DeadLetter.{nack, record_decision}

pub record Stages : Type 0 where
  pub codec : Codec
  pub p3 : HostEvent → Result String ExecutionProposal
  pub p4 : ExecutionProposal → Result String PolicyDecision
  pub worker : ExecutionProposal → PolicyDecision → Result String Json
  pub correlation : HostEvent → String
  pub error_text : QueueError → String

-- What a call leaves: the queue, the decision it saw, whether the worker was called, and the text
-- of the exception that leaves it.
pub record Turn : Type 0 where
  pub queue : EventQueue
  pub last_decision : Option Verdict
  pub called : Bool
  pub raised : Option String

abbrev pub verdict_text : Verdict → String
verdict_text allow = "ALLOW"
verdict_text block = "BLOCK"
verdict_text defer = "DEFER"
verdict_text review = "REVIEW"

abbrev pub block_reason : PolicyDecision → String
block_reason d = concat "P4 blocked: " (concat (verdict_text d.verdict) (concat " - " d.reason))

abbrev make_result : ExecutionProposal → ℕ → Result String Json → ExecutionResult
make_result p now (ok output) = record {
  execution_id = concat "exec-" p.proposal_id;
  proposal_id = p.proposal_id;
  session_id = p.session_id;
  status = success;
  output = some output;
  error = none;
  started_at = now;
  finished_at = now;
  correlation_id = "";
}
make_result p now (err e) = record {
  execution_id = concat "exec-" p.proposal_id;
  proposal_id = p.proposal_id;
  session_id = p.session_id;
  status = failed;
  output = none;
  error = some e;
  started_at = now;
  finished_at = now;
  correlation_id = "";
}

module _ (stages : Stages) where
  -- `_execute`, with one reading of the clock.
  unfoldable pub execute : ExecutionProposal → PolicyDecision → ℕ → ExecutionResult
  execute p d now = make_result p now (stages.worker p d)

  unfoldable pub settled : EventQueue → Verdict → Bool → Answer Unit → Turn
  settled q verdict called (ok (_, q')) = record {
    queue = q';
    last_decision = some verdict;
    called = called;
    raised = none;
  }
  settled q verdict called (err e) = record {
    queue = q;
    last_decision = some verdict;
    called = called;
    raised = some (stages.error_text e);
  }

  unfoldable pub blocked : EventQueue → HostEvent → PolicyDecision → ℕ → Turn
  unfolding settled nack
  blocked q e d now = settled q d.verdict false (nack q e.event_id (block_reason d) now)

  -- Step 3, on the verdict.
  unfoldable pub act :
      Verdict → EventQueue → HostEvent → ExecutionProposal → PolicyDecision → ℕ → Turn
  unfolding settled execute blocked ack
  act allow q e p d now = settled q d.verdict true (
      ack stages.codec q e.event_id
        (record (execute p d now) { correlation_id = stages.correlation e }) now)
  act block q e p d now = blocked q e d now
  act defer q e p d now = blocked q e d now
  act review q e p d now = blocked q e d now

  abbrev pub abandoned : EventQueue → String → Turn
  abandoned q error = record {
    queue = q;
    last_decision = none;
    called = false;
    raised = some error;
  }

  unfoldable pub recorded :
      EventQueue → HostEvent → ExecutionProposal → PolicyDecision → ℕ → Answer Unit → Turn
  unfolding act
  recorded q e p d now (err error) = abandoned q (stages.error_text error)
  recorded q e p d now (ok (_, q')) = act d.verdict q' e p d now

  -- Step 2, from what P4 returns.
  unfoldable pub decided :
      EventQueue → HostEvent → ExecutionProposal → ℕ → Result String PolicyDecision → Turn
  unfolding recorded record_decision
  decided q e p now (err error) = abandoned q error
  decided q e p now (ok d) =
      let d' = record d { correlation_id = stages.correlation e } in
      recorded q e p d' now (record_decision q d' now)

  -- Step 1, from what P3 returns.
  unfoldable pub proposed : EventQueue → HostEvent → ℕ → Result String ExecutionProposal → Turn
  unfolding decided
  proposed q e now (err error) = abandoned q error
  proposed q e now (ok p) =
      let p' = record p { correlation_id = stages.correlation e } in
      decided q e p' now (stages.p4 p')

  unfoldable pub process_event : EventQueue → HostEvent → ℕ → Turn
  unfolding proposed
  process_event q e now = proposed q e now (stages.p3 e)

  unfoldable pub noted : Turn → Answer Unit → Turn
  noted t (ok (_, q')) = record t { queue = q'; raised = none }
  noted t (err failure) = record t { raised = some (stages.error_text failure) }

  -- The `except` of the loop: a raised error is a failure of the event.
  unfoldable pub caught : HostEvent → ℕ → Turn → Option String → Turn
  unfolding nack noted
  caught e now t none = t
  caught e now t (some error) = noted t (nack t.queue e.event_id error now)

  unfoldable pub popped : EventQueue → ℕ → Answer (Option HostEvent) → Turn
  unfolding caught process_event
  popped q now (err error) = abandoned q (stages.error_text error)
  popped q now (ok (none, q')) = record {
    queue = q';
    last_decision = none;
    called = false;
    raised = none;
  }
  popped q now (ok (some e, q')) = let t = process_event q' e now in caught e now t t.raised

  -- One turn of the `while` of `run`.
  unfoldable pub turn : EventQueue → ℕ → Turn
  unfolding popped pop
  turn q now = popped q now (pop stages.codec q now)

-- Turns of the loop, each with what its stages answer and its reading of the clock, with no other
-- call of the queue in between. A stage may answer otherwise in each turn.
unfoldable pub turns : EventQueue → List (Stages × ℕ) → EventQueue
unfolding turn
turns q [] = q
turns q ((stages, now) ∷ later) = turns (turn stages q now).queue later
