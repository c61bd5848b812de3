-- ===== src/Runtime/Loop/Gate.antt =====
-- runtime/runtime_loop.py: what stands behind a call of the worker.
use stocky_cognitive_runtime.Prelude.{
  ◌≡◌, refl, sym, ◌∙◌, Bool, true, false, Option, none, some, All, arith, inl, inr, Bool-cases,
}
use stocky_cognitive_runtime.Prelude.Raise.{ok, err, Result-cases}
use stocky_cognitive_runtime.Data.Contract.{
  HostEvent, ExecutionProposal, Verdict, allow, block, defer, review, PolicyDecision,
  ExecutionResult,
}
use stocky_cognitive_runtime.Data.Trace.{ExecutionTrace}
use stocky_cognitive_runtime.Queue.{EventQueue, Answer}
use stocky_cognitive_runtime.Queue.Events.{ack}
use stocky_cognitive_runtime.Queue.DeadLetter.{record_decision}
use stocky_cognitive_runtime.Sandbox.Enforcer.{IsFree}
use stocky_cognitive_runtime.Sandbox.Cell.{execute_cell-IsFree}
use stocky_cognitive_runtime.Sandbox.Preflight.{PreflightResult, analyze, IsSound, analyze-IsSound}
use stocky_cognitive_runtime.Sandbox.Pool.Execute.{execute}
use stocky_cognitive_runtime.Runtime.Loop.{Parts, Moment, RuntimeLoop, refusal}
use stocky_cognitive_runtime.Runtime.Loop.Process.{
  finished, completed, answered, allowed, refused, act, recorded, decided, checked, proposed,
  process_event, block_reason,
}

module _ (parts : Parts) (m : Moment) where
  -- The proposal and the decision behind a call of the worker.
  pub record IsAuthorized (l : RuntimeLoop) (e : HostEvent) : Type 0 where
    pub not_recovering : l.recovering ≡ false
    pub proposal : ExecutionProposal
    pub proposes : parts.p3 e ≡ ok proposal
    pub sound : IsSound proposal
    pub decision : PolicyDecision
    pub decides : parts.p4 proposal ≡ ok decision
    pub allows : decision.verdict ≡ allow
    pub after_record : EventQueue
    pub records : record_decision l.queue decision m.now ≡ ok (tt, after_record)
    pub capabilities_free : All (IsFree parts.enforcer) proposal.required_capabilities

  finished-called :
      (l : RuntimeLoop) (called : Bool) (t : ExecutionTrace) (o : Option RuntimeLoop)
      → (finished l called t o).called ≡ called
  unfolding finished
  finished-called l called t none = refl
  finished-called l called t (some l') = refl

  module _ (e : HostEvent) (p : ExecutionProposal) (pre : PreflightResult) where
    completed-called :
        (l : RuntimeLoop) (d : Option PolicyDecision) (r : Option ExecutionResult) (called : Bool)
        → (completed parts m l e p pre d r called).called ≡ called
    unfolding completed
    completed-called l d r called = finished-called l called _ _

    answered-called :
        (l : RuntimeLoop) (d : PolicyDecision) (r : ExecutionResult) (called : Bool)
        (a : Answer Unit)
        → (answered parts m l e p pre d r called a).called ≡ called
    unfolding answered
    answered-called l d r called (ok (_, q)) = completed-called _ (some d) (some r) called
    answered-called l d r called (err x) = refl

    refused-called :
        (l : RuntimeLoop) (d : PolicyDecision) → (refused parts m l e p pre d).called ≡ false
    unfolding refused
    refused-called l d = answered-called l d (refusal m e p (block_reason d)) false _

    allowed-IsFree :
        (l : RuntimeLoop) (d : PolicyDecision)
        → (allowed parts m l e p pre d).called ≡ true
        → All (IsFree parts.enforcer) p.required_capabilities
    unfolding allowed execute
    allowed-IsFree l d h =
        let run = execute parts.enforcer parts.max_time_ms m.cell l.pool p d in
        let same =
          answered-called (record l { pool = run.pool }) d run.result run.called
            (ack parts.codec l.queue e.event_id run.result m.now) in
        (execute_cell-IsFree parts.enforcer parts.max_time_ms m.cell p d).0.0 (sym same ∙ h)

    act-allows :
        (v : Verdict) (l : RuntimeLoop) (d : PolicyDecision)
        → (act parts m v l e p pre d).called ≡ true
        → (v ≡ allow) × All (IsFree parts.enforcer) p.required_capabilities
    unfolding act
    act-allows allow l d h = (refl, allowed-IsFree l d h)
    act-allows block l d h = ground (arith, h, refused-called l d)
    act-allows defer l d h = ground (arith, h, refused-called l d)
    act-allows review l d h = ground (arith, h, refused-called l d)

  -- An event's worker is called only while no recovery is in progress, behind a proposal of P3 that
  -- the preflight check finds sound, a decision of P4 on it with the verdict ALLOW that the queue
  -- recorded, and with all capabilities that the proposal requires known and unrestricted.
  pub process_event-IsAuthorized :
      (l : RuntimeLoop) (e : HostEvent)
      → (process_event parts m l e).called ≡ true
      → IsAuthorized l e
  unfolding process_event proposed checked decided recorded
  process_event-IsAuthorized l e h = elim (Bool-cases l.recovering) [
    | inl on ↦ ground (arith, h, on)
    | inr off ↦ elim (Result-cases (parts.p3 e)) [
      | inr (x, e3) ↦ ground (arith, h, off, e3)
      | inl (p, e3) ↦ elim (Bool-cases (analyze p).valid) [
        | inr bad ↦
            ground (arith, h, off, e3, bad, completed-called e p (analyze p) l none none false)
        | inl good ↦ elim (Result-cases (parts.p4 p)) [
          | inr (x, e4) ↦ ground (arith, h, off, e3, good, e4)
          | inl (d, e4) ↦ elim (Result-cases (record_decision l.queue d m.now)) [
            | inr (x, er) ↦ ground (arith, h, off, e3, good, e4, er)
            | inl ((_, q), er) ↦
                let acted =
                  act-allows e p (analyze p) d.verdict (record l { queue = q }) d
                    (ground (arith, h, off, e3, good, e4, er)) in
                record {
                  not_recovering = off;
                  proposal = p;
                  proposes = e3;
                  sound = (analyze-IsSound p).0 good;
                  decision = d;
                  decides = e4;
                  allows = acted.0;
                  after_record = q;
                  records = er;
                  capabilities_free = acted.1;
                }
          ]
        ]
      ]
    ]
  ]
