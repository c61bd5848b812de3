-- ===== src/Runtime/Loop/Statuses.antt =====
-- runtime/runtime_loop.py, `_build_trace`: the final status of the loop's traces, and what the builder
-- of contracts/causal_graph.py makes of it.
use stocky_cognitive_runtime.Prelude.{
  ◌≡◌, refl, String, Bool, false, not, Option, none, some, arith, if_cases,
}
use mathlib.Core.Path.{subst}
use stocky_cognitive_runtime.Prelude.Raise.{Result, ok, err}
use stocky_cognitive_runtime.Data.Contract.{
  HostEvent, ExecutionProposal, Verdict, allow, block, defer, review, PolicyDecision,
  ExecutionResult, ResultStatus, success, failed, skipped, queued,
}
use stocky_cognitive_runtime.Data.Trace.{ExecutionTrace}
use stocky_cognitive_runtime.Queue.{Answer}
use stocky_cognitive_runtime.Queue.Events.{ack}
use stocky_cognitive_runtime.Queue.DeadLetter.{nack, record_decision}
use stocky_cognitive_runtime.Causal.Build.{is_blocked}
use stocky_cognitive_runtime.Sandbox.Preflight.{PreflightResult, analyze}
use stocky_cognitive_runtime.Sandbox.Pool.Execute.{execute}
use stocky_cognitive_runtime.Runtime.Loop.{Parts, Moment, RuntimeLoop, build_trace, refusal}
use stocky_cognitive_runtime.Runtime.Loop.Finalize.{finalize_cycle}
use stocky_cognitive_runtime.Runtime.Loop.Process.{
  Outcome, finished, completed, answered, allowed, refused, act, recorded, decided, checked,
  proposed, process_event, block_reason,
}

-- The traces that the loop builds: of an event that the preflight check stops, of one whose execution
-- failed or was refused by P4, and of one that P4 allowed and that did not fail.
pub data HasStatus (t : ExecutionTrace) : Type 0 where
  stopped_early :
      t.preflight_valid ≡ false → t.final_status ≡ "P4_BLOCKED_BY_PREFLIGHT" → HasStatus t
  failed_late : t.execution_status ≡ "FAILED" → t.final_status ≡ "SANDBOX_FAILED" → HasStatus t
  went_through : t.p4_verdict ≡ "ALLOW" → t.final_status ≡ "P4_ALLOW" → HasStatus t

-- A trace of one of these, which moreover takes the builder's other branch.
pub record IsPlain (t : ExecutionTrace) : Type 0 where
  pub status : HasStatus t
  pub not_blocked : is_blocked t ≡ false

-- The trace, if there is one, is of these.
abbrev Plain : Option ExecutionTrace → Type 0
Plain none = Unit
Plain (some t) = IsPlain t

finished-Plain :
    (l : RuntimeLoop) (called : Bool) (t : ExecutionTrace) (o : Option RuntimeLoop)
    → IsPlain t
    → Plain (finished l called t o).trace
unfolding finished
finished-Plain l called t none h = tt
finished-Plain l called t (some l') h = h

module _ (parts : Parts) (m : Moment) (e : HostEvent) where
  preflight-IsPlain :
      (p : ExecutionProposal) (pre : PreflightResult)
      → pre.valid ≡ false
      → IsPlain (build_trace m e p pre none none)
  unfolding build_trace
  preflight-IsPlain p pre bad = record { status = stopped_early bad refl; not_blocked = refl }

  refusal-IsPlain :
      (v : Verdict) (p : ExecutionProposal) (pre : PreflightResult) (d : PolicyDecision)
      (r : ExecutionResult)
      → d.verdict ≡ v
      → r.status ≡ failed
      → IsPlain (build_trace m e p pre (some d) (some r))
  unfolding build_trace
  refusal-IsPlain allow p pre d r v f =
      rw (v, f) record { status = failed_late refl refl; not_blocked = refl }
  refusal-IsPlain block p pre d r v f =
      rw (v, f) record { status = failed_late refl refl; not_blocked = refl }
  refusal-IsPlain defer p pre d r v f =
      rw (v, f) record { status = failed_late refl refl; not_blocked = refl }
  refusal-IsPlain review p pre d r v f =
      rw (v, f) record { status = failed_late refl refl; not_blocked = refl }

  allowed-IsPlain :
      (s : ResultStatus) (p : ExecutionProposal) (pre : PreflightResult) (d : PolicyDecision)
      (r : ExecutionResult)
      → r.status ≡ s
      → d.verdict ≡ allow
      → IsPlain (build_trace m e p pre (some d) (some r))
  unfolding build_trace
  allowed-IsPlain failed p pre d r h v = refusal-IsPlain allow p pre d r v h
  allowed-IsPlain success p pre d r h v =
      rw (h, v) record { status = went_through refl refl; not_blocked = refl }
  allowed-IsPlain skipped p pre d r h v =
      rw (h, v) record { status = went_through refl refl; not_blocked = refl }
  allowed-IsPlain queued p pre d r h v =
      rw (h, v) record { status = went_through refl refl; not_blocked = refl }

  completed-Plain :
      (l : RuntimeLoop) (p : ExecutionProposal) (pre : PreflightResult) (d : Option PolicyDecision)
      (r : Option ExecutionResult) (called : Bool)
      → IsPlain (build_trace m e p pre d r)
      → Plain (completed parts m l e p pre d r called).trace
  unfolding completed
  completed-Plain l p pre d r called h =
      let t = build_trace m e p pre d r in finished-Plain l called t (finalize_cycle parts m l t) h

  module _ (p : ExecutionProposal) (pre : PreflightResult) where
    answered-Plain :
        (l : RuntimeLoop) (d : PolicyDecision) (r : ExecutionResult) (called : Bool)
        (a : Answer Unit)
        → IsPlain (build_trace m e p pre (some d) (some r))
        → Plain (answered parts m l e p pre d r called a).trace
    unfolding answered
    answered-Plain l d r called (ok (_, q)) h =
        completed-Plain (record l { queue = q }) p pre (some d) (some r) called h
    answered-Plain l d r called (err x) h = tt

    refused-Plain :
        (l : RuntimeLoop) (d : PolicyDecision) → Plain (refused parts m l e p pre d).trace
    unfolding refused
    refused-Plain l d =
        let r = refusal m e p (block_reason d) in
        answered-Plain l d r false (nack l.queue e.event_id (block_reason d) m.now)
          (refusal-IsPlain d.verdict p pre d r refl refl)

    act-Plain :
        (v : Verdict) (l : RuntimeLoop) (d : PolicyDecision)
        → d.verdict ≡ v
        → Plain (act parts m v l e p pre d).trace
    unfolding act allowed
    act-Plain allow l d h =
        let run = execute parts.enforcer parts.max_time_ms m.cell l.pool p d in
        answered-Plain (record l { pool = run.pool }) d run.result run.called
          (ack parts.codec l.queue e.event_id run.result m.now)
          (allowed-IsPlain run.result.status p pre d run.result refl h)
    act-Plain block l d h = refused-Plain l d
    act-Plain defer l d h = refused-Plain l d
    act-Plain review l d h = refused-Plain l d

    recorded-Plain :
        (l : RuntimeLoop) (d : PolicyDecision) (a : Answer Unit)
        → Plain (recorded parts m l e p pre d a).trace
    unfolding recorded
    recorded-Plain l d (ok (_, q)) = act-Plain d.verdict (record l { queue = q }) d refl
    recorded-Plain l d (err x) = tt

    decided-Plain :
        (l : RuntimeLoop) (r : Result String PolicyDecision)
        → Plain (decided parts m l e p pre r).trace
    unfolding decided
    decided-Plain l (ok d) = recorded-Plain l d (record_decision l.queue d m.now)
    decided-Plain l (err x) = tt

    checked-Plain : (l : RuntimeLoop) → Plain (checked parts m l e p pre).trace
    unfolding checked
    checked-Plain l =
        if_cases (λ (o : Outcome). Plain o.trace) (not pre.valid) _ _
          (λ bad.
            completed-Plain l p pre none none false (preflight-IsPlain p pre (ground (arith, bad))))
          (λ good. decided-Plain l (parts.p4 p))

  proposed-Plain :
      (l : RuntimeLoop) (r : Result String ExecutionProposal) → Plain (proposed parts m l e r).trace
  unfolding proposed
  proposed-Plain l (ok p) = checked-Plain p (analyze p) l
  proposed-Plain l (err x) = tt

  process_event-Plain : (l : RuntimeLoop) → Plain (process_event parts m l e).trace
  unfolding process_event
  process_event-Plain l =
      if_cases (λ (o : Outcome). Plain o.trace) l.recovering _ _ (λ on. tt)
        (λ off. proposed-Plain l (parts.p3 e))

  -- The trace that an event leaves has one of three final statuses: "P4_BLOCKED_BY_PREFLIGHT" with a
  -- preflight check that is not valid, "SANDBOX_FAILED" with the execution status "FAILED", or
  -- "P4_ALLOW" with the verdict "ALLOW". The causal graph's builder takes none of them for a blocked
  -- event.
  pub process_event-IsPlain :
      (l : RuntimeLoop) (t : ExecutionTrace)
      → (process_event parts m l e).trace ≡ some t
      → IsPlain t
  process_event-IsPlain l t h = subst Plain h (process_event-Plain l)
