-- ===== src/Runtime/Loop/Cycle.antt =====
-- runtime/runtime_loop.py: the traces over the loop's turns.
use stocky_cognitive_runtime.Prelude.{
  ◌≡◌, refl, String, Bool, false, not, Option, none, some, List, [], ◌∷◌, ◌++◌, ◌⊎◌, inl, inr,
  if_cases,
}
use stocky_cognitive_runtime.Prelude.Raise.{Result, ok, err}
use stocky_cognitive_runtime.Data.Contract.{
  HostEvent, ExecutionProposal, Verdict, allow, block, defer, review, PolicyDecision,
  ExecutionResult,
}
use stocky_cognitive_runtime.Data.Trace.{ExecutionTrace}
use stocky_cognitive_runtime.Queue.{Answer}
use stocky_cognitive_runtime.Queue.Events.{ack}
use stocky_cognitive_runtime.Queue.DeadLetter.{nack, record_decision}
use stocky_cognitive_runtime.Sandbox.Pool.Execute.{execute}
use stocky_cognitive_runtime.Sandbox.Preflight.{PreflightResult, analyze}
use stocky_cognitive_runtime.TraceWindow.{TraceWindow, append}
use stocky_cognitive_runtime.TraceWindow.History.{Keeps, append-Keeps}
use stocky_cognitive_runtime.Runtime.Loop.{Parts, Moment, RuntimeLoop, build_trace, refusal}
use stocky_cognitive_runtime.Runtime.Loop.Finalize.{settle, finalize_cycle}
use stocky_cognitive_runtime.Runtime.Loop.Settle.{settle-Unmoved}
use stocky_cognitive_runtime.Runtime.Loop.Process.{
  Outcome, finished, completed, answered, allowed, refused, act, recorded, decided, checked,
  proposed, process_event, block_reason, abandoned, replay_protection,
}

-- What an event does to the kept history: its trace is put behind it, or an exception leaves it.
pub record HasTraced (history : List ExecutionTrace) (e : HostEvent) (o : Outcome) : Type 0 where
  pub traced : ExecutionTrace
  pub is_trace : o.trace ≡ some traced
  pub returns : o.raised ≡ none
  pub same_event : traced.event_id ≡ e.event_id
  pub keeps : Keeps (history ++ traced ∷ []) o.after.traces

pub record HasRaised (history : List ExecutionTrace) (o : Outcome) : Type 0 where
  pub error : String
  pub raises : o.raised ≡ some error
  pub no_trace : o.trace ≡ none
  pub keeps : Keeps history o.after.traces

abbrev pub Extends : List ExecutionTrace → HostEvent → Outcome → Type 0
Extends history e o = HasTraced history e o ⊎ HasRaised history o

module _ (parts : Parts) (m : Moment) where
  pub finalize_cycle_lem :
      (l : RuntimeLoop) (t : ExecutionTrace) (w : TraceWindow)
      → append parts.digest parts.show l.traces t ≡ some w
      → finalize_cycle parts m l t ≡ some (settle parts m t (record l { traces = w }))
  unfolding finalize_cycle
  finalize_cycle_lem l t w e = rw (e, finalize_cycle) refl

  -- A cycle ends with the trace behind the history, and leaves the queue.
  pub completed-HasTraced :
      (history : List ExecutionTrace) (l : RuntimeLoop) (e : HostEvent) (p : ExecutionProposal)
      (pre : PreflightResult) (d : Option PolicyDecision) (r : Option ExecutionResult)
      (called : Bool)
      → Keeps history l.traces
      → HasTraced history e (completed parts m l e p pre d r called)
        × ((completed parts m l e p pre d r called).after.queue ≡ l.queue)
  unfolding completed finished build_trace
  completed-HasTraced history l e p pre d r called h =
      let t = build_trace m e p pre d r in
      let (w, done, k) = append-Keeps parts.digest parts.show l.traces history t h in
      let same = settle-Unmoved parts m t (record l { traces = w }) in
      rw (finalize_cycle_lem l t w done, completed)
        (
          record {
            traced = t;
            is_trace = refl;
            returns = refl;
            same_event = refl;
            keeps = rw same.0 k;
          },
          same.1,
        )

  abandoned-HasRaised :
      (history : List ExecutionTrace) (l : RuntimeLoop) (called : Bool) (error : String)
      → Keeps history l.traces
      → HasRaised history (abandoned l called error)
  abandoned-HasRaised history l called error h = record {
    error = error;
    raises = refl;
    no_trace = refl;
    keeps = h;
  }

  module _ (history : List ExecutionTrace) (e : HostEvent) (p : ExecutionProposal)
      (pre : PreflightResult) where
    answered-Extends :
        (l : RuntimeLoop) (d : PolicyDecision) (r : ExecutionResult) (called : Bool)
        (a : Answer Unit)
        → Keeps history l.traces
        → Extends history e (answered parts m l e p pre d r called a)
    unfolding answered
    answered-Extends l d r called (ok (_, q)) h =
        inl
          (completed-HasTraced history (record l { queue = q }) e p pre (some d) (some r) called
            h).0
    answered-Extends l d r called (err x) h =
        inr (abandoned-HasRaised history l called (parts.error_text x) h)

    refused-Extends :
        (l : RuntimeLoop) (d : PolicyDecision)
        → Keeps history l.traces
        → Extends history e (refused parts m l e p pre d)
    unfolding refused
    refused-Extends l d h =
        answered-Extends l d (refusal m e p (block_reason d)) false
          (nack l.queue e.event_id (block_reason d) m.now) h

    act-Extends :
        (v : Verdict) (l : RuntimeLoop) (d : PolicyDecision)
        → Keeps history l.traces
        → Extends history e (act parts m v l e p pre d)
    unfolding act allowed
    act-Extends allow l d h =
        let run = execute parts.enforcer parts.max_time_ms m.cell l.pool p d in
        answered-Extends (record l { pool = run.pool }) d run.result run.called
          (ack parts.codec l.queue e.event_id run.result m.now) h
    act-Extends block l d h = refused-Extends l d h
    act-Extends defer l d h = refused-Extends l d h
    act-Extends review l d h = refused-Extends l d h

    recorded-Extends :
        (l : RuntimeLoop) (d : PolicyDecision) (a : Answer Unit)
        → Keeps history l.traces
        → Extends history e (recorded parts m l e p pre d a)
    unfolding recorded
    recorded-Extends l d (ok (_, q)) h = act-Extends d.verdict (record l { queue = q }) d h
    recorded-Extends l d (err x) h =
        inr (abandoned-HasRaised history l false (parts.error_text x) h)

    decided-Extends :
        (l : RuntimeLoop) (r : Result String PolicyDecision)
        → Keeps history l.traces
        → Extends history e (decided parts m l e p pre r)
    unfolding decided
    decided-Extends l (ok d) h = recorded-Extends l d (record_decision l.queue d m.now) h
    decided-Extends l (err x) h = inr (abandoned-HasRaised history l false x h)

    checked-Extends :
        (l : RuntimeLoop) → Keeps history l.traces → Extends history e (checked parts m l e p pre)
    unfolding checked
    checked-Extends l h =
        if_cases (Extends history e) (not pre.valid) _ _
          (λ bad. inl (completed-HasTraced history l e p pre none none false h).0)
          (λ good. decided-Extends l (parts.p4 p) h)

  proposed-Extends :
      (history : List ExecutionTrace) (l : RuntimeLoop) (e : HostEvent)
      (r : Result String ExecutionProposal)
      → Keeps history l.traces
      → Extends history e (proposed parts m l e r)
  unfolding proposed
  proposed-Extends history l e (ok p) h = checked-Extends history e p (analyze p) l h
  proposed-Extends history l e (err x) h = inr (abandoned-HasRaised history l false x h)

  -- An event that is processed in a loop whose window keeps a history either returns, with one trace,
  -- of this event, which is then kept behind the history, or raises, and then the history is kept.
  pub process_event-Extends :
      (history : List ExecutionTrace) (l : RuntimeLoop) (e : HostEvent)
      → Keeps history l.traces
      → Extends history e (process_event parts m l e)
  unfolding process_event
  process_event-Extends history l e h =
      if_cases (Extends history e) l.recovering _ _
        (λ on. inr (abandoned-HasRaised history l false replay_protection h))
        (λ off. proposed-Extends history l e (parts.p3 e) h)
