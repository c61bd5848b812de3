-- ===== src/Runtime/Loop/Stuck.antt =====
-- runtime/runtime_loop.py: an event without an answer of the queue, over one turn.
use stocky_cognitive_runtime.Prelude.{
  ◌≡◌, refl, ◌∙◌, String, true, false, not, Option, none, some, List, arith, if_cases, ap,
}
use stocky_cognitive_runtime.Prelude.Raise.{ok, err}
use stocky_cognitive_runtime.Data.Contract.{HostEvent, ExecutionProposal}
use stocky_cognitive_runtime.Data.Trace.{ExecutionTrace}
use stocky_cognitive_runtime.Queue.{EventQueue}
use stocky_cognitive_runtime.Queue.Events.{pop}
use stocky_cognitive_runtime.TraceWindow.History.{Keeps}
use stocky_cognitive_runtime.Sandbox.Preflight.{analyze, PreflightResult}
use stocky_cognitive_runtime.Runtime.Loop.{Parts, Moment, RuntimeLoop}
use stocky_cognitive_runtime.Runtime.Loop.Process.{
  Outcome, completed, decided, checked, proposed, process_event,
}
use stocky_cognitive_runtime.Runtime.Loop.Run.{tick, caught, count_cycle, after_event, popped, turn}
use stocky_cognitive_runtime.Runtime.Loop.Cycle.{completed-HasTraced}

module _ (parts : Parts) (m : Moment) where
  caught-queue : (l : RuntimeLoop) (raised : Option String) → (caught l raised).queue ≡ l.queue
  unfolding caught
  caught-queue l none = refl
  caught-queue l (some error) = refl

  pub after_event-queue : (o : Outcome) → (after_event parts m o).after.queue ≡ o.after.queue
  unfolding after_event count_cycle tick
  after_event-queue o = caught-queue o.after o.raised

  checked_invalid :
      (l : RuntimeLoop) (e : HostEvent) (p : ExecutionProposal) (pre : PreflightResult)
      → pre.valid ≡ false
      → checked parts m l e p pre ≡ completed parts m l e p pre none none false
  unfolding checked
  checked_invalid l e p pre bad =
      if_cases (λ o. o ≡ completed parts m l e p pre none none false) (not pre.valid) _ _
        (λ h. refl) (λ h. absurd (ground (arith, bad, h)))

  process_event_open :
      (l : RuntimeLoop) (e : HostEvent)
      → l.recovering ≡ false
      → process_event parts m l e ≡ proposed parts m l e (parts.p3 e)
  unfolding process_event
  process_event_open l e off =
      if_cases (λ o. o ≡ proposed parts m l e (parts.p3 e)) l.recovering _ _
        (λ h. absurd (ground (arith, off, h))) (λ h. refl)

  proposed_ok :
      (l : RuntimeLoop) (e : HostEvent) (p : ExecutionProposal)
      → proposed parts m l e (ok p) ≡ checked parts m l e p (analyze p)
  unfolding proposed
  proposed_ok l e p = refl

  stopped_lem :
      (l : RuntimeLoop) (e : HostEvent) (p : ExecutionProposal)
      → l.recovering ≡ false
      → parts.p3 e ≡ ok p
      → (analyze p).valid ≡ false
      → process_event parts m l e ≡ completed parts m l e p (analyze p) none none false
  stopped_lem l e p off e3 bad =
      process_event_open l e off
      ∙ ap (proposed parts m l e) e3
      ∙ proposed_ok l e p
      ∙ checked_invalid l e p (analyze p) bad

  -- What keeps an event from the queue's answer: P3 raises, the preflight check finds the proposal
  -- invalid, or P4 raises.
  pub data Stops (e : HostEvent) : Type 0 where
    p3_raises : (error : String) → parts.p3 e ≡ err error → Stops e
    is_invalid : (p : ExecutionProposal) → parts.p3 e ≡ ok p → (analyze p).valid ≡ false → Stops e
    p4_raises :
        (p : ExecutionProposal) (error : String)
        → parts.p3 e ≡ ok p
        → (analyze p).valid ≡ true
        → parts.p4 p ≡ err error
        → Stops e

  proposed_err-queue :
      (l : RuntimeLoop) (e : HostEvent) (error : String)
      → (proposed parts m l e (err error)).after.queue ≡ l.queue
  unfolding proposed
  proposed_err-queue l e error = refl

  decided_err-queue :
      (l : RuntimeLoop) (e : HostEvent) (p : ExecutionProposal) (pre : PreflightResult)
      (error : String)
      → pre.valid ≡ true
      → parts.p4 p ≡ err error
      → (checked parts m l e p pre).after.queue ≡ l.queue
  unfolding checked decided
  decided_err-queue l e p pre error good e4 =
      if_cases (λ (o : Outcome). o.after.queue ≡ l.queue) (not pre.valid) _ _
        (λ h. absurd (ground (arith, good, h)))
        (λ h. ap (λ r. (decided parts m l e p pre r).after.queue) e4)

  Stops-queue :
      (history : List ExecutionTrace) (l : RuntimeLoop) (e : HostEvent)
      → Keeps history l.traces
      → l.recovering ≡ false
      → Stops e
      → (process_event parts m l e).after.queue ≡ l.queue
  Stops-queue history l e h off (p3_raises error e3) =
      ap (λ (o : Outcome). o.after.queue)
        (process_event_open l e off ∙ ap (proposed parts m l e) e3)
      ∙ proposed_err-queue l e error
  Stops-queue history l e h off (is_invalid p e3 bad) =
      ap (λ (o : Outcome). o.after.queue) (stopped_lem l e p off e3 bad)
      ∙ (completed-HasTraced parts m history l e p (analyze p) none none false h).1
  Stops-queue history l e h off (p4_raises p error e3 good e4) =
      ap (λ (o : Outcome). o.after.queue)
        (process_event_open l e off ∙ ap (proposed parts m l e) e3 ∙ proposed_ok l e p)
      ∙ decided_err-queue l e p (analyze p) error good e4

  -- A turn that pops an event leaves the queue as the pop did, if P3 raises, if the preflight check
  -- finds the proposal invalid, or if P4 raises: nothing acknowledges the event, hands it back or
  -- buries it.
  pub turn_stuck :
      (history : List ExecutionTrace) (l : RuntimeLoop) (e : HostEvent) (q : EventQueue)
      → Keeps history l.traces
      → l.recovering ≡ false
      → pop parts.codec l.queue m.now ≡ ok (some e, q)
      → Stops e
      → (turn parts m l).after.queue ≡ q
  unfolding turn popped
  turn_stuck history l e q h off e0 stops =
      let l' : RuntimeLoop = record l { queue = q } in
      rw (e0, popped)
        (after_event-queue (process_event parts m l' e) ∙ Stops-queue history l' e h off stops)
