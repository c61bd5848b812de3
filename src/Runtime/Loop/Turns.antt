-- ===== src/Runtime/Loop/Turns.antt =====
-- runtime/runtime_loop.py, `run`: the traces over the turns of the loop.
use stocky_cognitive_runtime.Prelude.{
  not, ◌≡◌, refl, String, Option, none, some, List, [], ◌∷◌, ◌++◌, inl, inr, append_assoc,
  append-nil, if_cases,
}
use stocky_cognitive_runtime.Prelude.Raise.{ok, err}
use stocky_cognitive_runtime.Data.Contract.{HostEvent}
use stocky_cognitive_runtime.Data.Trace.{ExecutionTrace}
use stocky_cognitive_runtime.Queue.{Answer}
use stocky_cognitive_runtime.Queue.Events.{pop}
use stocky_cognitive_runtime.TraceWindow.History.{Keeps}
use stocky_cognitive_runtime.Runtime.Loop.{Parts, Moment, RuntimeLoop}
use stocky_cognitive_runtime.Runtime.Loop.Finalize.{every}
use stocky_cognitive_runtime.Runtime.Loop.Process.{Outcome, process_event}
use stocky_cognitive_runtime.Runtime.Loop.Run.{
  tick, idle, caught, count_cycle, after_event, popped, turn, traced, turns,
}
use stocky_cognitive_runtime.Runtime.Loop.Cycle.{Extends, process_event-Extends}

module _ (parts : Parts) where
  module _ (m : Moment) where
    idle-traces : (l : RuntimeLoop) → (idle m l).traces ≡ l.traces
    unfolding idle tick
    idle-traces l =
        if_cases (λ (r : RuntimeLoop). r.traces ≡ l.traces)
          (every 10 l.orchestrator.state.total_events_processed) _ _ (λ h. refl) (λ h. refl)

    caught-traces : (l : RuntimeLoop) (raised : Option String) → (caught l raised).traces ≡ l.traces
    unfolding caught
    caught-traces l none = refl
    caught-traces l (some error) = refl

    after_event-traces : (o : Outcome) → (after_event parts m o).after.traces ≡ o.after.traces
    unfolding after_event count_cycle tick
    after_event-traces o = caught-traces o.after o.raised

    Extends-traced :
        (history : List ExecutionTrace) (e : HostEvent) (o : Outcome)
        → Extends history e o
        → Keeps (history ++ traced o.trace) (after_event parts m o).after.traces
    unfolding after_event
    Extends-traced history e o (inl h) = rw (h.is_trace, after_event-traces o) h.keeps
    Extends-traced history e o (inr h) = rw (h.no_trace, after_event-traces o, append-nil) h.keeps

    popped-Keeps :
        (history : List ExecutionTrace) (l : RuntimeLoop) (a : Answer (Option HostEvent))
        → Keeps history l.traces
        → Keeps (history ++ traced (popped parts m l a).trace) (popped parts m l a).after.traces
    unfolding popped
    popped-Keeps history l (err x) h = rw append-nil h
    popped-Keeps history l (ok (none, q)) h =
        rw (append-nil, idle-traces (record l { queue = q })) h
    popped-Keeps history l (ok (some e, q)) h =
        Extends-traced history e (process_event parts m (record l { queue = q }) e)
          (process_event-Extends parts m history (record l { queue = q }) e h)

    turn-Keeps :
        (history : List ExecutionTrace) (l : RuntimeLoop)
        → Keeps history l.traces
        → Keeps (history ++ traced (turn parts m l).trace) (turn parts m l).after.traces
    unfolding turn
    turn-Keeps history l h = popped-Keeps history l (pop parts.codec l.queue m.now) h

-- However many turns the loop takes, whatever its parts return or raise in each of them, a window that
-- kept a history keeps behind it exactly the traces that the turns built, in their order.
pub turns-Keeps :
    (history : List ExecutionTrace) (l : RuntimeLoop) (ms : List (Parts × Moment))
    → Keeps history l.traces
    → Keeps (history ++ (turns l ms).1) (turns l ms).0.traces
unfolding turns
turns-Keeps history l [] h = rw append-nil h
turns-Keeps history l ((parts, m) ∷ ms) h =
    let o = turn parts m l in
    let ih = turns-Keeps (history ++ traced o.trace) o.after ms (turn-Keeps parts m history l h) in
    if_cases (λ (r : RuntimeLoop × List ExecutionTrace). Keeps (history ++ r.1) r.0.traces)
      (not l.orchestrator.active) _ _ (λ off. rw append-nil h) (λ on. rw append_assoc at ih)
