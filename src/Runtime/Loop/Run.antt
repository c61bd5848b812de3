-- ===== src/Runtime/Loop/Run.antt =====
-- runtime/runtime_loop.py, `run`: one turn of the loop.
use stocky_cognitive_runtime.Prelude.{
  String, Bool, true, false, not, Option, none, some, List, [], ◌∷◌, ◌++◌, if◌then◌else◌,
}
use stocky_cognitive_runtime.Prelude.Raise.{ok, err}
use stocky_cognitive_runtime.Data.Contract.{HostEvent}
use stocky_cognitive_runtime.Data.Trace.{ExecutionTrace}
use stocky_cognitive_runtime.Queue.{Answer, queue_depth, open_queue, close_queue}
use stocky_cognitive_runtime.Queue.Events.{pop}
use stocky_cognitive_runtime.Runtime.Health.{record_cycle, record_error}
use stocky_cognitive_runtime.Runtime.Orchestrator.{start, tick_heartbeat}
use stocky_cognitive_runtime.Runtime.Loop.{Parts, Moment, RuntimeLoop}
use stocky_cognitive_runtime.Runtime.Loop.Finalize.{with_state, every}
use stocky_cognitive_runtime.Runtime.Loop.Process.{Outcome, abandoned, process_event}

-- The heartbeat reads the clock twice, at one time.
unfoldable pub tick : Moment → RuntimeLoop → RuntimeLoop
unfolding tick_heartbeat
tick m l = record l { orchestrator = (tick_heartbeat l.orchestrator m.now m.now).0 }

-- A turn without an event.
unfoldable pub idle : Moment → RuntimeLoop → RuntimeLoop
unfolding tick
idle m l = if every 10 l.orchestrator.state.total_events_processed then tick m l else l

-- The `except` of the loop.
unfoldable pub caught : RuntimeLoop → Option String → RuntimeLoop
unfolding record_error
caught l none = l
caught l (some error) = with_state l (record_error l.orchestrator.state error)

abbrev pub succeeded : Option String → Bool
succeeded none = true
succeeded (some error) = false

module _ (parts : Parts) (m : Moment) where
  -- Behind the `try`.
  unfoldable pub count_cycle : RuntimeLoop → Bool → RuntimeLoop
  unfolding record_cycle tick queue_depth
  count_cycle l success = tick m (
      with_state l
        (record_cycle parts.blend l.orchestrator.state m.duration success (queue_depth l.queue)))

  unfoldable pub after_event : Outcome → Outcome
  unfolding caught count_cycle
  after_event o = record o {
    after = count_cycle (caught o.after o.raised) (succeeded o.raised);
    raised = none;
  }

  -- `pop` stands outside of the `try`: what it raises ends the loop.
  unfoldable pub popped : RuntimeLoop → Answer (Option HostEvent) → Outcome
  unfolding idle after_event process_event
  popped l (err error) = abandoned l false (parts.error_text error)
  popped l (ok (none, q)) = record {
    after = idle m (record l { queue = q });
    called = false;
    trace = none;
    raised = none;
  }
  popped l (ok (some e, q)) = after_event (process_event parts m (record l { queue = q }) e)

  -- One turn of the `while` of `run`.
  unfoldable pub turn : RuntimeLoop → Outcome
  unfolding popped pop
  turn l = popped l (pop parts.codec l.queue m.now)

-- The start of `run` behind the recovery, and its end.
unfoldable pub enter : Moment → RuntimeLoop → RuntimeLoop
unfolding start open_queue
enter m l = record l { orchestrator = (start l.orchestrator m.now).0; queue = open_queue l.queue }

unfoldable pub leave : RuntimeLoop → RuntimeLoop
unfolding close_queue
leave l = record l { queue = close_queue l.queue }

abbrev pub traced : Option ExecutionTrace → List ExecutionTrace
traced none = []
traced (some t) = t ∷ []

-- The `while` of `run` over its turns, each with what the loop's parts answer in it and its readings
-- of the clock, and the traces that they built. A part may answer otherwise in each turn, so a retried
-- event may get a new decision. The loop ends when the orchestrator is not running.
unfoldable pub turns : RuntimeLoop → List (Parts × Moment) → RuntimeLoop × List ExecutionTrace
unfolding turn
turns l [] = (l, [])
turns l ((parts, m) ∷ ms) =
    let o = turn parts m l in
    let rest = turns o.after ms in
    if not l.orchestrator.active then (l, []) else (rest.0, traced o.trace ++ rest.1)
