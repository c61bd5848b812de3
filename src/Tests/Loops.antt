-- ===== src/Tests/Loops.antt =====
-- Tests of the runtime's loop and of the coherence monitor.
use stocky_cognitive_runtime.Prelude.{
  ◌≡◌, refl, ◌≤◌, ◌<◌, ◌↔◌, ◌⊎◌, String, true, false, none, some, List, [], ◌∷◌, ◌++◌, length,
  arith,
}
use stocky_cognitive_runtime.Prelude.Raise.{ok, err}
use stocky_cognitive_runtime.Data.Float.{zero_float, one}
use stocky_cognitive_runtime.Data.Trace.{ExecutionTrace}
use stocky_cognitive_runtime.Queue.{EventQueue, new_queue, empty_db, open_queue, update, order_by}
use stocky_cognitive_runtime.Queue.Events.{push, pop, start}
use stocky_cognitive_runtime.Queue.DeadLetter.{record_decision}
use stocky_cognitive_runtime.Sandbox.Cell.{execute_cell}
use stocky_cognitive_runtime.Sandbox.Pool.Execute.{execute}
use stocky_cognitive_runtime.Runtime.Loop.Finalize.{finalize_cycle}
use stocky_cognitive_runtime.Queue.Calls.{opens, pushes, step, run}
use stocky_cognitive_runtime.Queue.Invariant.{IsWellFormed}
use stocky_cognitive_runtime.Queue.Preserved.{new-IsWellFormed, run-IsWellFormed}
use stocky_cognitive_runtime.Sandbox.Enforcer.{new_enforcer, check}
use stocky_cognitive_runtime.Sandbox.Rules.{
  check_known_capabilities, check_high_risk_combination, check_write_has_target,
}
use stocky_cognitive_runtime.Sandbox.Preflight.{analyze}
use stocky_cognitive_runtime.Sandbox.Pool.{new_pool}
use stocky_cognitive_runtime.TraceWindow.{new_window, append, make_room, admit}
use stocky_cognitive_runtime.TraceWindow.History.{Keeps, new-Keeps}
use stocky_cognitive_runtime.Causal.{make_graph}
use stocky_cognitive_runtime.Recovery.Delta.{new_manager}
use stocky_cognitive_runtime.Runtime.Health.{new_state}
use stocky_cognitive_runtime.Runtime.Coherence.{CoherenceReport, new_monitor, check_trace}
use stocky_cognitive_runtime.Runtime.Coherence.Drift.{
  IsOverruled, IsFailed, IsExtreme, check_trace-counts,
}
use stocky_cognitive_runtime.Runtime.Loop.{Parts, Moment, RuntimeLoop, build_trace}
use stocky_cognitive_runtime.Runtime.Loop.Process.{
  process_event, proposed, checked, decided, recorded, act, allowed, answered, completed, finished,
}
use stocky_cognitive_runtime.Runtime.Loop.Run.{turn, turns}
use stocky_cognitive_runtime.Runtime.Loop.Gate.{IsAuthorized, process_event-IsAuthorized}
use stocky_cognitive_runtime.Runtime.Loop.Turns.{turns-Keeps}
use stocky_cognitive_runtime.Runtime.Loop.Statuses.{IsPlain, process_event-IsPlain}
use stocky_cognitive_runtime.Runtime.Loop.Stuck.{is_invalid, turn_stuck}
use stocky_cognitive_runtime.Tests.Samples.{
  null_codec, event, proposal, allowing, trace, limits, world,
}

-- The parts of a loop whose P3 asks for the given capabilities and whose P4 allows.
abbrev parts : List String → Parts
parts caps = record {
  codec = null_codec;
  digest = λ s. s;
  show = λ f. "0.0";
  blend = λ a b. b;
  round = λ a. a;
  error_text = λ e. "queue";
  p3 = λ e. ok (proposal caps);
  p4 = λ p. ok allowing;
  enforcer = new_enforcer;
  max_time_ms = 30000;
  schema_version = "1.0.0";
  schema_fingerprint = "f";
}

abbrev moment : Moment
moment = record {
  now = 5;
  start_time = 6;
  built = 7;
  uuid = "u";
  cell = world;
  stability = zero_float;
  governance_scores = [];
  confidence_scores = [];
  confidence_gradient = none;
  stability_scores = [];
  snapshot_id = "cp";
  writes = true;
  duration = zero_float;
}

abbrev reading : List String
reading = "filesystem.read" ∷ []

-- P3 raises in the first turn.
abbrev two_turns : List (Parts × Moment)
two_turns =
    (record (parts reading) { p3 = λ e. err "broken" }, moment) ∷ (parts reading, moment) ∷ []

queue : EventQueue
unfolding run
queue = run null_codec (λ j. none) (new_queue empty_db 3) (opens ∷ pushes (event "e") 1 ∷ [])

queue-IsWellFormed : IsWellFormed queue
unfolding queue
queue-IsWellFormed =
    run-IsWellFormed null_codec (λ j. none) (new_queue empty_db 3)
      (opens ∷ pushes (event "e") 1 ∷ []) (new-IsWellFormed 3 (omega arith))

abbrev idle_loop : EventQueue → RuntimeLoop
idle_loop q = record {
  orchestrator = record { state = new_state; active = true };
  queue = q;
  pool = new_pool limits;
  traces = new_window 10 10;
  graph = make_graph [] [];
  coherence = new_monitor 1000;
  stability_score = none;
  checkpoints = new_manager "checkpoints" 500 3;
  last_checkpoint_cycle = 0;
  recovering = false;
}

-- P4 allows an extreme risk, and the execution fails.
abbrev reckless : ExecutionTrace
reckless = record (trace "t") {
  preflight_valid = true;
  p4_verdict = "ALLOW";
  execution_status = "FAILED";
  risk_score = one;
}

abbrev drift : CoherenceReport
drift = (check_trace (λ f. "") (new_monitor 10) reckless).report

check_trace-counts_example :
    ((drift.drift_detected ≡ true)
      ↔ (IsOverruled reckless ⊎ (IsFailed reckless ⊎ IsExtreme reckless)))
    × ((drift.drift_count ≡ 2) ↔ (IsFailed reckless × IsExtreme reckless))
    × (drift.drift_count ≤ 2)
    × ((drift.drift_detected ≡ true) ↔ (0 < drift.drift_count))
    × (length drift.inconsistencies ≡ drift.drift_count)
check_trace-counts_example = check_trace-counts (λ f. "") (new_monitor 10) reckless

turns-Keeps_example :
    Keeps ([] ++ (turns (idle_loop queue) two_turns).1) (turns (idle_loop queue) two_turns).0.traces
turns-Keeps_example =
    turns-Keeps [] (idle_loop queue) two_turns (new-Keeps 10 10 (omega arith) (omega arith))

calls_worker : (process_event (parts reading) moment (idle_loop queue) (event "e")).called ≡ true
unfolding process_event proposed checked decided recorded act allowed answered completed finished
    finalize_cycle append make_room admit execute execute_cell queue record_decision analyze run
    step push open_queue one check_known_capabilities check_high_risk_combination
    check_write_has_target check
calls_worker = refl

process_event-IsAuthorized_example :
    IsAuthorized (parts reading) moment (idle_loop queue) (event "e")
process_event-IsAuthorized_example =
    process_event-IsAuthorized (parts reading) moment (idle_loop queue) (event "e") calls_worker

-- A proposal without capabilities is stopped by the preflight check.
stopped_trace : ExecutionTrace
unfolding build_trace analyze
stopped_trace = build_trace moment (event "e") (proposal []) (analyze (proposal [])) none none

traces_stopped :
    (process_event (parts []) moment (idle_loop queue) (event "e")).trace ≡ some stopped_trace
unfolding stopped_trace process_event proposed checked completed finished finalize_cycle append
    make_room admit analyze one
traces_stopped = refl

process_event-IsPlain_example : IsPlain stopped_trace
process_event-IsPlain_example =
    process_event-IsPlain (parts []) moment (event "e") (idle_loop queue) stopped_trace
      traces_stopped

popped_queue : EventQueue
unfolding queue update run step push open_queue
popped_queue = record queue {
  db = record queue.db { events = update "e" (start 5) queue.db.events };
}

pops_event : pop null_codec queue 5 ≡ ok (some (event "e"), popped_queue)
unfolding popped_queue queue pop order_by run step push open_queue
pops_event = refl

is_unsound : (analyze (proposal [])).valid ≡ false
unfolding analyze one
is_unsound = refl

turn_stuck_example : (turn (parts []) moment (idle_loop queue)).after.queue ≡ popped_queue
turn_stuck_example =
    turn_stuck (parts []) moment [] (idle_loop queue) (event "e") popped_queue
      (new-Keeps 10 10 (omega arith) (omega arith)) refl pops_event
      (is_invalid (proposal []) refl is_unsound)
