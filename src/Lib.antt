-- ===== src/Lib.antt =====
-- A verification library of stocky-cognitive-runtime, for the core of cognitive_runtime/: how an event
-- is queued, proposed, decided, executed in the sandbox and traced, and the state machines around it.
--
-- The parts and the files that model them:
-- State models cognitive_runtime/state/: runtime_state_machine.py and state_context.py (`transition` and
--   the hooks), State/Guards transition_rules.py, State/System core/lifecycle_manager.py.
-- Data models cognitive_runtime/contracts/: execution_contract.py (Data/Contract), execution_trace.py
--   (Data/Trace, Data/Normalize, Data/Store); Data/Json and Data/Float are the values they hold.
-- Queue models cognitive_runtime/substrate/event_queue.py: Queue/Rows the tables, Queue/Events `push`,
--   `pop` and `ack`, Queue/DeadLetter `nack`, the dead letters, the decisions and the queries.
-- Substrate models cognitive_runtime/substrate/substrate_loop.py: one turn of the loop over the queue.
-- Kernel models cognitive_runtime/kernel/time_kernel.py, the clock that stamps the events of a session.
-- TraceWindow models cognitive_runtime/runtime/trace_window.py, TraceWindow/Access its reads.
-- Runtime models cognitive_runtime/runtime/: runtime_state.py (Runtime/Health), runtime_orchestrator.py
--   (Runtime/Orchestrator) and daemon/ (Runtime/Lifecycle, Runtime/Crash, Runtime/Daemon).
--   Runtime/Loop models runtime_loop.py: Runtime/Loop/Process `_process_event`, Runtime/Loop/Finalize
--   `_finalize_cycle`, Runtime/Loop/Run the turn of `run`; Runtime/Coherence coherence_monitor.py.
-- Causal models cognitive_runtime/contracts/causal_graph.py, Causal/Build the builder.
-- Recovery models cognitive_runtime/recovery/: runtime_snapshot.py (Recovery/Snapshot, its dictionary
--   and its text in Recovery/Snapshot/Text),
--   delta_checkpoint.py (Recovery/Delta, its loading in Recovery/Delta/Load), crash_detector.py
--   (Recovery/Crash), persistence_guard.py (Recovery/Guard), replay_validator.py (Recovery/Replay)
--   and recovery_coordinator.py (Recovery/Coordinator and Recovery/Resume), which takes any
--   checkpoint manager; Recovery/Coordinator/Startup hands it the delta manager, as the runtime's
--   loop does.
-- Schema models evolution_node.py and evolution_graph.py of cognitive_runtime/schema_evolution/.
-- Sandbox models cognitive_runtime/sandbox/: capability_enforcer.py, preflight_rules.py,
--   preflight_analyzer.py, execution_cell.py, and in Sandbox/Pool resource_monitor.py and
--   sandbox_pool.py.
--
-- An event enters the queue by `push`. The loop pops it, P3 makes a proposal of it, P4 decides, and
-- the worker runs only on ALLOW; the queue gets the outcome by `ack` or `nack`. In the runtime proper
-- the proposal passes the preflight check and runs in a cell of the sandbox's pool, and the trace of
-- the event goes to the trace window, from which the causal graph and the checkpoints are made. The
-- other modules stand beside this path: the daemon hosts the loop, the state machine and the manager
-- keep the system's own state.
--
-- State is a record that each operation takes and returns; an operation that raises returns a result
-- with the exception. A clock reading is an argument, a natural number of microseconds; differences of
-- two are integers. A table of SQLite is the list of its rows in the order of insertion. An `await`
-- between two changes of shared state splits an operation into steps (Sandbox/Pool). Calls from outside
-- come as lists of calls. A loop's turns are a list with what the stages answer in each turn, so that a
-- stage may answer otherwise on a retry. The loops go over lists, but for two kinds of `while`, which have fuel: the
-- `traverse` of the causal graph, which has paths of five nodes at most, so five rounds are enough, and
-- the walks up the schema versions, for which the number of the versions is enough.
--
-- Parameters: the `json` module, SHA-256, the text of a number, the averaging of floats, the worker, P3,
-- P4, the conditions of the guards. Not modelled: threads and the asyncio scheduler, crashes of the
-- process between two commits, logging, reports and the observers, which change no modelled state.
pub mod Prelude
pub mod Schema
pub mod Causal
pub mod Recovery
pub mod State
pub mod Data
pub mod Queue
pub mod TraceWindow
pub mod Runtime
pub mod Sandbox
pub mod Substrate
pub mod Kernel
mod Tests
