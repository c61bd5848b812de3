-- ===== src/Runtime.antt =====
-- The runtime's own state: cognitive_runtime/runtime/runtime_state.py, runtime_orchestrator.py and
-- the daemon of cognitive_runtime/runtime/daemon/.
pub mod Health
pub mod Orchestrator
pub mod Lifecycle
pub mod Crash
pub mod Daemon
pub mod Coherence
pub mod Loop
