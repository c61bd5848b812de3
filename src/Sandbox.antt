-- ===== src/Sandbox.antt =====
-- cognitive_runtime/sandbox/: the gates before an execution and the pool of execution cells.
pub mod Enforcer
pub mod Rules
pub mod Preflight
pub mod Cell
pub mod Pool
