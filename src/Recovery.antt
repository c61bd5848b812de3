-- ===== src/Recovery.antt =====
-- cognitive_runtime/recovery/: what a checkpoint keeps of the runtime and how it is restored.
pub mod Snapshot
pub mod Delta
pub mod Crash
pub mod Guard
pub mod Replay
pub mod Resume
pub mod Coordinator
