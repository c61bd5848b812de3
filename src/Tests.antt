-- ===== src/Tests.antt =====
-- Runs of the development on small inputs.
pub mod Samples
mod Events
mod Windows
mod Machines
mod Daemons
mod Gates
mod Clocks
mod Loops
mod Recoveries
mod Graphs
