-- ===== src/Engine.antt =====
-- crates/engine: the deterministic state machine.
pub mod Ms
pub mod Model
pub mod State
pub mod Tubes
pub mod Indexes
pub mod Reserve
pub mod Queue
pub mod Tick
pub mod Commands
pub mod Input
pub mod Recover
mod Scenarios
mod Examples
