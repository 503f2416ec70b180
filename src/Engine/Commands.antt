-- ===== src/Engine/Commands.antt =====
-- engine.rs: the handlers of the commands (`cmd_*`), by family.
pub mod Put
pub mod Tubes
pub mod Jobs
pub mod Info
