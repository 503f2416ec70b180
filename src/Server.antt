-- ===== src/Server.antt =====
-- crates/server: the parts of the server that are not input and output.
pub mod Auth
pub mod Pending
mod Examples
