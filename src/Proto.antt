-- ===== src/Proto.antt =====
-- crates/proto: the wire protocol.
pub mod Types
pub mod Decimal
pub mod Stats
pub mod Result
pub mod Numbers
pub mod Parse
pub mod Codec
pub mod Reply
mod Examples
