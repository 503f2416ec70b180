-- ===== src/Raft.antt =====
-- crates/raft: the parts of replication that are not consensus.
pub mod Forward
mod Examples
