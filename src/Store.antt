-- ===== src/Store.antt =====
-- crates/store: the binlog, its record format and its replay.
pub mod Words
pub mod Outcome
pub mod JobRecords
pub mod Format
pub mod TubeList
pub mod Replay
pub mod SegmentNames
pub mod Scan
pub mod Wal
pub mod Examples
