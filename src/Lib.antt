-- ===== src/Lib.antt =====
-- beanstalkd-rs: a work queue that speaks the beanstalkd protocol.
--
-- The program. `crates/proto` turns the bytes of a connection into frames (a command, or the error
-- reply that a bad line gets) and prints replies. `crates/engine` is a deterministic state machine:
-- inputs (connect, a command of a connection, a half-closed or closed connection, the start or the
-- rejection of a `put` body, draining) and a clock reading go in; the new state, replies for
-- connections and journal entries come out. `crates/store` writes the journal entries to the
-- binlog, a directory of segment files, and replays them when the server starts; the engine
-- recovers from what replay gives. The server around them owns sockets and threads; it
-- checks the tokens of clients and counts the connections that have not authenticated, and
-- `crates/raft` forwards inputs to the leader of a cluster.
--
-- The files.
--   Base          numbers, Boolean tests, lists and options; wrapping 64-bit and 32-bit counters.
--   Std           the standard library's ordered maps and sets, as sorted association lists over an
--                 order that is an instance argument.
--   Proto/Types, Proto/Stats, Proto/Decimal   crates/proto/src/lib.rs and stats.rs: commands,
--                 replies, frames, and the YAML that `stats` commands print.
--   Proto/Numbers, Proto/Parse   crates/proto/src/parse.rs: number and name readers, and
--                 `parse_line_raw` with one clause of `parse_args` for each command.
--   Proto/Codec   crates/proto/src/codec.rs: `scan_line_end` and `ServerCodec::decode`. One round of
--                 its loop is `round`; the loop is `decode_loop`.
--   Proto/Reply   crates/proto/src/response.rs; Proto/Reply/Reader reads replies as a client does.
--   Engine/Ms     crates/engine/src/ms.rs.
--   Engine/Model, Engine/State   crates/engine/src/model.rs, lib.rs and the struct `Engine`: the
--                 records, and the accessors and the journal of engine.rs.
--   Engine/Tubes, Engine/Indexes, Engine/Reserve, Engine/Queue, Engine/Tick   the internals of
--                 crates/engine/src/engine.rs: the slab of tubes, the ready, delayed and buried
--                 queues, reservations and waiting connections, `process_queue`, and the clock.
--   Engine/Commands, Engine/Input, Engine/Recover   the command handlers, `handle`, the connection
--                 events, `apply_input`, and `recover`.
--   Store/Words, Store/JobRecords, Store/Format   crates/store/src/format.rs: little-endian integers,
--                 the job record, the record frame, the encoders and `parse_at`.
--   Store/TubeList, Store/Replay, Store/SegmentNames, Store/Scan   crates/store/src/replay.rs: the
--                 tube list, `ReplayState::apply`, file names and error texts, and `scan`.
--   Store/Wal     crates/store/src/wal.rs: the state of the open log. Store/Wal/Space has the
--                 accounting and `ensure_room`, Store/Wal/Files the placing and writing of records,
--                 Store/Wal/Append `append`, Store/Wal/Compact `move_one`, `maintain` and `gc`, and
--                 Store/Wal/Open `open`.
--   Store/Outcome a result with an error text.
--   Raft/Forward  crates/raft/src/forward.rs and lib.rs: which node owns a connection, and the check
--                 of the inputs that a node forwards.
--   Server/Auth, Server/Pending   crates/server/src/auth.rs and pending.rs: the tokens of a client,
--                 and the counters of the connections that have not authenticated. The tasks that
--                 share the counters take atomic actions, `act`, in any order.
--   Proto/Examples, Store/Examples, Store/Wal/Examples, Raft/Examples, Server/Examples,
--   Engine/Examples, Engine/Scenarios   runs on concrete inputs.
-- The theorems stand in child modules of the file that they are about.
--
-- How the code is modelled. A method with `&mut self` takes the engine and returns it; `out` is the
-- second part of a `Run`, the replies so far. A `HashMap` is an association list in the order of
-- its keys, of which the engine uses only look-ups and updates; `Vec<Option<TubeState>>` is a list
-- of options. Numbers are natural numbers: counters that the code increments with `+=` wrap at
-- their width, `saturating_add` stops at it, and a subtraction of a counter stops at 0. An index
-- out of range, which would panic in the code, is `none` and leaves the state as it is. What
-- `SysInfo::snapshot` answers is an argument. Text is a list of bytes. The crate `crc32c` is the
-- record `Crc32c` of two functions, an instance argument of which only the width of the checksum
-- is assumed; what a theorem needs beyond that is a condition of it. The crate `subtle` is the record `Subtle`: its `Choice` is any type with `&`, `|` and
-- the comparisons, which are assumed to say what they document. A directory is a map from segment
-- numbers to the bytes of the files, and a segment of the open log holds the bytes of its file; an
-- error of the log is fatal to the server, so that the state after one is not kept.
--
-- Fuel. `decode_loop` runs on one more than the buffer's length, since a round that goes on has
-- taken bytes. `delete_all` of a multiset runs on its length. `process_queue` runs on one more than
-- the number of ready entries, `tick` on one more than the number of delayed entries and of
-- connections, and `conn_timeout` on one more than the number of the connection's reservations:
-- where the queues agree with the job records, as the code keeps them, a round removes one of
-- these. The loop over the records of a segment runs on one round more than the file has bytes,
-- and that of `ensure_room` on one more than the bytes needed, since a new segment adds more room
-- than it needs itself.
--
-- Not modelled: `export_state`, `import_state` and `validate` of the engine; errors of the file
-- system other than the limit on the size of the binlog, its lock file and the syncs of its
-- directory; the rest of replication (crates/raft) and of the server, its configuration and its
-- tools. The first is data and pure code that the library can grow to; the rest is input and output
-- around it.
mod Base
pub mod Std
pub mod Proto
pub mod Engine
pub mod Store
pub mod Raft
pub mod Server
