-- ===== src/Store/Wal.antt =====
-- crates/store/src/wal.rs: the state of the open log. A segment holds the bytes of its file, which
-- reads and writes of the code go to; a write or a read that the file system refuses is not
-- modelled. `unsynced` says whether bytes were written that no `fsync` has followed.
pub mod Space
pub mod Files
pub mod Append
pub mod Compact
pub mod Open
mod Examples
use beanstalkd_rust.Base.{
  ℕ, zero, suc, ◌+◌, ◌-◌, ◌*◌, ◌^◌, Bool, false, Option, none, some, List, [], ◌∷◌, ◌++◌, Bytes,
  codes, length, take, drop,
}
use beanstalkd_rust.Engine.Model.{JobRecord, Nanos}
use beanstalkd_rust.Proto.Types.{JobId}
use beanstalkd_rust.Std.Map.{Map}

-- `MAX_FILE_SIZE`
abbrev pub max_file_size : ℕ
max_file_size = 2 ^ 32

abbrev pub block : ℕ
block = 4096

-- The interval is in nanoseconds.
pub data SyncPolicy : Type 0 where
  always : SyncPolicy
  interval : Nanos → SyncPolicy
  never : SyncPolicy

pub record Seg : Type 0 where
  pub index : ℕ
  pub size : ℕ
  pub written : ℕ
  pub anchors : ℕ
  pub puts : List (JobId × ℕ)
  pub is_open : Bool
  pub bytes : Bytes

pub record JobEntry : Type 0 where
  pub job : JobRecord
  pub seg : ℕ
  pub off : ℕ
  pub put_len : ℕ
  pub used : ℕ

-- `Inner`
pub record Inner : Type 0 where
  pub policy : SyncPolicy
  pub seg_size : ℕ
  pub limit : Option ℕ
  pub segs : List Seg
  pub cur : ℕ
  pub next_index : ℕ
  pub jobs : Map JobId JobEntry
  pub live_bytes : ℕ
  pub disk_total : ℕ
  pub pending_puts : ℕ
  pub pending_bytes : ℕ
  pub buf : Bytes
  pub buf_start : ℕ
  pub unsynced : Bool
  pub last_sync : Option Nanos
  pub records_written : ℕ
  pub records_migrated : ℕ

abbrev no_seg : Seg
no_seg = record {
  index = 0;
  size = 0;
  written = 0;
  anchors = 0;
  puts = [];
  is_open = false;
  bytes = [];
}

-- `segs[i]`: out of range, which is a panic, an empty segment.
unfoldable pub seg_at : ℕ → List Seg → Seg
seg_at i [] = no_seg
seg_at zero (s ∷ segs) = s
seg_at (suc i) (s ∷ segs) = seg_at i segs

unfoldable pub modify_at : ℕ → (Seg → Seg) → List Seg → List Seg
modify_at i f [] = []
modify_at zero f (s ∷ segs) = f s ∷ segs
modify_at (suc i) f (s ∷ segs) = s ∷ modify_at i f segs

abbrev pub current : Inner → Seg
current w = seg_at w.cur w.segs

unfoldable pub modify_current : (Seg → Seg) → Inner → Inner
unfolding modify_at
modify_current f w = record w { segs = modify_at w.cur f w.segs }
