-- ===== src/Store/Wal/Open.antt =====
-- wal.rs, `open`: the log that starts from the files found, and the recovery for the engine.

use beanstalkd_rust.Base.{
  ℕ, ◌+◌, ◌-◌, ◌^◌, false, Option, none, some, List, [], ◌∷◌, ◌++◌, Bytes, codes, length, take, ltb,
  map, if◌then◌else◌, Ordering,
}
use beanstalkd_rust.Engine.Model.{Recovery, RecoveredJob}
use beanstalkd_rust.Proto.Decimal.{decimal}
use beanstalkd_rust.Proto.Types.{JobId}
use beanstalkd_rust.Std.Map
use beanstalkd_rust.Std.Map.{Map}
use beanstalkd_rust.Std.Order.{nat_ord, pair_ord, pair_cmp}
use beanstalkd_rust.Store.Format.{Crc32c, seg_header_len}
use beanstalkd_rust.Store.Outcome.{Outcome, ok, err, ◌>>=◌}
use beanstalkd_rust.Store.Replay.{ReplayJob}
use beanstalkd_rust.Store.Scan.{Scan, ScannedSeg, scan}
use beanstalkd_rust.Store.SegmentNames.{segment_name}
use beanstalkd_rust.Store.Wal.{Inner, Seg, JobEntry, SyncPolicy, modify_at}
use beanstalkd_rust.Store.Wal.Append.{seg_pos}
use beanstalkd_rust.Store.Wal.Compact.{gc}
use beanstalkd_rust.Store.Wal.Space.{segment_size, allocate, ensure_room}

abbrev pub max_segment_index : ℕ
max_segment_index = 2 ^ 62

-- `sort_unstable_by_key`; the keys sorted by here are distinct.
module _ {ℓ} {A : Type ℓ} (key : A → ℕ × ℕ) where
  insert_sorted : A → List A → List A
  insert_sorted a [] = a ∷ []
  insert_sorted a (x ∷ xs) =
      let rest = insert_sorted a xs in
      elim (pair_cmp (key a) (key x)) [ Ordering.gt ↦ x ∷ rest | _ ↦ a ∷ x ∷ xs ]

  sort_by_key : List A → List A
  unfolding insert_sorted
  sort_by_key [] = []
  sort_by_key (x ∷ xs) = insert_sorted x (sort_by_key xs)

-- A file with records is cut to its valid end; one without is removed.
kept_seg : Map ℕ Bytes → ScannedSeg → List Seg → List Seg
kept_seg found s segs =
    if s.has_records
    then record {
      index = s.index;
      size = s.valid_end;
      written = s.valid_end;
      anchors = 0;
      puts = [];
      is_open = false;
      bytes = elim (Map.get s.index found) [ none ↦ [] | some file ↦ take s.valid_end file ];
    }
      ∷ segs
    else segs

kept_segs : Map ℕ Bytes → List ScannedSeg → List Seg
unfolding kept_seg
kept_segs found [] = []
kept_segs found (s ∷ segs) = kept_seg found s (kept_segs found segs)

unfoldable pub entry_of : ReplayJob → JobEntry
entry_of j = record { job = j.job; seg = j.seg; off = j.off; put_len = j.put_len; used = j.used }

recovered_of : ReplayJob → RecoveredJob
recovered_of j = record { job = j.job; tube = j.tube; body = j.body }

total_used : List (JobId × ReplayJob) → ℕ
total_used [] = 0
total_used ((id, j) ∷ jobs) = j.used + total_used jobs

total_size : List Seg → ℕ
total_size [] = 0
total_size (s ∷ segs) = s.size + total_size segs

-- The puts of the live jobs, in the order of their places, anchor their segments.
anchor_all : List (JobId × ReplayJob) → List Seg → List Seg
unfolding seg_pos modify_at
anchor_all [] segs = segs
anchor_all ((id, j) ∷ jobs) segs =
    let rest = anchor_all jobs in
    elim (seg_pos j.seg segs) [
      | none ↦ rest segs
      | some p ↦ rest (
          modify_at p (λ s. record s { anchors = s.anchors + 1; puts = s.puts ++ (id, j.off) ∷ [] })
            segs)
    ]

replayed : SyncPolicy → Option ℕ → ℕ → Map ℕ Bytes → Scan → Inner
unfolding kept_segs entry_of total_used total_size anchor_all sort_by_key
replayed policy limit seg_size found s =
    let segs = anchor_all (sort_by_key (λ e. (e.1.seg, e.1.off)) s.jobs) (kept_segs found s.segs) in
    record {
      policy = policy;
      seg_size = seg_size;
      limit = limit;
      segs = segs;
      cur = 0;
      next_index = s.max_index + 1;
      jobs = map (λ e. (e.0, entry_of e.1)) s.jobs;
      live_bytes = total_used s.jobs;
      disk_total = total_size segs;
      pending_puts = 0;
      pending_bytes = 0;
      buf = [];
      buf_start = seg_header_len;
      unsynced = false;
      last_sync = none;
      records_written = 0;
      records_migrated = 0;
    }

-- A new current segment, with room for the deletions of the recovered jobs.
started : Inner → Outcome Inner
unfolding allocate ensure_room gc
started w = do
  grown ← allocate w
  let (roomy, room) = ensure_room 0 false (record grown { cur = length grown.segs - 1 })
  if room then gc roomy else err (codes "cannot preallocate binlog space for the recovered jobs")

recovery_of : Scan → Recovery
unfolding recovered_of sort_by_key
recovery_of s = record {
  jobs = map (λ e. recovered_of e.1) (sort_by_key (λ e. (e.1.order, 0)) s.jobs);
  next_id = s.next_id;
  tube_order = s.tube_order;
}

out_of_range : ℕ → Bytes
unfolding segment_name
out_of_range index =
    segment_name index
    ++ codes ": segment number out of range (max "
    ++ decimal max_segment_index
    ++ codes ")"

open_scanned : SyncPolicy → Option ℕ → ℕ → Map ℕ Bytes → Scan → Outcome (Inner × Recovery)
unfolding replayed started recovery_of out_of_range
open_scanned policy limit seg_size found s =
    if ltb max_segment_index s.max_index
    then err (out_of_range s.max_index)
    else (do w ← started (replayed policy limit seg_size found s); ok (w, recovery_of s))

module _ ⦃crc : Crc32c⦄ where
  -- `none` is the fuel of the scan, which is never short. The size is refused before the scan.
  unfoldable pub open_log :
      SyncPolicy → Option ℕ → ℕ → Map ℕ Bytes → Option (Outcome (Inner × Recovery))
  unfolding segment_size scan open_scanned
  open_log policy limit file_size found = elim (segment_size file_size) [
    | err why ↦ some (err why)
    | ok seg_size ↦ elim (scan found) [
      | none ↦ none
      | some (err why) ↦ some (err why)
      | some (ok s) ↦ some (open_scanned policy limit seg_size found s)
    ]
  ]
