-- ===== src/Store/Wal/Compact.antt =====
-- wal.rs: compaction, which moves live jobs out of old segments, and the removal of segments.

use beanstalkd_rust.Base.{
  ℕ, zero, suc, ◌+◌, ◌-◌, ◌/◌, Bool, true, false, ◌&&◌, not, none, some, List, [], ◌∷◌, ◌++◌, Bytes,
  codes, length, ltb, leb, if◌then◌else◌, ◌==◌,
}
use beanstalkd_rust.Engine.Model.{BinlogStats}
use beanstalkd_rust.Proto.Decimal.{decimal}
use beanstalkd_rust.Proto.Types.{JobId}
use beanstalkd_rust.Std.Map
use beanstalkd_rust.Std.Map.{Map}
use beanstalkd_rust.Std.Order.{nat_ord}
use beanstalkd_rust.Store.Format.{Crc32c, Rec, Parsed, parse_at, restamp_put}
use beanstalkd_rust.Store.Outcome.{Outcome, ok, err, or_err, ◌>>=◌}
use beanstalkd_rust.Store.SegmentNames.{segment_name}
use beanstalkd_rust.Store.Wal.{Inner, Seg, JobEntry, current, seg_at, modify_at}
use beanstalkd_rust.Store.Wal.Append.{anchor, seg_pos}
use beanstalkd_rust.Store.Wal.Files.{flush, place, read_at, sync_unless_never}
use beanstalkd_rust.Store.Wal.Space.{reserved, ensure_room}

unfoldable pub ratio : Inner → ℕ
unfolding reserved
ratio w =
    let live = w.live_bytes + reserved w in if live == 0 then 0 else (w.disk_total - live) / live

-- The first segment from `from` on, two before the current one at most, that anchors a job; the
-- number of steps left is the fuel. Where the search stopped, and whether it found one.
unfoldable pub find_anchored : ℕ → ℕ → Inner → ℕ × Bool
unfolding seg_at
find_anchored zero from w = (from, false)
find_anchored (suc fuel) from w =
    let rest = find_anchored fuel (from + 1) w in
    if ltb w.cur (from + 2)
    then (from, false)
    else if ltb 0 (seg_at from w.segs).anchors
    then (from, true)
    else rest

-- Whether the job's latest put stands there.
unfoldable pub stands_at : Map JobId JobEntry → ℕ → JobId × ℕ → Bool
stands_at jobs index (id, off) = elim (Map.get id jobs) [
  | none ↦ false
  | some j ↦ j.seg == index && j.off == off
]

-- Stale puts are taken off the front: the put that is found, if any, and those from it on.
unfoldable pub drop_stale : Map JobId JobEntry → ℕ → List (JobId × ℕ) → List (JobId × ℕ)
unfolding stands_at
drop_stale jobs index [] = []
drop_stale jobs index (p ∷ puts) =
    let rest = drop_stale jobs index puts in if stands_at jobs index p then p ∷ puts else rest

damaged : ℕ → ℕ → JobId → Bytes
unfolding segment_name
damaged index off id =
    segment_name index
    ++ codes " offset "
    ++ decimal off
    ++ codes ": job "
    ++ decimal id
    ++ codes "'s record is damaged"

unfoldable pub moved : ℕ → ℕ → ℕ → JobEntry → JobEntry
moved seg off len j = record j { seg = seg; off = off; used = len }

-- What one call of `move_one` gives: the log, the search hint, and whether a job was moved.
abbrev pub Moved : Type 0
Moved = Inner × ℕ × Bool

-- `while self.cur > 0 && self.segs[0].anchors == 0`; the number of segments is the fuel.
gc_loop : ℕ → Bool → Inner → Outcome (Inner × Bool)
unfolding flush sync_unless_never seg_at
gc_loop zero removed w = ok (w, removed)
gc_loop (suc fuel) removed w =
    if ltb 0 w.cur && (seg_at 0 w.segs).anchors == 0
    then elim (if removed then ok w else flush w) [
      | err why ↦ err why
      | ok flushed ↦
          gc_loop fuel true (remove_first (if removed then w else sync_unless_never flushed))
    ]
    else ok (w, removed)
  where
    tail : List Seg → List Seg
    tail [] = []
    tail (s ∷ segs) = segs

    remove_first : Inner → Inner
    remove_first w = record w {
      segs = tail w.segs;
      cur = w.cur - 1;
      disk_total = w.disk_total - (seg_at 0 w.segs).size;
    }

-- The directory is synced at the end, which changes no state.
unfoldable pub gc : Inner → Outcome Inner
unfolding gc_loop
gc w = do (w, removed) ← gc_loop (length w.segs) false w; ok w

module _ ⦃crc : Crc32c⦄ where
  -- The record read back is a whole put of the expected length.
  unfoldable pub is_put_of : ℕ → Parsed → Bool
  is_put_of len (Parsed.rec (Rec.put r tube body) l) = l == len
  is_put_of len _ = false

  -- The record is stamped anew and written behind the current segment's.
  rewrite : ℕ → ℕ → JobId → JobEntry → Bytes → Inner → Outcome Inner
  unfolding restamp_put place anchor moved modify_at
  rewrite p off id j bytes w = do
    (placed, new_off) ← place j.put_len w
    let buffered = record placed { buf = placed.buf ++ restamp_put bytes j.job }
    let (anchored, new_seg) = anchor id new_off buffered
    ok (record anchored {
      segs =
          modify_at p (λ s. record s { anchors = s.anchors - 1; puts = tail s.puts }) anchored.segs;
      jobs = Map.modify id (moved new_seg new_off j.put_len) anchored.jobs;
      live_bytes = anchored.live_bytes - j.used + j.put_len;
      records_written = anchored.records_written + 1;
      records_migrated = anchored.records_migrated + 1;
    })
    where
      tail : List (JobId × ℕ) → List (JobId × ℕ)
      tail [] = []
      tail (x ∷ xs) = xs

  -- The job that the segment's first put names is moved, if there is room.
  move_job : ℕ → ℕ → JobId → JobEntry → ℕ → Inner → Outcome Moved
  unfolding rewrite ensure_room read_at seg_at seg_pos is_put_of damaged
  move_job p from id j off w =
      let (w, room) = ensure_room j.put_len true w in
      let index = (seg_at p w.segs).index in
      if not room then ok (w, from, false) else do
        at ← or_err (codes "binlog segment vanished") (seg_pos index w.segs)
        bytes ←
            or_err (codes "failed to fill whole buffer")
              (read_at (seg_at at w.segs).bytes off j.put_len)
        if is_put_of j.put_len (parse_at bytes 0)
            then (do w ← rewrite p off id j bytes w; ok (w, from, true))
            else err (damaged index off id)

  first_put : ℕ → ℕ → List (JobId × ℕ) → Inner → Outcome Moved
  unfolding move_job segment_name seg_at
  first_put p from [] w = err (
      codes "internal: "
      ++ segment_name (seg_at p w.segs).index
      ++ codes " anchors jobs but lists none")
  first_put p from ((id, off) ∷ puts) w = elim (Map.get id w.jobs) [
    | none ↦ ok (w, from, false)
    | some j ↦ move_job p from id j off w
  ]

  unfoldable pub move_one : ℕ → Inner → Outcome Moved
  unfolding find_anchored drop_stale modify_at first_put seg_at
  move_one from w =
      let (p, found) = find_anchored (suc w.cur) from w in
      let s = seg_at p w.segs in
      let puts = drop_stale w.jobs s.index s.puts in
      if found
      then first_put p p puts
          (record w { segs = modify_at p (λ s. record s { puts = puts }) w.segs })
      else ok (w, p, false)

  -- `while moves > 0 && self.move_one(&mut from)?`
  move_some : ℕ → ℕ → Inner → Outcome Inner
  unfolding move_one
  move_some zero from w = ok w
  move_some (suc moves) from w = elim (move_one from w) [
    | err why ↦ err why
    | ok m ↦ elim m.2 [ false ↦ ok m.0 | true ↦ move_some moves m.1 m.0 ]
  ]

  unfoldable pub maintain : Inner → Outcome Inner
  unfolding ratio move_some gc flush
  maintain w =
      let r = ratio w in if leb 2 r then (do w ← move_some (r - 1) 0 w; w ← flush w; gc w) else gc w

unfoldable pub stats : Inner → BinlogStats
unfolding seg_at
stats w = record {
  oldest_index = (seg_at 0 w.segs).index;
  current_index = (current w).index;
  records_written = w.records_written;
  records_migrated = w.records_migrated;
}
