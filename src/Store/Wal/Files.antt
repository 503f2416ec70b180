-- ===== src/Store/Wal/Files.antt =====
-- wal.rs: the places of records, and the writes to the current segment.
use beanstalkd_rust.Base.{
  ℕ, ◌+◌, ◌-◌, Bool, true, false, ◌&&◌, not, Option, none, some, [], ◌++◌, Bytes, codes, length,
  take, drop, ltb, leb, is_empty, if◌then◌else◌,
}
use beanstalkd_rust.Engine.Model.{Nanos}
use beanstalkd_rust.Store.Format.{seg_header_len}
use beanstalkd_rust.Store.Outcome.{Outcome, ok, err, ◌>>=◌}
use beanstalkd_rust.Store.Wal.{Inner, SyncPolicy, current, seg_at, modify_current}
use beanstalkd_rust.Store.Wal.Space.{allocate, zeros}

-- `write_all_at`: a gap behind the end of the file is filled with zeros.
unfoldable pub write_at : Bytes → Bytes → ℕ → Bytes
unfolding zeros
write_at file new off =
    take off file ++ zeros (off - length file) ++ new ++ drop (off + length new) file

-- `read_exact_at`: `none` if the file is too short.
unfoldable pub read_at : Bytes → ℕ → ℕ → Option Bytes
read_at file off len =
    if ltb (length file) (off + len) then none else some (take len (drop off file))

unfoldable pub flush : Inner → Outcome Inner
unfolding write_at modify_current seg_at
flush w =
    if is_empty w.buf
    then ok w
    else if (current w).is_open
    then ok (
        modify_current (λ c. record c { bytes = write_at c.bytes w.buf w.buf_start })
          (record w { buf_start = w.buf_start + length w.buf; buf = []; unsynced = true }))
    else err (codes "current binlog segment is not open")

unfoldable pub sync_cur : Inner → Inner
sync_cur w = record w { unsynced = false }

abbrev pub is_never : SyncPolicy → Bool
is_never SyncPolicy.never = true
is_never _ = false

abbrev pub is_always : SyncPolicy → Bool
is_always SyncPolicy.always = true
is_always _ = false

unfoldable pub sync_unless_never : Inner → Inner
unfolding sync_cur
sync_unless_never w = if w.unsynced && not (is_never w.policy) then sync_cur w else w

-- The current segment is closed: its file is cut to its records.
unfoldable pub close_current : Inner → Inner
unfolding modify_current seg_at
close_current w =
    let c = current w in
    if c.is_open
    then (if ltb c.written c.size
        then modify_current
            (λ s. record s { is_open = false; size = s.written; bytes = take s.written s.bytes })
            (record w { disk_total = w.disk_total - (c.size - c.written) })
        else modify_current (λ s. record s { is_open = false }) w)
    else w

unfoldable pub roll : Inner → Outcome Inner
unfolding flush sync_unless_never close_current allocate seg_at
roll w = do
  flushed ← flush w
  let synced = sync_unless_never flushed
  room ← if leb (length synced.segs) (synced.cur + 1) then allocate synced else ok synced
  let closed = close_current room
  ok (record closed {
    cur = closed.cur + 1;
    buf_start = (seg_at (closed.cur + 1) closed.segs).written;
    unsynced = false;
  })

-- Behind what is written of the current segment, which grows if the record is too long for it.
unfoldable pub place_here : ℕ → Inner → Inner × ℕ
unfolding modify_current seg_at
place_here len w =
    let off = (current w).written in
    let written = off + len in
    if ltb (current w).size written
    then (
      modify_current (λ c. record c { written = written; size = written })
          (record w { disk_total = w.disk_total + (written - (current w).size) }),
      off,
    )
    else (modify_current (λ c. record c { written = written }) w, off)

unfoldable pub place : ℕ → Inner → Outcome (Inner × ℕ)
unfolding roll place_here seg_at
place len w = do
  let c = current w
  rolled ← if ltb seg_header_len c.written && ltb c.size (c.written + len) then roll w else ok w
  ok (place_here len rolled)

-- `sync_if_due`
unfoldable pub sync_if_due : Nanos → Inner → Inner
unfolding sync_cur
sync_if_due now w = elim w.policy [
  | SyncPolicy.interval every ↦ if not w.unsynced then w else elim w.last_sync [
    | none ↦ sync_cur (record w { last_sync = some now })
    | some last ↦ if ltb (now - last) every then w else sync_cur (record w { last_sync = some now })
  ]
  | SyncPolicy.always ↦ w
  | SyncPolicy.never ↦ w
]
