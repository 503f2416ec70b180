-- ===== src/Store/Wal/Append.antt =====
-- wal.rs: `append`, which writes journal entries and keeps the index of jobs.
pub mod Core
pub mod Index
pub mod Agree
pub mod Entries
pub mod Image
pub mod Durable
pub mod Recovered
use mathlib.Core.Option
use beanstalkd_rust.Base.{
  ◌%◌, ◌^◌, ℕ, zero, suc, ◌+◌, ◌-◌, ◌≡◌, Bool, true, false, ◌&&◌, ◌||◌, not, Option, none, some,
  List, [], ◌∷◌, ◌++◌, Bytes, codes, length, take, drop, ltb, leb, is_empty, if◌then◌else◌, ◌==◌,
}
use beanstalkd_rust.Engine.Model.{JobRecord, JournalEntry}
use beanstalkd_rust.Proto.Types.{JobId, TubeName}
use beanstalkd_rust.Std.Map
use beanstalkd_rust.Std.Order.{nat_ord}
use beanstalkd_rust.Store.Format.{
  Crc32c, Written, put_rec_len, update_rec_len, delete_rec_len, encode_put, encode_update,
  encode_delete,
}
use beanstalkd_rust.Store.Outcome.{Outcome, ok, err, ◌>>=◌}
use beanstalkd_rust.Store.Wal.{
  Inner, Seg, JobEntry, SyncPolicy, current, seg_at, modify_current, modify_at,
}
use beanstalkd_rust.Store.Wal.Files.{place, flush, sync_cur, is_always}

-- `binary_search_by_key` in the segments, which are in the order of their indexes.
unfoldable pub seg_pos : ℕ → List Seg → Option ℕ
seg_pos index [] = none
seg_pos index (s ∷ segs) =
    let rest = seg_pos index segs in
    if s.index == index then some 0 else Option.map (λ p. suc p) rest

unfoldable pub unanchor : ℕ → Inner → Inner
unfolding seg_pos modify_at
unanchor seg w = elim (seg_pos seg w.segs) [
  | none ↦ w
  | some p ↦ record w { segs = modify_at p (λ s. record s { anchors = s.anchors - 1 }) w.segs }
]

-- With the index of the current segment.
unfoldable pub anchor : JobId → ℕ → Inner → Inner × ℕ
unfolding modify_current seg_at
anchor id off w =
    let index = (current w).index in
    (
      modify_current (λ c. record c { anchors = c.anchors + 1; puts = c.puts ++ (id, off) ∷ [] }) w,
      index,
    )

-- What an encoder has written into the buffer.
unfoldable pub encoded : Inner → Written → Outcome Inner
encoded w (buf, none) = ok (record w { buf = buf })
encoded w (buf, some why) = err why

unfoldable pub take_pending : ℕ → Inner → Inner
take_pending len w =
    if ltb 0 w.pending_puts
    then record w { pending_puts = w.pending_puts - 1; pending_bytes = w.pending_bytes - len }
    else w

-- The new entry of a job that was put, and what becomes of the one that it replaces.
unfoldable pub index_put : JobRecord → ℕ → ℕ → ℕ → Inner → Inner
unfolding unanchor
index_put r seg off len w =
    let entry : JobEntry = record { job = r; seg = seg; off = off; put_len = len; used = len } in
    let new = record w { jobs = Map.insert r.id entry w.jobs; live_bytes = w.live_bytes + len } in
    elim (Map.get r.id w.jobs) [
      | none ↦ new
      | some old ↦ unanchor old.seg (record new { live_bytes = new.live_bytes - old.used })
    ]

unfoldable pub updated : JobRecord → JobEntry → JobEntry
updated r j = record j { job = r; used = (j.used + update_rec_len) % 2 ^ 64 }

unfoldable pub index_update : JobRecord → Inner → Inner
unfolding updated
index_update r w = elim (Map.get r.id w.jobs) [
  | none ↦ w
  | some j ↦ record w {
    jobs = Map.modify r.id (updated r) w.jobs;
    live_bytes = w.live_bytes + update_rec_len;
  }
]

unfoldable pub index_delete : JobId → Inner → Inner
unfolding unanchor
index_delete id w = elim (Map.get id w.jobs) [
  | none ↦ w
  | some j ↦
      unanchor j.seg (record w { jobs = Map.remove id w.jobs; live_bytes = w.live_bytes - j.used })
]

module _ ⦃crc : Crc32c⦄ where
  append_put : JobRecord → TubeName → Bytes → Inner → Outcome Inner
  unfolding take_pending place encoded anchor index_put
  append_put r tube body w = do
    let len = put_rec_len (length tube) (length body)
    (placed, off) ← place len (take_pending len w)
    coded ← encoded placed (encode_put placed.buf r tube body)
    let (anchored, seg) = anchor r.id off coded
    ok (index_put r seg off len anchored)

  append_update : JobRecord → Inner → Outcome Inner
  unfolding place encoded index_update
  append_update r w = do
    (placed, off) ← place update_rec_len w
    coded ← encoded placed (encode_update placed.buf r)
    ok (index_update r coded)

  append_delete : JobId → Inner → Outcome Inner
  unfolding place encoded index_delete
  append_delete id w = do
    (placed, off) ← place delete_rec_len w
    coded ← encoded placed (encode_delete placed.buf id)
    ok (index_delete id coded)

  unfoldable pub append_entry : JournalEntry → Inner → Outcome Inner
  unfolding append_put append_update append_delete
  append_entry (JournalEntry.put r tube body) w = append_put r tube body w
  append_entry (JournalEntry.update r) w = append_update r w
  append_entry (JournalEntry.delete id) w = append_delete id w

  -- The loop over the entries.
  unfoldable pub append_entries : List JournalEntry → Inner → Outcome Inner
  unfolding append_entry
  append_entries [] w = ok w
  append_entries (e ∷ entries) w = elim (append_entry e w) [
    | err why ↦ err why
    | ok w' ↦ append_entries entries (record w' { records_written = w'.records_written + 1 })
  ]

  unfoldable pub append : List JournalEntry → Inner → Outcome Inner
  unfolding append_entries flush sync_cur
  append entries w = do
    done ← append_entries entries w
    flushed ← flush (record done { pending_puts = 0; pending_bytes = 0 })
    ok (if is_always flushed.policy && flushed.unsynced then sync_cur flushed else flushed)
