-- ===== src/Store/Wal/Append/Durable.antt =====
-- wal.rs and replay.rs together: what `append` has written, a scan of the file replays.
use beanstalkd_rust.Base.{
  some, ℕ, ◌≡◌, sym, ap, ◌∙◌, arith, List, [], ◌++◌, Bytes, length, append_assoc, Bool-cases, inl,
  inr, subst, ◌&&◌,
}
use beanstalkd_rust.Engine.Model.{JournalEntry}
use beanstalkd_rust.Std.Map
use beanstalkd_rust.Std.Order.{nat_ord}
use beanstalkd_rust.Store.Format.{Crc32c, Rec, seg_header_len, segment_header}
use beanstalkd_rust.Store.Outcome.{ok}
use beanstalkd_rust.Store.Replay.{ReplayState, empty}
use beanstalkd_rust.Store.Scan.Blank.{AllEncodable-append, log_of-append, parse_at-blank}
use beanstalkd_rust.Store.Scan.CutOff.{Replayed, scan_segment-played}
use beanstalkd_rust.Store.Scan.Written.{AllEncodable, log_of, placed}
use beanstalkd_rust.Store.Replay.Live.{replay}
use beanstalkd_rust.Store.TubeList.Placed.{IsPlaced}
use beanstalkd_rust.Store.Wal.{Inner, current}
use beanstalkd_rust.Store.Wal.Append.{append}
use beanstalkd_rust.Store.Wal.Append.Core.{Core, core}
use beanstalkd_rust.Store.Wal.Append.Entries.{Follows, Fits, recs_of_entries, append_entries-log_of}
use beanstalkd_rust.Store.Wal.Append.Image.{Holds, Holds-longer, flush-Holds, Holds-file}
use beanstalkd_rust.Store.Wal.Files.{sync_cur, is_always}
use beanstalkd_rust.Store.Wal.Space.{zeros}

pub empty-IsPlaced : IsPlaced empty.tubes
unfolding Map.get
empty-IsPlaced = record {
  stands = λ tube refs pos h. ground arith;
  recorded = λ tube pos h. absurd (ground arith);
}

module _ ⦃crc : Crc32c⦄ where
  pub written-append :
      (xs ys : List Rec)
      → (segment_header ++ log_of xs) ++ log_of ys ≡ segment_header ++ log_of (xs ++ ys)
  written-append xs ys =
      append_assoc segment_header (log_of xs) (log_of ys)
      ∙ ap (λ l. segment_header ++ l) (sym (log_of-append xs ys))

  -- `append` of entries that fit leaves the log longer by their records, all of it in the file.
  pub append-Holds :
      (entries : List JournalEntry) (w : Inner) (log : Bytes)
      → Holds (core w) log
      → AllEncodable (recs_of_entries entries)
      → Fits (length (log_of (recs_of_entries entries))) (core w)
      → (w' : Inner) × (append entries w ≡ ok w')
        × Holds (core w') (log ++ log_of (recs_of_entries entries))
        × (w'.buf ≡ [])
        × ((core w').index ≡ (core w).index)
        × Follows (recs_of_entries entries) w w'
  unfolding append sync_cur
  append-Holds entries w log h v fits =
      let (w1, done, c, follows) = append_entries-log_of entries w v fits in
      let bytes = log_of (recs_of_entries entries) in
      let kept : Holds (core w1) (log ++ bytes) =
        subst (λ c. Holds c (log ++ bytes)) (sym c) (Holds-longer (core w) log bytes h) in
      let (w2, flushed, held, nothing, index, jobs) =
        flush-Holds (record w1 { pending_puts = 0; pending_bytes = 0 }) (log ++ bytes) kept in
      let same = index ∙ ap (λ c. c.index) c in
      let behind : Follows (recs_of_entries entries) w w2 =
        λ st st' h played q. ap (Map.get q) jobs ∙ follows st st' h played q in
      elim (Bool-cases (is_always w2.policy && w2.unsynced)) [
        | inl sync ↦ (sync_cur w2, rw (append, done, flushed, sync), held, nothing, same, behind)
        | inr no_sync ↦ (w2, rw (append, done, flushed, no_sync), held, nothing, same, behind)
      ]

  pub Replayed-file :
      (index : ℕ) (recs : List Rec) (c : Core) (st : ReplayState)
      → Holds c (segment_header ++ log_of recs)
      → c.buf ≡ []
      → AllEncodable recs
      → IsPlaced st.tubes
      → (r : Replayed index recs c.file.1 st) × (replay (placed index seg_header_len recs) st
          ≡ some r.0)
  Replayed-file index recs c st h nothing v tubes =
      let (n, whole) = Holds-file c (segment_header ++ log_of recs) h nothing in
      let spread = whole ∙ append_assoc segment_header (log_of recs) (zeros n) in
      subst
        (λ file.
          (r : Replayed index recs file st) × (replay (placed index seg_header_len recs) st
            ≡ some r.0))
        (sym spread)
        (scan_segment-played index recs (zeros n) st tubes v (inl (parse_at-blank recs n)))

  -- Entries that are encodable and fit into the current segment, which holds encodable records,
  -- are appended without an error, and a scan of the segment's file as it is then gives the jobs
  -- that the records before and those of the entries leave alive.
  pub append-scan_segment :
      (recs : List Rec) (entries : List JournalEntry) (w : Inner)
      → Holds (core w) (segment_header ++ log_of recs)
      → AllEncodable recs
      → AllEncodable (recs_of_entries entries)
      → Fits (length (log_of (recs_of_entries entries))) (core w)
      → (w' : Inner) × (append entries w ≡ ok w')
        × Replayed (current w').index (recs ++ recs_of_entries entries) (current w').bytes empty
  append-scan_segment recs entries w h v u fits =
      let (w', done, held, nothing, index, follows) =
        append-Holds entries w (segment_header ++ log_of recs) h u fits in
      let more = recs_of_entries entries in
      (
        w',
        done,
        (Replayed-file (current w').index (recs ++ more) (core w') empty
            (subst (Holds (core w')) (written-append recs more) held) nothing
            (AllEncodable-append recs more v u) empty-IsPlaced).0,
      )
