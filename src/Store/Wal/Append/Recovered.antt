-- ===== src/Store/Wal/Append/Recovered.antt =====
-- wal.rs and replay.rs together: the index that `append` keeps is the one that `open` would make
-- of the file.
use beanstalkd_rust.Base.{
  ℕ, ◌+◌, ◌≡◌, sym, ap, ◌∙◌, arith, some, List, [], ◌∷◌, ◌++◌, length, length-append, subst,
  some-inj,
}
use beanstalkd_rust.Engine.Model.{JournalEntry}
use beanstalkd_rust.Store.Format.{Crc32c, Rec, seg_header_len, segment_header}
use beanstalkd_rust.Store.Format.Rounds.{rec_len}
use beanstalkd_rust.Store.Outcome.{ok}
use beanstalkd_rust.Store.Replay.{ReplayState}
use beanstalkd_rust.Store.Replay.Live.{replay}
use beanstalkd_rust.Store.Scan.Blank.{AllEncodable-append}
use beanstalkd_rust.Store.Scan.CutOff.{Replayed}
use beanstalkd_rust.Store.Scan.Written.{AllEncodable, log_of, log_of-pos, placed}
use beanstalkd_rust.Store.TubeList.Placed.{IsPlaced}
use beanstalkd_rust.Store.Wal.{Inner, current}
use beanstalkd_rust.Store.Wal.Append.{append}
use beanstalkd_rust.Store.Wal.Append.Agree.{Agrees}
use beanstalkd_rust.Store.Wal.Append.Core.{core}
use beanstalkd_rust.Store.Wal.Append.Durable.{append-Holds, Replayed-file, written-append}
use beanstalkd_rust.Store.Wal.Append.Entries.{Fits, recs_of_entries, replay-cons}
use beanstalkd_rust.Store.Wal.Append.Image.{Holds}

module _ ⦃crc : Crc32c⦄ where
  replay-append :
      (xs ys : List Rec) (index pos : ℕ) (st st' : ReplayState)
      → replay (placed index pos xs) st ≡ some st'
      → replay (placed index pos (xs ++ ys)) st
        ≡ replay (placed index (pos + length (log_of xs)) ys) st'
  unfolding replay placed log_of
  replay-append [] ys index pos st st' h =
      let same : pos + 0 ≡ pos = omega arith in rw (same, some-inj h)
  replay-append (x ∷ xs) ys index pos st st' h =
      let (mid, applied, rest) = replay-cons x xs index pos st st' h in
      let size = log_of-pos x xs in
      let place : pos + rec_len x + length (log_of xs) ≡ pos + length (log_of (x ∷ xs)) =
        omega arith in
      rw (replay, applied)
        (replay-append xs ys index (pos + rec_len x) mid st' rest
          ∙ ap (λ p. replay (placed index p ys) st') place)

  -- Where the index is the one that `open` would make of the files, it is so after an append:
  -- entries that are encodable and fit into the current segment, which holds encodable records, are
  -- appended without an error, a scan of the segment's file as it is then succeeds from the state
  -- `st` that the scan of the files before it has left, and the index has, for every id, the entry
  -- that `open` makes of the job that the scan finds. Every tube is recorded at its place in `st`.
  pub append-Agrees :
      (recs : List Rec) (entries : List JournalEntry) (w : Inner) (st st' : ReplayState)
      → Holds (core w) (segment_header ++ log_of recs)
      → IsPlaced st.tubes
      → replay (placed (current w).index seg_header_len recs) st ≡ some st'
      → Agrees w.jobs st'.jobs
      → AllEncodable recs
      → AllEncodable (recs_of_entries entries)
      → Fits (length (log_of (recs_of_entries entries))) (core w)
      → (w' : Inner) × (append entries w ≡ ok w')
        × (r : Replayed (current w').index (recs ++ recs_of_entries entries) (current w').bytes st)
        × Agrees w'.jobs (r.0).jobs
  unfolding segment_header
  append-Agrees recs entries w st st' h tubes before agrees v u fits =
      let (w', done, held, nothing, index, follows) =
        append-Holds entries w (segment_header ++ log_of recs) h u fits in
      let more = recs_of_entries entries in
      let (r, played) =
        Replayed-file (current w').index (recs ++ more) (core w') st
          (subst (Holds (core w')) (written-append recs more) held) nothing
          (AllEncodable-append recs more v u) tubes in
      let place : (core w).file.2 ≡ seg_header_len + length (log_of recs) =
        h.end ∙ length-append segment_header (log_of recs) in
      let rest =
        ap (λ p. replay (placed (current w).index p more) st') place
        ∙ sym (replay-append recs more (current w).index seg_header_len st st' before)
        ∙ ap (λ i. replay (placed i seg_header_len (recs ++ more)) st) (sym index)
        ∙ played in
      (w', done, r, follows st' r.0 agrees rest)
