-- ===== src/Store/Wal/Examples.antt =====
-- The log at work: a fresh segment of 200 bytes, and a put and a deletion.
use beanstalkd_rust.Base.{◌≡◌, refl, arith, false, none, some, List, [], ◌∷◌, ◌++◌, codes, length}
use beanstalkd_rust.Engine.Model.{JournalEntry}
use beanstalkd_rust.Proto.Numbers.{tube_name_new, is_name_char}
use beanstalkd_rust.Store.Examples.{sum_crc, job, job-IsWritable}
use beanstalkd_rust.Store.Format.{framed, put_rec_len, segment_header}
use beanstalkd_rust.Store.Words.{to_le}
use beanstalkd_rust.Store.JobRecords.{encode_jobrec}
use beanstalkd_rust.Store.Outcome.{ok}
use beanstalkd_rust.Store.Replay.{empty}
use beanstalkd_rust.Store.Scan.CutOff.{Replayed}
use beanstalkd_rust.Store.Wal.Append.Recovered.{append-Agrees}
use beanstalkd_rust.Store.Wal.Append.Agree.{Agrees}
use beanstalkd_rust.Store.Replay.Live.{replay}
use beanstalkd_rust.Std.Map
use beanstalkd_rust.Store.Scan.Written.{placed, log_of, AllEncodable}
use beanstalkd_rust.Store.Wal.{Inner, SyncPolicy, current, seg_at}
use beanstalkd_rust.Store.Wal.Append.{append}
use beanstalkd_rust.Store.Wal.Append.Core.{core}
use beanstalkd_rust.Store.Wal.Append.Durable.{append-scan_segment, empty-IsPlaced}
use beanstalkd_rust.Store.Wal.Append.Entries.{Fits, recs_of_entries}
use beanstalkd_rust.Store.Wal.Append.Image.{Holds}
use beanstalkd_rust.Store.Wal.Space.{fresh}

abbrev one_segment : Inner
one_segment = record {
  policy = SyncPolicy.always;
  seg_size = 200;
  limit = some 700;
  segs = fresh 1 200 ∷ [];
  cur = 0;
  next_index = 2;
  jobs = [];
  live_bytes = 0;
  disk_total = 200;
  pending_puts = 0;
  pending_bytes = 0;
  buf = [];
  buf_start = 16;
  unsynced = false;
  last_sync = none;
  records_written = 0;
  records_migrated = 0;
}

one_segment-Holds : Holds (core one_segment) (segment_header ++ log_of [])
unfolding seg_at fresh log_of segment_header
one_segment-Holds = record {
  opened = refl;
  held = omega arith;
  image = refl;
  inside = omega arith;
  end = refl;
  blank = (184, refl);
}

abbrev entries : List JournalEntry
entries = JournalEntry.put job (codes "mail") (codes "hello") ∷ JournalEntry.delete 7 ∷ []

entries-AllEncodable : AllEncodable (recs_of_entries entries)
unfolding recs_of_entries tube_name_new is_name_char put_rec_len
entries-AllEncodable =
    ((job-IsWritable, refl, omega arith, omega arith), ((omega arith, omega arith), tt))

entries-fit : Fits (length (log_of (recs_of_entries entries))) (core one_segment)
unfolding recs_of_entries log_of fresh seg_at framed to_le encode_jobrec
entries-fit = (omega arith, omega arith)

append-Agrees_example :
    (w' : Inner) × (append entries one_segment ≡ ok w')
    × (r : Replayed (current w').index ([] ++ recs_of_entries entries) (current w').bytes empty)
    × Agrees w'.jobs (r.0).jobs
unfolding replay placed Map.get
append-Agrees_example =
    append-Agrees [] entries one_segment empty empty one_segment-Holds empty-IsPlaced refl
      (λ q. refl) tt entries-AllEncodable entries-fit

append-scan_segment_example :
    (w' : Inner) × (append entries one_segment ≡ ok w')
    × Replayed (current w').index ([] ++ recs_of_entries entries) (current w').bytes empty
append-scan_segment_example =
    append-scan_segment [] entries one_segment one_segment-Holds tt entries-AllEncodable entries-fit
