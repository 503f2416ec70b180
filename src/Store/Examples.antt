-- ===== src/Store/Examples.antt =====
-- The theorems on the binlog at work, with a checksum that adds the bytes.
use beanstalkd_rust.Base.{
  ℕ, ◌+◌, ◌<◌, ◌≤◌, ◌%◌, ◌^◌, ◌≡◌, refl, arith, none, some, List, [], ◌∷◌, ◌++◌, Bytes, codes,
  length, take, ◌⊎◌,
}
use beanstalkd_rust.Engine.Model.{JobRecord, RecordState}
use beanstalkd_rust.Proto.Numbers.{tube_name_new, is_name_char}
use beanstalkd_rust.Std.Map
use beanstalkd_rust.Store.Format.{
  Crc32c, put_rec_len, Rec, Parsed, framed, put_payload, parse_at, restamp_put, segment_header, id,
  rec_header_len, parse_rest, decode_payload, record_crc,
}
use beanstalkd_rust.Store.Format.Restamp.{restamp_put-framed}
use beanstalkd_rust.Store.Format.Rounds.{encode, rec_len, IsEncodable, payload_of, parse_at-encode}
use beanstalkd_rust.Store.Format.Torn.{IsTorn, parse_at-IsTorn, parse_at-bounds}
use beanstalkd_rust.Store.JobRecords.{IsWritable, IsRecordId, encode_jobrec, bad_id}
use beanstalkd_rust.Store.Outcome.{Outcome}
use beanstalkd_rust.Store.Replay.{ReplayState, empty}
use beanstalkd_rust.Store.Replay.Live.{replay, replay-refines, view, log_steps, recs_of}
use beanstalkd_rust.Store.Scan.{Scan, scan}
use beanstalkd_rust.Store.Scan.CutOff.{Replayed}
use beanstalkd_rust.Store.Scan.Crash.{ChecksumFails, IsWhole, partial, scan_segment-cut_off}
use beanstalkd_rust.Store.Wal.Space.{zeros}
use beanstalkd_rust.Store.Scan.Ends.{scan-ends}
use beanstalkd_rust.Store.Scan.Written.{log_of}
use beanstalkd_rust.Store.Words.{to_le, from_le, cur_uint}
use beanstalkd_rust.Store.TubeList.{add_job, TubeList, remove_job}
use beanstalkd_rust.Store.TubeList.Kept.{add_job-IsPlaced, remove_job-IsPlaced}
use beanstalkd_rust.Store.TubeList.Placed.{IsPlaced}

abbrev pub sum : ℕ → Bytes → ℕ
sum n [] = n
sum n (b ∷ bytes) = sum (n + b) bytes

instance abbrev pub sum_crc : Crc32c
sum_crc = record {
  crc32c = λ bytes. sum 0 bytes % 2 ^ 32;
  crc32c_append = λ crc bytes. sum crc bytes % 2 ^ 32;
  append_u32 = λ crc bytes. omega arith;
}

abbrev pub job : JobRecord
job = record {
  id = 7;
  pri = 1;
  delay = 0;
  ttr = 60;
  created_at = 5;
  deadline_at = 0;
  state = RecordState.ready;
  reserve_ct = 0;
  timeout_ct = 0;
  release_ct = 0;
  bury_ct = 0;
  kick_ct = 0;
}

abbrev buried_job : JobRecord
buried_job = record job { state = RecordState.buried; bury_ct = 1 }

pub job-IsWritable : IsWritable job
job-IsWritable = record {
  id_pos = omega arith;
  id_max = omega arith;
  pri = omega arith;
  delay = omega arith;
  ttr = omega arith;
  created_at = omega arith;
  deadline_at = omega arith;
  reserve_ct = omega arith;
  timeout_ct = omega arith;
  release_ct = omega arith;
  bury_ct = omega arith;
  kick_ct = omega arith;
}

abbrev put_job : Rec
put_job = Rec.put job (codes "mail") (codes "hello")

put_job-IsEncodable : IsEncodable put_job
unfolding tube_name_new is_name_char put_rec_len
put_job-IsEncodable = (job-IsWritable, refl, omega arith, omega arith)

parse_at-encode_example :
    (b : Bytes) × (encode (codes "x") put_job ≡ (codes "x" ++ b, none))
    × (length b ≡ rec_len put_job)
    × (parse_at ((codes "x" ++ b) ++ codes "yz") (length (codes "x"))
        ≡ Parsed.rec put_job (rec_len put_job))
parse_at-encode_example = parse_at-encode (codes "x") (codes "yz") put_job put_job-IsEncodable

abbrev delete_bytes : Bytes
delete_bytes = 9 ∷ 0 ∷ 0 ∷ 0 ∷ 19 ∷ 0 ∷ 0 ∷ 0 ∷ 3 ∷ 7 ∷ 0 ∷ 0 ∷ 0 ∷ 0 ∷ 0 ∷ 0 ∷ 0 ∷ 0 ∷ []

parses : parse_at delete_bytes 0 ≡ Parsed.rec (Rec.delete 7) 17
unfolding parse_at parse_rest from_le decode_payload cur_uint bad_id
parses = refl

parse_at-bounds_example :
    (rec_header_len < 17) × (0 + 17 ≤ length delete_bytes) × IsRecordId (id (Rec.delete 7))
parse_at-bounds_example = parse_at-bounds delete_bytes 0 17 (Rec.delete 7) parses

parse_at-IsTorn_example :
    IsTorn (parse_at (codes "x" ++ take 20 (framed (payload_of put_job))) (length (codes "x")))
unfolding framed encode_jobrec to_le
parse_at-IsTorn_example =
    parse_at-IsTorn (codes "x") (payload_of put_job) 20 (omega arith) (omega arith)

restamp_put-framed_example :
    restamp_put (framed (put_payload job (codes "mail") (codes "hello"))) buried_job
    ≡ framed (put_payload buried_job (codes "mail") (codes "hello"))
restamp_put-framed_example = restamp_put-framed job buried_job (codes "mail") (codes "hello")

abbrev no_tubes : TubeList
no_tubes = record { order = []; info = [] }

no_tubes-IsPlaced : IsPlaced no_tubes
unfolding Map.get
no_tubes-IsPlaced = record {
  stands = λ tube refs pos h. ground arith;
  recorded = λ tube pos h. absurd (ground arith);
}

abbrev two_tubes : TubeList
two_tubes = add_job (codes "a") (add_job (codes "b") no_tubes)

two_tubes-IsPlaced : IsPlaced two_tubes
two_tubes-IsPlaced =
    add_job-IsPlaced _ (codes "a") (add_job-IsPlaced _ (codes "b") no_tubes-IsPlaced)

remove_job-IsPlaced_example :
    (left : TubeList) × (remove_job (codes "b") two_tubes ≡ some left) × IsPlaced left
remove_job-IsPlaced_example = remove_job-IsPlaced two_tubes (codes "b") two_tubes-IsPlaced

abbrev log : List (Rec × ℕ × ℕ × ℕ)
log = (put_job, 1, 16, 76) ∷ (Rec.update buried_job, 1, 92, 66) ∷ (Rec.delete 8, 1, 158, 17) ∷ []

replay-refines_example :
    (st' : ReplayState) × (replay log empty ≡ some st')
    × (view st'.jobs ≡ log_steps (recs_of log) (view empty.jobs))
    × IsPlaced st'.tubes
replay-refines_example = replay-refines log empty no_tubes-IsPlaced

scan-ends_example : (o : Outcome Scan) × (scan ((3, segment_header ++ delete_bytes) ∷ []) ≡ some o)
scan-ends_example = scan-ends ((3, segment_header ++ delete_bytes) ∷ [])

-- Nine bytes of a deletion are there, with the first byte of its id missing.
abbrev deletion : Rec
deletion = Rec.delete 7

deletion-part :
    partial 9 10 deletion
    ≡ 9 ∷ 0 ∷ 0 ∷ 0 ∷ 19 ∷ 0 ∷ 0 ∷ 0 ∷ 3 ∷ 0 ∷ 0 ∷ 0 ∷ 0 ∷ 0 ∷ 0 ∷ 0 ∷ 0 ∷ 0 ∷ 0 ∷ []
unfolding framed to_le zeros
deletion-part = refl

deletion-ChecksumFails : ChecksumFails (partial 9 10 deletion)
unfolding framed to_le zeros from_le record_crc
deletion-ChecksumFails e = ground arith

nine : 9 ≤ rec_len deletion
unfolding rec_len
nine = omega arith

scan_segment-cut_off_example :
    let buf = segment_header ++ (log_of (put_job ∷ []) ++ partial 9 10 deletion) in
    (¬ IsWhole 9 10 deletion × Replayed 1 (put_job ∷ []) buf empty)
    ⊎ (IsWhole 9 10 deletion × Replayed 1 (put_job ∷ deletion ∷ []) buf empty)
scan_segment-cut_off_example =
    scan_segment-cut_off 1 9 10 (put_job ∷ []) deletion empty no_tubes-IsPlaced
      (put_job-IsEncodable, tt) (omega arith, omega arith) nine (λ torn. deletion-ChecksumFails)
