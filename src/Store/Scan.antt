-- ===== src/Store/Scan.antt =====
-- crates/store/src/replay.rs: the scan of the segment files. The directory is the files' numbers
-- with their bytes; a map lists them in the order that the scan sorts them into.
pub mod Ends
pub mod Written
pub mod Blank
pub mod CutOff
pub mod Crash
use beanstalkd_rust.Base.{
  ℕ, zero, suc, ◌+◌, ◌-◌, ◌≡◌, max, Bool, true, false, ◌&&◌, ◌||◌, not, Option, none, some, List,
  [], ◌∷◌, ◌++◌, Bytes, codes, length, take, drop, all, any, ltb, leb, ◌==◌, is_some, is_empty,
  if◌then◌else◌, saturating_add, max_u64,
}
use mathlib.Core.Option
use beanstalkd_rust.Proto.Decimal.{decimal}
use beanstalkd_rust.Proto.Types.{TubeName, JobId}
use beanstalkd_rust.Std.Map.{Map}
use beanstalkd_rust.Std.Order.{eqb, bytes_ord, nat_ord}
use beanstalkd_rust.Store.Format.{Crc32c, Rec, Parsed, magic, version, seg_header_len, parse_at}
use beanstalkd_rust.Store.Outcome.{Outcome, ok, err, map_ok}
use beanstalkd_rust.Store.Replay.{ReplayJob, ReplayState, apply, empty}
use beanstalkd_rust.Store.SegmentNames.{segment_name, corrupt}
use beanstalkd_rust.Store.Words.{from_le}

pub record ScannedSeg : Type 0 where
  pub index : ℕ
  pub file_len : ℕ
  pub valid_end : ℕ
  pub has_records : Bool

-- The segment, the offset and the reason of the torn tail.
abbrev pub Torn : Type 0
Torn = Option (ℕ × ℕ × Bytes)

pub record Scan : Type 0 where
  pub segs : List ScannedSeg
  pub max_index : ℕ
  pub jobs : Map JobId ReplayJob
  pub next_id : JobId
  pub tube_order : List TubeName
  pub torn : Torn

-- `if torn.is_none() { torn = Some((index, off, why)) }`
unfoldable pub set_torn : ℕ → ℕ → Bytes → Torn → Torn
set_torn index off why none = some (index, off, why)
set_torn index off why (some t) = some t

pub record Progress : Type 0 where
  pub st : ReplayState
  pub torn : Torn
  pub has_records : Bool
  pub pos : ℕ

-- A round of the loop over the records of a segment: it ends, or it goes on.
pub data Round : Type 0 where
  ended : Outcome Progress → Round
  again : Progress → Round

abbrev pub later_record : ℕ → ℕ → Bytes → ℕ → ℕ → Bytes
later_record ti toff why index pos =
    corrupt ti toff why
    ++ codes ", but "
    ++ segment_name index
    ++ codes " offset "
    ++ decimal pos
    ++ codes " holds a later valid record"

-- `st.apply(rec, …)`; a panic in it is an error here.
unfoldable pub take_record : Rec → ℕ → ℕ → Progress → Round
unfolding apply corrupt
take_record rec len index l = elim l.torn [
  | some (ti, toff, why) ↦ Round.ended (err (later_record ti toff why index l.pos))
  | none ↦ elim (apply rec index l.pos len l.st) [
    | none ↦ Round.ended (err (codes "panic"))
    | some st ↦ Round.again (record l { st = st; has_records = true; pos = l.pos + len })
  ]
]

unfoldable pub torn_at : ℕ → Bytes → Progress → Progress
unfolding set_torn
torn_at index why l = record l { torn = set_torn index l.pos why l.torn }

unfoldable pub end_of_records : ℕ → Bytes → Progress → Progress
unfolding torn_at
end_of_records index buf l =
    if any (λ b. not (b == 0)) (drop l.pos buf)
    then torn_at index (codes "non-zero bytes after end of records") l
    else l

unfoldable pub round_of : ℕ → Bytes → Progress → Parsed → Round
unfolding take_record corrupt torn_at end_of_records
round_of index buf l Parsed.end = Round.ended (ok (end_of_records index buf l))
round_of index buf l (Parsed.rec rec len) = take_record rec len index l
round_of index buf l (Parsed.malformed why) = Round.ended (err (corrupt index l.pos why))
round_of index buf l (Parsed.bad why) = Round.ended (ok (torn_at index why l))

-- The loop begins behind the header of the segment.
abbrev pub started : ReplayState → Torn → Progress
started st torn = record { st = st; torn = torn; has_records = false; pos = seg_header_len }

abbrev pub Scanned : Type 0
Scanned = ReplayState × Torn × ScannedSeg

header_missing : Bytes → Bool
header_missing buf = ltb (length buf) seg_header_len || all (λ b. b == 0) (take seg_header_len buf)

fresh_seg : ℕ → Bytes → ScannedSeg
fresh_seg index buf = record {
  index = index;
  file_len = length buf;
  valid_end = 0;
  has_records = false;
}

no_records : ℕ → Bytes → ReplayState → Torn → Scanned
unfolding fresh_seg set_torn
no_records index buf st torn =
    let torn' =
      if any (λ b. not (b == 0)) buf
      then set_torn index seg_header_len (codes "incomplete segment header") torn
      else torn in
    (st, torn', fresh_seg index buf)

unsupported : ℕ → ℕ → Bytes
unfolding segment_name
unsupported index ver = segment_name index ++ codes ": unsupported format version " ++ decimal ver

seg_of : ScannedSeg → Progress → Scanned
seg_of seg l = (l.st, l.torn, record seg { valid_end = l.pos; has_records = l.has_records })

last_index : List (ℕ × Bytes) → ℕ
last_index [] = 0
last_index ((index, buf) ∷ []) = index
last_index (f ∷ g ∷ found) = last_index (g ∷ found)

scan_of : List (ℕ × Bytes) → ReplayState × Torn × List ScannedSeg → Scan
unfolding last_index
scan_of found (st, torn, segs) = record {
  segs = segs;
  max_index = last_index found;
  jobs = st.jobs;
  next_id = max (saturating_add st.max_id 1) 1;
  tube_order = st.tubes.order;
  torn = torn;
}

module _ ⦃crc : Crc32c⦄ where
  unfoldable pub scan_round : ℕ → Bytes → Progress → Round
  unfolding parse_at round_of
  scan_round index buf l = round_of index buf l (parse_at buf l.pos)

  -- `none`: the fuel ran out.
  unfoldable pub scan_records : ℕ → ℕ → Bytes → Progress → Option (Outcome Progress)
  unfolding scan_round
  scan_records zero index buf l = none
  scan_records (suc fuel) index buf l = elim (scan_round index buf l) [
    | Round.ended o ↦ some o
    | Round.again l ↦ scan_records fuel index buf l
  ]

  -- A round of the loop over the files; the fuel is one round more than the file has bytes.
  unfoldable pub scan_segment : ℕ → Bytes → ReplayState → Torn → Option (Outcome Scanned)
  unfolding header_missing no_records unsupported seg_of scan_records corrupt
  scan_segment index buf st torn =
      let ver = from_le (take 4 (drop 8 buf)) in
      if header_missing buf
      then some (ok (no_records index buf st torn))
      else if not (eqb (take 8 buf) magic)
      then some (err (corrupt index 0 (codes "bad magic")))
      else if not (ver == version)
      then some (err (unsupported index ver))
      else Option.map (map_ok (seg_of (fresh_seg index buf)))
          (scan_records (suc (length buf)) index buf (started st torn))

  scan_files :
      List (ℕ × Bytes)
      → ReplayState
      → Torn
      → List ScannedSeg
      → Option (Outcome (ReplayState × Torn × List ScannedSeg))
  unfolding scan_segment
  scan_files [] st torn segs = some (ok (st, torn, segs))
  scan_files ((index, buf) ∷ found) st torn segs = elim (scan_segment index buf st torn) [
    | none ↦ none
    | some (err why) ↦ some (err why)
    | some (ok (st', torn', seg)) ↦ scan_files found st' torn' (segs ++ seg ∷ [])
  ]

  unfoldable pub scan : Map ℕ Bytes → Option (Outcome Scan)
  unfolding scan_files scan_of
  scan found = Option.map (map_ok (scan_of found)) (scan_files found empty none [])
