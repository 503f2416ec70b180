-- ===== src/Store/Scan/CutOff.antt =====
-- replay.rs, `scan`: a segment holds the jobs of the records before the first that is not read.
use beanstalkd_rust.Base.{
  ℕ, suc, ◌+◌, ◌-◌, ◌<◌, ◌≤◌, ◌≡◌, refl, ap, ◌∙◌, arith, none, some, List, [], ◌∷◌, ◌++◌, Bytes,
  codes, length, length-append, append_assoc, Bool-cases, inl, inr, ◌⊎◌, take, drop, true, false,
  Bool, is_empty, not, any, ◌==◌,
}
use mathlib.Core.Option
use beanstalkd_rust.Std.Order.{eqb, bytes_ord, bytes_cmp}
use beanstalkd_rust.Store.Words.{from_le}
use beanstalkd_rust.Store.Format.{
  Crc32c, Parsed, magic, Rec, framed, parse_at, seg_header_len, segment_header,
}
use beanstalkd_rust.Store.Format.Rounds.{
  rec_len, rec_len-pos, rec_len-le, payload_of-length, IsEncodable, framed-rec_len, payload_of,
}
use beanstalkd_rust.Store.Format.Torn.{IsTorn, parse_at-IsTorn}
use beanstalkd_rust.Store.Outcome.{ok, map_ok}
use beanstalkd_rust.Store.Replay.{ReplayState}
use beanstalkd_rust.Store.Replay.Live.{replay, replay-refines, view, log_steps}
use beanstalkd_rust.Store.Scan.{
  Progress, Round, Torn, scan_round, scan_records, scan_segment, round_of, torn_at, set_torn,
  end_of_records, header_missing, seg_of, fresh_seg,
}
use beanstalkd_rust.Store.Scan.Written.{
  AllEncodable, placed, recs_of-placed, log_of, log_of-pos, clean, scan_records-log_of,
  scan_records-ended,
}
use beanstalkd_rust.Store.TubeList.Placed.{IsPlaced}

-- The loop behind the last record, with what is torn there, if anything.
abbrev at_end : ReplayState → Bool → ℕ → Torn → Progress
at_end st has pos torn = record { st = st; torn = torn; has_records = has; pos = pos }

end_of_records-cases :
    (index : ℕ) (buf : Bytes) (st : ReplayState) (has : Bool) (pos : ℕ)
    → (torn : Torn) × (end_of_records index buf (clean st has pos) ≡ at_end st has pos torn)
unfolding end_of_records torn_at
end_of_records-cases index buf st has pos =
    elim (Bool-cases (any (λ b. not (b == 0)) (drop pos buf))) [
      | inl some_left ↦ (
        (torn_at index (codes "non-zero bytes after end of records") (clean st has pos)).torn,
        rw (end_of_records, some_left),
      )
      | inr zeros ↦ (none, rw (end_of_records, zeros))
    ]

-- No record is read, and the scan of the segment goes no further.
abbrev pub IsUnread : Parsed → Type 0
IsUnread p = (p ≡ Parsed.end) ⊎ ((why : Bytes) × (p ≡ Parsed.bad why))

IsTorn-IsUnread : ⦃crc : Crc32c⦄ (p : Parsed) → IsTorn p → IsUnread p
IsTorn-IsUnread p (inl e) = inl e
IsTorn-IsUnread p (inr (inl e)) = inr (codes "truncated record header", e)
IsTorn-IsUnread p (inr (inr e)) = inr (codes "record extends past end of file", e)

written-header :
    (rest : Bytes)
    → (header_missing (segment_header ++ rest) ≡ false)
      × (eqb (take 8 (segment_header ++ rest)) magic ≡ true)
      × (from_le (take 4 (drop 8 (segment_header ++ rest))) ≡ 1)
unfolding header_missing segment_header bytes_cmp from_le
written-header rest = (ground arith, refl, refl)

module _ ⦃crc : Crc32c⦄ where
  scan_round-torn :
      (index : ℕ) (buf : Bytes) (st : ReplayState) (has : Bool) (pos : ℕ)
      → IsUnread (parse_at buf pos)
      → (torn : Torn) × (scan_round index buf (clean st has pos)
          ≡ Round.ended (ok (at_end st has pos torn)))
  unfolding scan_round round_of torn_at set_torn
  scan_round-torn index buf st has pos (inl ends) =
      let (torn, e) = end_of_records-cases index buf st has pos in (torn, rw (scan_round, ends, e))
  scan_round-torn index buf st has pos (inr (why, cut)) =
      (some (index, pos, why), rw (scan_round, cut))

  log_of-le : (recs : List Rec) → length recs ≤ length (log_of recs)
  unfolding log_of rec_len
  log_of-le [] = omega arith
  log_of-le (rec ∷ recs) = omega (arith, log_of-pos rec recs, log_of-le recs, rec_len-pos rec)

  scan_segment-written :
      (index : ℕ) (rest : Bytes) (st : ReplayState)
      → let buf = segment_header ++ rest in
        scan_segment index buf st none
        ≡ Option.map
            (map_ok (seg_of (fresh_seg index buf)))
            (scan_records (suc (length buf)) index buf (clean st false seg_header_len))
  unfolding scan_segment
  scan_segment-written index rest st =
      let (present, good, current) = written-header rest in
      rw (scan_segment, present, good, current)

  -- The loop over a segment that holds records and then what is read as torn.
  scan_records-torn :
      (index : ℕ) (recs : List Rec) (tail : Bytes) (st st' : ReplayState)
      → let buf = segment_header ++ (log_of recs ++ tail) in
        let end = seg_header_len + length (log_of recs) in
        AllEncodable recs
        → replay (placed index seg_header_len recs) st ≡ some st'
        → IsUnread (parse_at buf end)
        → (torn : Torn) × (scan_records (suc (length buf)) index buf (clean st false seg_header_len)
            ≡ some (ok (at_end st' (not (is_empty recs)) end torn)))
  unfolding segment_header
  scan_records-torn index recs tail st st' v played cut =
      let buf = segment_header ++ (log_of recs ++ tail) in
      let end = seg_header_len + length (log_of recs) in
      let few = log_of-le recs in
      let size = length-append (log_of recs) tail in
      let fuel = length buf - length recs in
      let rounds : suc (length buf) ≡ length recs + suc fuel = omega arith in
      let (torn, last) = scan_round-torn index buf st' (not (is_empty recs)) end cut in
      let read =
        scan_records-log_of recs (suc fuel) index segment_header tail buf st st' false v refl
          played in
      (
        torn,
        ap (λ n. scan_records n index buf (clean st false seg_header_len)) rounds
            ∙ read
            ∙ scan_records-ended fuel index buf (clean st' (not (is_empty recs)) end) _ last,
      )

  IsTorn-tail :
      (recs : List Rec) (rec : Rec) (k : ℕ)
      → IsEncodable rec
      → k < rec_len rec
      → IsTorn (
          parse_at
            (segment_header ++ (log_of recs ++ take k (framed (payload_of rec))))
            (seg_header_len + length (log_of recs)))
  unfolding segment_header
  IsTorn-tail recs rec k v h =
      let payload = payload_of rec in
      let before = segment_header ++ log_of recs in
      let size = payload_of-length rec in
      let fits = rec_len-le rec v in
      let whole = framed-rec_len rec in
      let cut = parse_at-IsTorn before payload k (omega arith) (omega arith) in
      let place : length before ≡ seg_header_len + length (log_of recs) = omega arith in
      rw (append_assoc, place) at cut

  -- The scan of a segment's file gives the jobs that these records leave alive, and says that they
  -- end where the file is valid.
  abbrev pub Replayed : ℕ → List Rec → Bytes → ReplayState → Type 0
  Replayed index recs buf st =
      (st' : ReplayState) × (torn : Torn) × (scan_segment index buf st none
        ≡ some (
            ok (
              st',
              torn,
              record {
                index = index;
                file_len = length buf;
                valid_end = seg_header_len + length (log_of recs);
                has_records = not (is_empty recs);
              },
            )))
      × (view st'.jobs ≡ log_steps recs (view st.jobs))
      × IsPlaced st'.tubes

  -- A segment of records, and behind them what is read as torn: the records are replayed.
  pub scan_segment-played :
      (index : ℕ) (recs : List Rec) (tail : Bytes) (st : ReplayState)
      → IsPlaced st.tubes
      → AllEncodable recs
      → let buf = segment_header ++ (log_of recs ++ tail) in
        IsUnread (parse_at buf (seg_header_len + length (log_of recs)))
        → (r : Replayed index recs buf st) × (replay (placed index seg_header_len recs) st
            ≡ some r.0)
  unfolding seg_of fresh_seg
  scan_segment-played index recs tail st placed_tubes v cut =
      let buf = segment_header ++ (log_of recs ++ tail) in
      let (st', played, live, kept) =
        replay-refines (placed index seg_header_len recs) st placed_tubes in
      let named = ap (λ r. log_steps r (view st.jobs)) (recs_of-placed index seg_header_len recs) in
      let (torn, read) = scan_records-torn index recs tail st st' v played cut in
      (
        (
          st',
          torn,
          scan_segment-written index (log_of recs ++ tail) st
              ∙ ap (Option.map (map_ok (seg_of (fresh_seg index buf)))) read,
          live ∙ named,
          kept,
        ),
        played,
      )

  -- Of a segment whose file ends within its last record, every record before is replayed: the jobs
  -- kept are those that these records leave alive, and the segment is valid up to where the last
  -- record began. The records are encodable, and every tube is recorded at its place at first, as
  -- in the empty state.
  pub scan_segment-shortened :
      (index k : ℕ) (recs : List Rec) (rec : Rec) (st : ReplayState)
      → IsPlaced st.tubes
      → AllEncodable recs
      → IsEncodable rec
      → k < rec_len rec
      → let buf = segment_header ++ (log_of recs ++ take k (framed (payload_of rec))) in
        Replayed index recs buf st
  scan_segment-shortened index k recs rec st placed_tubes v last h =
      (scan_segment-played index recs (take k (framed (payload_of rec))) st placed_tubes v
        (IsTorn-IsUnread _ (IsTorn-tail recs rec k last h))).0
