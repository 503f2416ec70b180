-- ===== src/Store/Scan/Crash.antt =====
-- replay.rs, `scan`: a preallocated segment whose writing was cut off within a record.
use beanstalkd_rust.Base.{
  ℕ, ◌+◌, ◌-◌, ◌≤◌, ◌≡◌, ◌≢◌, sym, ap, ◌∙◌, arith, false, List, [], ◌∷◌, ◌++◌, Bytes, codes, length,
  length-take, take, drop, take-append-drop, drop-append_past, append_assoc, append-nil, Bool-cases,
  inl, inr, ◌⊎◌, ltb, ◌==◌, all, subst, true-ne_false,
}
use beanstalkd_rust.Std.Order.{eqb, bytes-eqb, bytes_ord}
use beanstalkd_rust.Store.Format.{
  Crc32c, Rec, framed, parse_rest, record_crc, segment_header, rec_header_len,
}
use beanstalkd_rust.Store.Format.Rounds.{IsEncodable, rec_len, payload_of, framed-rec_len}
use beanstalkd_rust.Store.Replay.{ReplayState}
use beanstalkd_rust.Store.Scan.Blank.{
  AllEncodable-append, drop-zeros, log_of-append, parse_at-blank, parse_at-behind,
}
use beanstalkd_rust.Store.Scan.CutOff.{IsUnread, Replayed, scan_segment-played}
use beanstalkd_rust.Store.Scan.Written.{AllEncodable, log_of}
use beanstalkd_rust.Store.TubeList.Placed.{IsPlaced}
use beanstalkd_rust.Store.Wal.Space.{zeros}
use beanstalkd_rust.Store.Words.{from_le}

module _ ⦃crc : Crc32c⦄ where
  -- What stands there as a record's checksum is not that of what stands there as its length and
  -- payload.
  abbrev pub ChecksumFails : Bytes → Type 0
  ChecksumFails rest =
      record_crc (take 4 rest) (take (from_le (take 4 rest)) (drop rec_header_len rest))
      ≢ from_le (take 4 (drop 4 rest))

  -- The first `k` bytes of a record, and the blanks of the preallocated segment behind them.
  abbrev pub partial : ℕ → ℕ → Rec → Bytes
  partial k blanks rec = take k (framed (payload_of rec)) ++ zeros blanks

  -- All bytes of the record are there: those that were not written are zeros.
  abbrev pub IsWhole : ℕ → ℕ → Rec → Type 0
  IsWhole k blanks rec = take (rec_len rec) (partial k blanks rec) ≡ framed (payload_of rec)

  parse_rest-IsUnread : (rest : Bytes) → ChecksumFails rest → IsUnread (parse_rest rest)
  unfolding parse_rest
  parse_rest-IsUnread rest fails =
      let len = from_le (take 4 rest) in
      let payload = take len (drop rec_header_len rest) in
      let stored = from_le (take 4 (drop 4 rest)) in
      let mismatch : (record_crc (take 4 rest) payload == stored) ≡ false = ground (arith, fails) in
      elim (Bool-cases (ltb (length rest) rec_header_len)) [
        | inl few ↦ elim (Bool-cases (all (λ b. b == 0) rest)) [
          | inl blank ↦ inl (rw (few, blank))
          | inr others ↦ inr (codes "truncated record header", rw (few, others))
        ]
        | inr enough ↦ elim (Bool-cases (len == 0)) [
          | inl zero ↦ inl (rw (enough, zero))
          | inr more ↦ elim (Bool-cases (ltb (length rest) (rec_header_len + len))) [
            | inl past ↦ inr (codes "record extends past end of file", rw (enough, more, past))
            | inr inside ↦ inr (codes "CRC mismatch", rw (enough, more, inside, mismatch))
          ]
        ]
      ]

  -- A record that is whole is the record, with blanks behind it.
  partial-IsWhole :
      (k blanks : ℕ) (rec : Rec)
      → k ≤ rec_len rec
      → IsWhole k blanks rec
      → (n : ℕ) × (partial k blanks rec ≡ framed (payload_of rec) ++ zeros n)
  partial-IsWhole k blanks rec small whole =
      let f = framed (payload_of rec) in
      let size = framed-rec_len rec in
      let left = rec_len rec - k in
      let cut : length (take k f) ≡ k = let e = length-take k f in omega arith in
      let place : rec_len rec ≡ length (take k f) + left = omega arith in
      let behind : drop (rec_len rec) (partial k blanks rec) ≡ zeros (blanks - left) =
        ap (λ n. drop n (partial k blanks rec)) place
        ∙ drop-append_past (take k f) (zeros blanks) left
        ∙ drop-zeros left blanks in
      (
        blanks - left,
        sym (take-append-drop (rec_len rec) (partial k blanks rec))
            ∙ ap (λ l. l ++ drop (rec_len rec) (partial k blanks rec)) whole
            ∙ ap (λ l. f ++ l) behind,
      )

  log_of-last :
      (recs : List Rec) (rec : Rec)
      → log_of (recs ++ rec ∷ []) ≡ log_of recs ++ framed (payload_of rec)
  unfolding log_of
  log_of-last recs rec = log_of-append recs (rec ∷ []) ∙ ap (λ l. log_of recs ++ l) (append-nil _)

  -- A crash while the last record was being written into a preallocated segment: `k` bytes of it
  -- are there, and zeros behind them. If not all of its bytes are there, every record before is
  -- replayed, and no other: the jobs kept are those that these records leave alive, and the segment
  -- is valid up to where the last record began. If they are, because what is missing is zeros, the
  -- last record is replayed too. The records are encodable, every tube is recorded at its place at
  -- first, as in the empty state, and the checksum does not fit to a record that is not whole.
  pub scan_segment-cut_off :
      (index k blanks : ℕ) (recs : List Rec) (rec : Rec) (st : ReplayState)
      → IsPlaced st.tubes
      → AllEncodable recs
      → IsEncodable rec
      → k ≤ rec_len rec
      → (¬ IsWhole k blanks rec → ChecksumFails (partial k blanks rec))
      → let buf = segment_header ++ (log_of recs ++ partial k blanks rec) in
        (¬ IsWhole k blanks rec × Replayed index recs buf st)
        ⊎ (IsWhole k blanks rec × Replayed index (recs ++ rec ∷ []) buf st)
  scan_segment-cut_off index k blanks recs rec st tubes v u small detects =
      let t = partial k blanks rec in
      let f = framed (payload_of rec) in
      elim (Bool-cases (eqb (take (rec_len rec) t) f)) [
        | inl same ↦
            let whole = (bytes-eqb (take (rec_len rec) t) f).0 same in
            let (n, e) = partial-IsWhole k blanks rec small whole in
            let all_recs = recs ++ rec ∷ [] in
            let file : segment_header ++ (log_of all_recs ++ zeros n)
                ≡ segment_header ++ (log_of recs ++ t) =
              ap (λ l. segment_header ++ l)
                (ap (λ l. l ++ zeros n) (log_of-last recs rec)
                  ∙ append_assoc (log_of recs) f (zeros n)
                  ∙ ap (λ l. log_of recs ++ l) (sym e)) in
            inr (
              whole,
              subst (λ buf. Replayed index all_recs buf st) file
                  (scan_segment-played index all_recs (zeros n) st tubes
                    (AllEncodable-append recs (rec ∷ []) v (u, tt))
                    (inl (parse_at-blank all_recs n))).0,
            )
        | inr other ↦
            let torn : ¬ IsWhole k blanks rec =
              λ whole. true-ne_false (sym ((bytes-eqb (take (rec_len rec) t) f).1 whole) ∙ other) in
            inl (
              torn,
              (scan_segment-played index recs t st tubes v (
                  subst IsUnread (sym (parse_at-behind recs t))
                    (parse_rest-IsUnread t (detects torn)))).0,
            )
      ]
