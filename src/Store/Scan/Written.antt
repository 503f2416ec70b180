-- ===== src/Store/Scan/Written.antt =====
-- replay.rs, `scan`: a segment is read back up to where its writing was cut off.
use beanstalkd_rust.Base.{
  ℕ, suc, ◌+◌, ◌≡◌, refl, ap, ◌∙◌, arith, none, some, List, [], ◌∷◌, ◌++◌, Bytes, length,
  length-append, append_assoc, Option-cases, some-inj, inl, inr, true, false, Bool, is_empty, not,
  ◌||◌,
}
use beanstalkd_rust.Store.Format.{Crc32c, Rec, Parsed, framed, parse_at}
use beanstalkd_rust.Store.Format.Rounds.{
  IsEncodable, payload_of, rec_len, parse_at-framed, framed-rec_len,
}
use beanstalkd_rust.Store.Outcome.{Outcome}
use beanstalkd_rust.Store.Replay.{ReplayState, apply}
use beanstalkd_rust.Store.Replay.Live.{replay, recs_of}
use beanstalkd_rust.Store.Scan.{Progress, Round, take_record, scan_round, scan_records, round_of}

-- The loop, with no torn record seen.
abbrev pub clean : ReplayState → Bool → ℕ → Progress
clean st has pos = record { st = st; torn = none; has_records = has; pos = pos }

abbrev pub AllEncodable : List Rec → Type 0
AllEncodable [] = Unit
AllEncodable (rec ∷ recs) = IsEncodable rec × AllEncodable recs

-- Records with the places at which they stand in a segment, from an offset on.
unfoldable pub placed : ℕ → ℕ → List Rec → List (Rec × ℕ × ℕ × ℕ)
placed index pos [] = []
placed index pos (rec ∷ recs) =
    (rec, index, pos, rec_len rec) ∷ placed index (pos + rec_len rec) recs

pub recs_of-placed : (index pos : ℕ) (recs : List Rec) → recs_of (placed index pos recs) ≡ recs
unfolding recs_of placed
recs_of-placed index pos [] = refl
recs_of-placed index pos (rec ∷ recs) = ap (◌∷◌ rec) (recs_of-placed index (pos + rec_len rec) recs)

module _ ⦃crc : Crc32c⦄ where
  -- The bytes of the records, one behind another.
  unfoldable pub log_of : List Rec → Bytes
  log_of [] = []
  log_of (rec ∷ recs) = framed (payload_of rec) ++ log_of recs

  pub log_of-pos :
      (rec : Rec) (recs : List Rec)
      → length (log_of (rec ∷ recs)) ≡ rec_len rec + length (log_of recs)
  unfolding log_of
  log_of-pos rec recs =
      length-append (framed (payload_of rec)) (log_of recs)
      ∙ ap (λ n. n + length (log_of recs)) (framed-rec_len rec)

  scan_records-again :
      (fuel index : ℕ) (buf : Bytes) (l l' : Progress)
      → scan_round index buf l ≡ Round.again l'
      → scan_records (suc fuel) index buf l ≡ scan_records fuel index buf l'
  unfolding scan_records
  scan_records-again fuel index buf l l' e = rw (scan_records, e)

  pub scan_records-ended :
      (fuel index : ℕ) (buf : Bytes) (l : Progress) (o : Outcome Progress)
      → scan_round index buf l ≡ Round.ended o
      → scan_records (suc fuel) index buf l ≡ some o
  unfolding scan_records
  scan_records-ended fuel index buf l o e = rw (scan_records, e)

  scan_round-again :
      (index pos n : ℕ) (buf : Bytes) (st next : ReplayState) (has : Bool) (rec : Rec)
      → parse_at buf pos ≡ Parsed.rec rec n
      → apply rec index pos n st ≡ some next
      → scan_round index buf (clean st has pos) ≡ Round.again (clean next true (pos + n))
  unfolding scan_round round_of take_record
  scan_round-again index pos n buf st next has rec parsed e =
      rw (scan_round, parsed, take_record, e)

  -- The loop reads the records that were written, and stands behind them.
  pub scan_records-log_of :
      (recs : List Rec) (fuel index : ℕ) (before tail buf : Bytes) (st st' : ReplayState)
      (has : Bool)
      → AllEncodable recs
      → buf ≡ before ++ (log_of recs ++ tail)
      → replay (placed index (length before) recs) st ≡ some st'
      → scan_records (length recs + fuel) index buf (clean st has (length before))
        ≡ scan_records fuel index buf
            (clean st' (has || not (is_empty recs)) (length before + length (log_of recs)))
  unfolding replay placed log_of
  scan_records-log_of [] fuel index before tail buf st st' has v whole played =
      let same = some-inj played in
      let none_read : has || false ≡ has = ground arith in
      let here : length before + 0 ≡ length before = omega arith in
      let rounds : 0 + fuel ≡ fuel = omega arith in rw (same, none_read, here, rounds)
  scan_records-log_of (rec ∷ recs) fuel index before tail buf st st' has (v, vs) whole played =
      elim (Option-cases (apply rec index (length before) (rec_len rec) st)) [
        | inl n ↦ let played' = rw (replay, n) at played in ground arith
        | inr (next, e) ↦
            let b = framed (payload_of rec) in
            let split : buf ≡ (before ++ b) ++ (log_of recs ++ tail) = whole ∙ simp append_assoc in
            let parsed =
              ap (λ k. parse_at k (length before)) split
              ∙ parse_at-framed before (log_of recs ++ tail) rec v in
            let moved : length (before ++ b) ≡ length before + rec_len rec =
              length-append before b ∙ ap (λ n. length before + n) (framed-rec_len rec) in
            let played' = rw (replay, e) at played in
            let round =
              scan_round-again index (length before) (rec_len rec) buf st next has rec parsed e in
            let rest =
              scan_records-log_of recs fuel index (before ++ b) tail buf next st' true vs split
                (rw moved played') in
            let size = log_of-pos rec recs in
            let behind : length (before ++ b) + length (log_of recs)
                ≡ length before + length (log_of (rec ∷ recs)) =
              omega arith in
            let rounds : suc (length recs) + fuel ≡ suc (length recs + fuel) = omega arith in
            let read : has || true ≡ true = ground arith in
            let rest' = rw (behind, moved) at rest in
            rw (rounds, scan_records-again (length recs + fuel) index buf _ _ round, read) rest'
      ]
