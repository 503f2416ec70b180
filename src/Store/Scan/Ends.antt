-- ===== src/Store/Scan/Ends.antt =====
-- replay.rs, `scan`: the loop over the records of a file ends.
use beanstalkd_rust.Base.{
  ℕ, zero, suc, ◌+◌, ◌<◌, ◌≤◌, ◌≡◌, refl, arith, Option, none, some, List, [], ◌∷◌, ◌++◌, Bytes,
  codes, ◌∙◌, length, Option-cases, inl, inr, take, ◌==◌, true, false, Bool, ◌⊎◌, if◌then◌else◌,
  drop, not,
}
use mathlib.Core.Option
use beanstalkd_rust.Std.Map.{Map}
use beanstalkd_rust.Std.Order.{eqb, bytes_ord}
use beanstalkd_rust.Store.Format.{magic, version, Crc32c, Rec, Parsed, parse_at}
use beanstalkd_rust.Store.Format.Torn.{parse_at-bounds}
use beanstalkd_rust.Store.Outcome.{Outcome, ok, err, map_ok}
use beanstalkd_rust.Store.Replay.{ReplayState, apply, empty}
use beanstalkd_rust.Store.SegmentNames.{corrupt}
use beanstalkd_rust.Store.Words.{from_le}
use beanstalkd_rust.Store.Scan.{
  Progress, Round, Torn, ScannedSeg, Scanned, Scan, started, take_record, round_of, later_record,
  scan_round, scan_records, scan_segment, scan_files, scan, header_missing, no_records, unsupported,
  seg_of, fresh_seg,
}

-- The fuel did not run out.
abbrev Ends {ℓ} : {A : Type ℓ} → Option A → Type ℓ
Ends {A} m = (a : A) × (m ≡ some a)

if-Ends {ℓ} : {A : Type ℓ} {x y : Option A} (b : Bool) → Ends x → Ends y → Ends (if b then x else y)
if-Ends true x y = x
if-Ends false x y = y

map-Ends {ℓ κ} :
    {A : Type ℓ} {B : Type κ} (f : A → B) (m : Option A) → Ends m → Ends (Option.map f m)
map-Ends f m (a, e) = (f a, rw e)

take_record-cases :
    (rec : Rec) (n index : ℕ) (l : Progress)
    → ((o : Outcome Progress) × (take_record rec n index l ≡ Round.ended o))
      ⊎ ((l' : Progress) × (take_record rec n index l ≡ Round.again l') × (l'.pos ≡ l.pos + n))
unfolding take_record
take_record-cases rec n index l = elim (Option-cases l.torn) [
  | inl whole ↦ elim (Option-cases (apply rec index l.pos n l.st)) [
    | inl panic ↦ inl (err (codes "panic"), rw (take_record, whole, panic))
    | inr (st, e) ↦
        inr (record l { st = st; has_records = true; pos = l.pos + n }, ground arith, refl)
  ]
  | inr ((ti, toff, why), e) ↦ inl (err (later_record ti toff why index l.pos), rw (take_record, e))
]

Parsed-cases :
    (index : ℕ) (buf : Bytes) (l : Progress) (p : Parsed)
    → ((rec : Rec) × (n : ℕ) × (p ≡ Parsed.rec rec n)
        × (round_of index buf l p ≡ take_record rec n index l))
      ⊎ ((o : Outcome Progress) × (round_of index buf l p ≡ Round.ended o))
unfolding round_of
Parsed-cases index buf l Parsed.end = inr (_, refl)
Parsed-cases index buf l (Parsed.rec rec n) = inl (rec, n, refl, refl)
Parsed-cases index buf l (Parsed.bad why) = inr (_, refl)
Parsed-cases index buf l (Parsed.malformed why) = inr (_, refl)

module _ ⦃crc : Crc32c⦄ where
  -- A round ends the loop, or moves it forward within the file.
  scan_round-cases :
      (index : ℕ) (buf : Bytes) (l : Progress)
      → ((o : Outcome Progress) × (scan_round index buf l ≡ Round.ended o))
        ⊎ ((l' : Progress) × (scan_round index buf l ≡ Round.again l')
            × (l.pos < l'.pos)
            × (l'.pos ≤ length buf))
  unfolding scan_round
  scan_round-cases index buf l = elim (Parsed-cases index buf l (parse_at buf l.pos)) [
    | inr ends ↦ inl ends
    | inl (rec, n, e, result) ↦
        let (long, fits, valid) = parse_at-bounds buf l.pos n rec e in
        elim (take_record-cases rec n index l) [
          | inl (o, taken) ↦ inl (o, result ∙ taken)
          | inr (l', taken, moved) ↦ inr (l', result ∙ taken, omega arith, omega arith)
        ]
  ]

  scan_records-Ends :
      (fuel index : ℕ) (buf : Bytes) (l : Progress)
      → 0 < fuel
      → length buf < l.pos + fuel
      → Ends (scan_records fuel index buf l)
  unfolding scan_records
  scan_records-Ends zero index buf l h k = absurd (omega arith)
  scan_records-Ends (suc fuel) index buf l h k = elim (scan_round-cases index buf l) [
    | inl (o, e) ↦ (o, rw (scan_records, e))
    | inr (l', e, less, inside) ↦
        let (o, rest) = scan_records-Ends fuel index buf l' (omega arith) (omega arith) in
        (o, rw (scan_records, e) rest)
  ]

  scan_segment-Ends :
      (index : ℕ) (buf : Bytes) (st : ReplayState) (torn : Torn)
      → Ends (scan_segment index buf st torn)
  unfolding scan_segment
  scan_segment-Ends index buf st torn =
      let records =
        scan_records-Ends (suc (length buf)) index buf (started st torn) (omega arith)
          (omega arith) in
      let ver = from_le (take 4 (drop 8 buf)) in
      if-Ends (header_missing buf) (ok (no_records index buf st torn), refl)
        (if-Ends (not (eqb (take 8 buf) magic)) (err (corrupt index 0 (codes "bad magic")), refl)
          (if-Ends (not (ver == version)) (err (unsupported index ver), refl)
            (map-Ends (map_ok (seg_of (fresh_seg index buf))) _ records)))

  scan_files-Ends :
      (found : List (ℕ × Bytes)) (st : ReplayState) (torn : Torn) (segs : List ScannedSeg)
      → Ends (scan_files found st torn segs)
  unfolding scan_files
  scan_files-Ends [] st torn segs = (ok (st, torn, segs), refl)
  scan_files-Ends ((index, buf) ∷ found) st torn segs =
      let (o, e) = scan_segment-Ends index buf st torn in go o e (scan_files-Ends found)
    where
      go :
          (o : Outcome Scanned)
          → scan_segment index buf st torn ≡ some o
          → ((st' : ReplayState) (torn' : Torn) (segs' : List ScannedSeg)
              → Ends (scan_files found st' torn' segs'))
          → Ends (scan_files ((index, buf) ∷ found) st torn segs)
      go (err why) e rest = (err why, rw (scan_files, e))
      go (ok (st', torn', seg)) e rest =
          let (o, after) = rest st' torn' (segs ++ seg ∷ []) in (o, rw (scan_files, e) after)

  -- Whatever the files hold, the scan comes to an end, with a result or an error: the loop over the
  -- records of a file never needs more rounds than the file has bytes.
  pub scan-ends : (found : Map ℕ Bytes) → (o : Outcome Scan) × (scan found ≡ some o)
  unfolding scan
  scan-ends found = map-Ends _ _ (scan_files-Ends found empty none [])
