-- ===== src/Store/Scan/Blank.antt =====
-- replay.rs and wal.rs: a segment is preallocated, and the blanks behind its records end them.
use beanstalkd_rust.Base.{
  ℕ, zero, suc, ◌+◌, ◌-◌, ◌≡◌, refl, sym, ap, ◌∙◌, arith, List, [], ◌∷◌, ◌++◌, Bytes, length, drop,
  drop-length, append_assoc,
}
use beanstalkd_rust.Store.Format.{
  Crc32c, Rec, Parsed, framed, parse_at, parse_rest, seg_header_len, segment_header,
}
use beanstalkd_rust.Store.Format.Rounds.{payload_of}
use beanstalkd_rust.Store.Scan.Written.{AllEncodable, log_of}
use beanstalkd_rust.Store.Wal.Space.{zeros}
use beanstalkd_rust.Store.Words.{from_le}

pub drop-zeros : (k n : ℕ) → drop k (zeros n) ≡ zeros (n - k)
unfolding zeros
drop-zeros zero n = let e : n - 0 ≡ n = omega arith in rw e
drop-zeros (suc k) zero = let e : 0 - suc k ≡ 0 = omega arith in rw e
drop-zeros (suc k) (suc n) = let e : suc n - suc k ≡ n - k = omega arith in rw e (drop-zeros k n)

pub AllEncodable-append :
    (xs ys : List Rec) → AllEncodable xs → AllEncodable ys → AllEncodable (xs ++ ys)
AllEncodable-append [] ys v u = u
AllEncodable-append (x ∷ xs) ys (v, vs) u = (v, AllEncodable-append xs ys vs u)

module _ ⦃crc : Crc32c⦄ where
  -- Blanks are the end of the records.
  parse_rest-zeros : (n : ℕ) → parse_rest (zeros n) ≡ Parsed.end
  unfolding parse_rest zeros from_le
  parse_rest-zeros zero = refl
  parse_rest-zeros (suc zero) = refl
  parse_rest-zeros (suc (suc zero)) = refl
  parse_rest-zeros (suc (suc (suc zero))) = refl
  parse_rest-zeros (suc (suc (suc (suc zero)))) = refl
  parse_rest-zeros (suc (suc (suc (suc (suc zero))))) = refl
  parse_rest-zeros (suc (suc (suc (suc (suc (suc zero)))))) = refl
  parse_rest-zeros (suc (suc (suc (suc (suc (suc (suc zero))))))) = refl
  parse_rest-zeros (suc (suc (suc (suc (suc (suc (suc (suc n)))))))) = ground arith

  pub log_of-append : (xs ys : List Rec) → log_of (xs ++ ys) ≡ log_of xs ++ log_of ys
  unfolding log_of
  log_of-append [] ys = refl
  log_of-append (x ∷ xs) ys =
      ap (λ l. framed (payload_of x) ++ l) (log_of-append xs ys)
      ∙ sym (append_assoc (framed (payload_of x)) (log_of xs) (log_of ys))

  -- What stands behind the records is parsed there.
  pub parse_at-behind :
      (recs : List Rec) (tail : Bytes)
      → parse_at (segment_header ++ (log_of recs ++ tail)) (seg_header_len + length (log_of recs))
        ≡ parse_rest tail
  unfolding parse_at segment_header
  parse_at-behind recs tail =
      let before = segment_header ++ log_of recs in
      let behind = drop-length before tail in
      let place : length before ≡ seg_header_len + length (log_of recs) = omega arith in
      ap parse_rest (rw (append_assoc, place) at behind)

  pub parse_at-blank :
      (recs : List Rec) (n : ℕ)
      → parse_at
          (segment_header ++ (log_of recs ++ zeros n))
          (seg_header_len + length (log_of recs))
        ≡ Parsed.end
  parse_at-blank recs n = parse_at-behind recs (zeros n) ∙ parse_rest-zeros n
