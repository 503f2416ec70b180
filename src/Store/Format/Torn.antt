-- ===== src/Store/Format/Torn.antt =====
-- What a record that was not written whole is read as, and what every record that is read is like.
use beanstalkd_rust.Base.{
  ℕ, ◌+◌, ◌≤◌, ◌<◌, ◌≡◌, ◌⊎◌, inl, inr, refl, arith, true, false, ◌++◌, ap, ◌∙◌, Bytes, codes,
  length, take, drop, length-drop, length-take, take-take, drop-length, ltb, ◌==◌, all, Bool-cases,
  Option-cases, max_u32, le_or_lt,
}
use beanstalkd_rust.Store.Words.{cur_uint, from_le, to_le, from_le-to_le}
use beanstalkd_rust.Store.JobRecords.{
  decode_jobrec, IsRecordId, decode_jobrec-IsRecordId, bad_id-IsRecordId,
}
use beanstalkd_rust.Store.Format.Parse.{framed-length}
use beanstalkd_rust.Store.Outcome.{Outcome, ok, err}
use beanstalkd_rust.Store.Format.{
  Crc32c, framed, Rec, Parsed, rec_header_len, decode_payload, decode_put, decode_update,
  decode_delete, parse_at, parse_rest, parsed_of, id,
}

decode_put-IsRecordId : (c : Bytes) (rec : Rec) → decode_put c ≡ ok rec → IsRecordId (id rec)
unfolding decode_put id
decode_put-IsRecordId c rec h = elim (Option-cases (decode_jobrec c)) [
  | inl n ↦ ground arith
  | inr ((r, rest), e) ↦ let v = decode_jobrec-IsRecordId c rest r e in ground arith
]

decode_update-IsRecordId : (c : Bytes) (rec : Rec) → decode_update c ≡ ok rec → IsRecordId (id rec)
unfolding decode_update id
decode_update-IsRecordId c rec h = elim (Option-cases (decode_jobrec c)) [
  | inl n ↦ ground arith
  | inr ((r, rest), e) ↦ let v = decode_jobrec-IsRecordId c rest r e in ground arith
]

decode_delete-IsRecordId : (c : Bytes) (rec : Rec) → decode_delete c ≡ ok rec → IsRecordId (id rec)
unfolding decode_delete id
decode_delete-IsRecordId c rec h = elim (Option-cases (cur_uint 8 c)) [
  | inl n ↦ ground arith
  | inr ((i, rest), e) ↦ ground (arith, bad_id-IsRecordId i)
]

decode_payload-IsRecordId :
    (payload : Bytes) (rec : Rec) → decode_payload payload ≡ ok rec → IsRecordId (id rec)
unfolding decode_payload
decode_payload-IsRecordId payload rec h = elim (Option-cases (cur_uint 1 payload)) [
  | inl n ↦ ground arith
  | inr ((kind, c), e) ↦ ground (
    arith,
    decode_put-IsRecordId c rec,
    decode_update-IsRecordId c rec,
    decode_delete-IsRecordId c rec,
  )
]

parsed_of-eq_rec :
    (total n : ℕ) (o : Outcome Rec) (rec : Rec)
    → parsed_of total o ≡ Parsed.rec rec n
    → (o ≡ ok rec) × (total ≡ n)
parsed_of-eq_rec total n (ok r) rec h = ground arith
parsed_of-eq_rec total n (err why) rec h = ground arith

module _ ⦃crc : Crc32c⦄ where
  parse_rest-bounds :
      (rest : Bytes) (n : ℕ) (rec : Rec)
      → parse_rest rest ≡ Parsed.rec rec n
      → (rec_header_len < n) × (n ≤ length rest) × IsRecordId (id rec)
  unfolding parse_rest
  parse_rest-bounds rest n rec h =
      let len = from_le (take 4 rest) in
      let payload = take len (drop rec_header_len rest) in
      ground (
        arith,
        parsed_of-eq_rec (rec_header_len + len) n (decode_payload payload) rec,
        decode_payload-IsRecordId payload rec,
      )

  -- A record that is read lies within the buffer, and its id is one that a record may carry.
  pub parse_at-bounds :
      (buf : Bytes) (pos n : ℕ) (rec : Rec)
      → parse_at buf pos ≡ Parsed.rec rec n
      → (rec_header_len < n) × (pos + n ≤ length buf) × IsRecordId (id rec)
  unfolding parse_at
  parse_at-bounds buf pos n rec h =
      let (long, fits, v) = parse_rest-bounds (drop pos buf) n rec h in
      let left = length-drop pos buf in (long, omega arith, v)

  -- How a record that was cut off is read.
  abbrev pub IsTorn : Parsed → Type 0
  IsTorn p =
      (p ≡ Parsed.end)
      ⊎ ((p ≡ Parsed.bad (codes "truncated record header"))
          ⊎ (p ≡ Parsed.bad (codes "record extends past end of file")))

  parse_rest-short : (rest : Bytes) → length rest < rec_header_len → IsTorn (parse_rest rest)
  unfolding parse_rest
  parse_rest-short rest h =
      let few : ltb (length rest) rec_header_len ≡ true = ground arith in
      elim (Bool-cases (all (λ b. b == 0) rest)) [
        | inl zeros ↦ inl (rw (few, zeros))
        | inr others ↦ inr (inl (rw (few, others)))
      ]

  parse_rest-past_end :
      (rest : Bytes)
      → rec_header_len ≤ length rest
      → length rest < rec_header_len + from_le (take 4 rest)
      → IsTorn (parse_rest rest)
  unfolding parse_rest
  parse_rest-past_end rest long short =
      let enough : ltb (length rest) rec_header_len ≡ false = ground arith in
      let past : ltb (length rest) (rec_header_len + from_le (take 4 rest)) ≡ true = ground arith in
      elim (Bool-cases (from_le (take 4 rest) == 0)) [
        | inl zero ↦ inl (rw (enough, zero))
        | inr more ↦ inr (inr (rw (enough, more, past)))
      ]

  framed-take_len : (payload : Bytes) → take 4 (framed payload) ≡ to_le 4 (length payload)
  unfolding framed to_le
  framed-take_len payload = refl

  -- Of a record that was cut off anywhere, behind any other bytes, nothing is read: it is the end
  -- of the records, a truncated header or a record past the end of the file. The length of its
  -- payload is a `u32`.
  pub parse_at-IsTorn :
      (out payload : Bytes) (k : ℕ)
      → length payload ≤ max_u32
      → k < length (framed payload)
      → IsTorn (parse_at (out ++ take k (framed payload)) (length out))
  unfolding parse_at
  parse_at-IsTorn out payload k small h =
      let rest = take k (framed payload) in
      let behind = drop-length out rest in
      let size = length-take k (framed payload) in
      let cut : length rest ≡ k = omega arith in
      rw behind (elim (le_or_lt rec_header_len k) [
        | inl long ↦
            let len : from_le (take 4 rest) ≡ length payload =
              ap from_le (take-take 4 k (framed payload) (omega arith) ∙ framed-take_len payload)
              ∙ from_le-to_le 4 (length payload) (omega arith) in
            parse_rest-past_end rest (omega arith) (omega (arith, framed-length payload))
        | inr short ↦ parse_rest-short rest (omega arith)
      ])
