-- ===== src/Store/Format.antt =====
-- crates/store/src/format.rs: the records of the binlog and the header of a segment.
pub mod Parse
pub mod Rounds
pub mod Torn
pub mod Restamp
use beanstalkd_rust.Base.{
  ℕ, ◌+◌, ◌-◌, ◌*◌, ◌^◌, ◌<◌, ◌≡◌, Bool, true, false, ◌&&◌, ◌||◌, not, Option, none, some, [], ◌∷◌,
  ◌++◌, Bytes, codes, length, take, drop, ltb, ◌==◌, is_empty, all, max_u32, if◌then◌else◌,
}
use beanstalkd_rust.Proto.Types.{TubeName, JobId}
use beanstalkd_rust.Proto.Numbers.{tube_name_new}
use beanstalkd_rust.Engine.Model.{JobRecord}
use beanstalkd_rust.Store.Words.{to_le, from_le, cur_take, cur_uint}
use beanstalkd_rust.Store.JobRecords.{jobrec_len, encode_jobrec, decode_jobrec, bad_id}
use beanstalkd_rust.Store.Outcome.{Outcome, ok, err, or_err, ◌>>=◌}

-- The crate `crc32c`: a checksum and its continuation over more bytes, which is a `u32`.
pub record Crc32c : Type 0 where
  pub crc32c : Bytes → ℕ
  pub crc32c_append : ℕ → Bytes → ℕ
  pub append_u32 : (crc : ℕ) (bytes : Bytes) → crc32c_append crc bytes < 2 ^ 32

abbrev pub magic : Bytes
magic = codes "BSTKWAL" ++ 0 ∷ []

abbrev pub version : ℕ
version = 1

abbrev pub seg_header_len : ℕ
seg_header_len = 16

abbrev pub rec_header_len : ℕ
rec_header_len = 8

abbrev pub kind_put : ℕ
kind_put = 1

abbrev pub kind_update : ℕ
kind_update = 2

abbrev pub kind_delete : ℕ
kind_delete = 3

abbrev pub delete_rec_len : ℕ
delete_rec_len = rec_header_len + 1 + 8

abbrev pub update_rec_len : ℕ
update_rec_len = rec_header_len + 1 + jobrec_len

abbrev pub jobrec_offset : ℕ
jobrec_offset = rec_header_len + 1

unfoldable pub put_rec_len : ℕ → ℕ → ℕ
put_rec_len tube_len body_len = rec_header_len + 1 + jobrec_len + 1 + tube_len + body_len

unfoldable pub segment_header : Bytes
unfolding to_le
segment_header = magic ++ to_le 4 version ++ to_le 4 0

pub data Rec : Type 0 where
  put : JobRecord → TubeName → Bytes → Rec
  update : JobRecord → Rec
  delete : JobId → Rec

-- `Rec::id`
unfoldable pub id : Rec → JobId
id (Rec.put r tube body) = r.id
id (Rec.update r) = r.id
id (Rec.delete i) = i

pub data Parsed : Type 0 where
  end : Parsed
  rec : Rec → ℕ → Parsed
  bad : Bytes → Parsed
  malformed : Bytes → Parsed

-- What an encoder leaves in `out`, and the message of its error if it fails.
abbrev pub Written : Type 0
Written = Bytes × Option Bytes

decode_put : Bytes → Outcome Rec
decode_put c = do
  (record', c) ← or_err (codes "bad job record") (decode_jobrec c)
  (tl, c) ← or_err (codes "missing tube length") (cur_uint 1 c)
  (name, body) ← or_err (codes "truncated tube name") (cur_take tl c)
  tube ← or_err (codes "invalid tube name") (tube_name_new name)
  ok (Rec.put record' tube body)

decode_update : Bytes → Outcome Rec
decode_update c = do
  (record', c) ← or_err (codes "bad job record") (decode_jobrec c)
  if is_empty c then ok (Rec.update record') else err (codes "trailing bytes in update record")

decode_delete : Bytes → Outcome Rec
decode_delete c = do
  (i, c) ← or_err (codes "truncated delete record") (cur_uint 8 c)
  if bad_id i || not (is_empty c) then err (codes "bad delete record") else ok (Rec.delete i)

-- `from_utf8` and the test of the name refuse with the same message, and a name that passes the
-- test is ASCII.
unfoldable pub decode_payload : Bytes → Outcome Rec
unfolding decode_put decode_update decode_delete
decode_payload payload = do
  (kind, c) ← or_err (codes "empty payload") (cur_uint 1 payload)
  if kind == kind_put
      then decode_put c
      else if kind == kind_update
      then decode_update c
      else if kind == kind_delete
      then decode_delete c
      else err (codes "unknown record kind")

abbrev parsed_of : ℕ → Outcome Rec → Parsed
parsed_of total (ok r) = Parsed.rec r total
parsed_of total (err why) = Parsed.malformed why

-- What the three encoders push as the payload.
abbrev pub put_payload : JobRecord → TubeName → Bytes → Bytes
put_payload r tube body = kind_put ∷ (encode_jobrec r ++ (length tube ∷ (tube ++ body)))

abbrev pub update_payload : JobRecord → Bytes
update_payload r = kind_update ∷ encode_jobrec r

abbrev pub delete_payload : JobId → Bytes
delete_payload i = kind_delete ∷ to_le 8 i

module _ ⦃crc : Crc32c⦄ where
  unfoldable pub record_crc : Bytes → Bytes → ℕ
  record_crc len_bytes payload = crc.crc32c_append (crc.crc32c len_bytes) payload

  -- The bytes of a record with this payload.
  unfoldable pub framed : Bytes → Bytes
  unfolding record_crc
  framed payload =
      let len_bytes = to_le 4 (length payload) in
      len_bytes ++ to_le 4 (record_crc len_bytes payload) ++ payload

  -- `out` is truncated to where it began if the payload is too long.
  unfoldable pub frame : Bytes → Bytes → Written
  frame out payload =
      if ltb max_u32 (length payload)
      then (out, some (codes "binlog record too large"))
      else (out ++ framed payload, none)

  unfoldable pub encode_put : Bytes → JobRecord → TubeName → Bytes → Written
  unfolding frame
  encode_put out r tube body =
      if ltb 255 (length tube)
      then (out, some (codes "tube name too long"))
      else frame out (put_payload r tube body)

  unfoldable pub encode_update : Bytes → JobRecord → Written
  unfolding frame
  encode_update out r = frame out (update_payload r)

  unfoldable pub encode_delete : Bytes → JobId → Written
  unfolding frame
  encode_delete out i = frame out (delete_payload i)

  -- On a slice that holds a whole `Put` record; a shorter one is a panic in the code.
  unfoldable pub restamp_put : Bytes → JobRecord → Bytes
  unfolding record_crc
  restamp_put old r =
      let new =
        take jobrec_offset old ++ encode_jobrec r ++ drop (jobrec_offset + jobrec_len) old in
      let len_bytes = take 4 new in
      let payload = drop rec_header_len new in
      len_bytes ++ to_le 4 (record_crc len_bytes payload) ++ payload

  unfoldable pub parse_rest : Bytes → Parsed
  unfolding record_crc
  parse_rest rest =
      let len_bytes = take 4 rest in
      let len = from_le len_bytes in
      let total = rec_header_len + len in
      let payload = take len (drop rec_header_len rest) in
      if ltb (length rest) rec_header_len
      then (if all (λ b. b == 0) rest
          then Parsed.end
          else Parsed.bad (codes "truncated record header"))
      else if len == 0
      then Parsed.end
      else if ltb (length rest) total
      then Parsed.bad (codes "record extends past end of file")
      else if record_crc len_bytes payload == from_le (take 4 (drop 4 rest))
      then parsed_of total (decode_payload payload)
      else Parsed.bad (codes "CRC mismatch")

  unfoldable pub parse_at : Bytes → ℕ → Parsed
  parse_at buf pos = parse_rest (drop pos buf)
