-- ===== src/Store/Format/Rounds.antt =====
-- Every record that an encoder writes is read back where it stands.
use beanstalkd_rust.Base.{
  ℕ, ◌+◌, ◌≤◌, ◌<◌, ◌≡◌, refl, arith, false, none, some, [], ◌∷◌, ◌++◌, ap, ◌∙◌, Bytes, length,
  length-append, drop-length, ltb, max_u32, append_assoc,
}
use beanstalkd_rust.Proto.Numbers.{tube_name_new}
use beanstalkd_rust.Store.Words.{to_le-length}
use beanstalkd_rust.Store.JobRecords.{IsWritable, IsRecordId, encode_jobrec-length, encode_jobrec}
use beanstalkd_rust.Store.Outcome.{ok}
use beanstalkd_rust.Store.Format.{
  Crc32c, framed, frame, Rec, Parsed, Written, rec_header_len, put_payload, update_payload,
  delete_payload, decode_payload, put_rec_len, update_rec_len, delete_rec_len, encode_put,
  encode_update, encode_delete, parse_at, parsed_of,
}
use beanstalkd_rust.Store.Format.Parse.{
  framed-length, parse_rest-framed, decode_payload-put, decode_payload-update,
  decode_payload-delete,
}

-- A record whose fields are in range, whose tube name is valid and which is not too long.
abbrev pub IsEncodable : Rec → Type 0
IsEncodable (Rec.put r tube body) =
    IsWritable r
    × (tube_name_new tube ≡ some tube)
    × (length tube < 256)
    × (put_rec_len (length tube) (length body) ≤ max_u32)
IsEncodable (Rec.update r) = IsWritable r
IsEncodable (Rec.delete i) = IsRecordId i

-- The sizes by which the store accounts for records.
unfoldable pub rec_len : Rec → ℕ
unfolding put_rec_len
rec_len (Rec.put r tube body) = put_rec_len (length tube) (length body)
rec_len (Rec.update r) = update_rec_len
rec_len (Rec.delete i) = delete_rec_len

-- What `encode` appends.
abbrev pub payload_of : Rec → Bytes
payload_of (Rec.put r tube body) = put_payload r tube body
payload_of (Rec.update r) = update_payload r
payload_of (Rec.delete i) = delete_payload i

pub payload_of-length : (rec : Rec) → rec_header_len + length (payload_of rec) ≡ rec_len rec
unfolding rec_len
payload_of-length (Rec.put r tube body) = omega (
  arith,
  length-append (encode_jobrec r) (length tube ∷ (tube ++ body)),
  encode_jobrec-length r,
  length-append tube body,
)
payload_of-length (Rec.update r) = omega (arith, encode_jobrec-length r)
payload_of-length (Rec.delete i) = omega (arith, to_le-length 8 i)

decode_payload-payload_of : (rec : Rec) → IsEncodable rec → decode_payload (payload_of rec) ≡ ok rec
decode_payload-payload_of (Rec.put r tube body) (v, valid, short, _) =
    decode_payload-put r tube body v short valid
decode_payload-payload_of (Rec.update r) v = decode_payload-update r v
decode_payload-payload_of (Rec.delete i) v = decode_payload-delete i v

pub rec_len-le : (rec : Rec) → IsEncodable rec → rec_len rec ≤ max_u32
unfolding rec_len
rec_len-le (Rec.put r tube body) (_, _, _, fits) = fits
rec_len-le (Rec.update r) v = omega arith
rec_len-le (Rec.delete i) v = omega arith

payload_of-pos : (rec : Rec) → 0 < length (payload_of rec)
payload_of-pos (Rec.put r tube body) = omega arith
payload_of-pos (Rec.update r) = omega arith
payload_of-pos (Rec.delete i) = omega arith

pub rec_len-pos : (rec : Rec) → 0 < rec_len rec
unfolding rec_len
rec_len-pos (Rec.put r tube body) = omega arith
rec_len-pos (Rec.update r) = omega arith
rec_len-pos (Rec.delete i) = omega arith

module _ ⦃crc : Crc32c⦄ where
  unfoldable pub encode : Bytes → Rec → Written
  unfolding encode_put encode_update encode_delete
  encode out (Rec.put r tube body) = encode_put out r tube body
  encode out (Rec.update r) = encode_update out r
  encode out (Rec.delete i) = encode_delete out i

  pub frame-parse_at :
      (out payload after : Bytes) (rec : Rec)
      → length payload ≤ max_u32
      → 0 < length payload
      → decode_payload payload ≡ ok rec
      → (frame out payload ≡ (out ++ framed payload, none))
        × (parse_at ((out ++ framed payload) ++ after) (length out)
            ≡ Parsed.rec rec (rec_header_len + length payload))
  unfolding frame parse_at
  frame-parse_at out payload after rec short long read =
      let fits : ltb max_u32 (length payload) ≡ false = ground arith in
      let parsed = parse_rest-framed payload after short long ∙ ap (parsed_of _) read in
      let behind = drop-length out (framed payload ++ after) in
      (rw fits, rw (append_assoc, behind) parsed)

  encode-frame :
      (out : Bytes) (rec : Rec) → IsEncodable rec → encode out rec ≡ frame out (payload_of rec)
  unfolding encode
  encode-frame out (Rec.put r tube body) (_, _, short, _) =
      let fits : ltb 255 (length tube) ≡ false = ground arith in rw fits
  encode-frame out (Rec.update r) v = refl
  encode-frame out (Rec.delete i) v = refl

  pub parse_at-framed :
      (out after : Bytes) (rec : Rec)
      → IsEncodable rec
      → parse_at ((out ++ framed (payload_of rec)) ++ after) (length out)
        ≡ Parsed.rec rec (rec_len rec)
  parse_at-framed out after rec v =
      let size = payload_of-length rec in
      let fits = rec_len-le rec v in
      let (written, read) =
        frame-parse_at out (payload_of rec) after rec (omega arith) (payload_of-pos rec)
          (decode_payload-payload_of rec v) in
      rw size at read

  pub framed-rec_len : (rec : Rec) → length (framed (payload_of rec)) ≡ rec_len rec
  framed-rec_len rec = framed-length (payload_of rec) ∙ payload_of-length rec

  pub encode-framed :
      (out : Bytes) (rec : Rec)
      → IsEncodable rec
      → encode out rec ≡ (out ++ framed (payload_of rec), none)
  encode-framed out rec v =
      let size = payload_of-length rec in
      let fits = rec_len-le rec v in
      encode-frame out rec v
      ∙ (frame-parse_at out (payload_of rec) [] rec (omega arith) (payload_of-pos rec)
          (decode_payload-payload_of rec v)).0

  -- An encodable record is written behind what is in `out`, in as many bytes as its size says, and
  -- is read back where it stands, whatever follows it.
  pub parse_at-encode :
      (out after : Bytes) (rec : Rec)
      → IsEncodable rec
      → (b : Bytes) × (encode out rec ≡ (out ++ b, none))
        × (length b ≡ rec_len rec)
        × (parse_at ((out ++ b) ++ after) (length out) ≡ Parsed.rec rec (rec_len rec))
  parse_at-encode out after rec v =
      let size = payload_of-length rec in
      let fits = rec_len-le rec v in
      let (written, read) =
        frame-parse_at out (payload_of rec) after rec (omega arith) (payload_of-pos rec)
          (decode_payload-payload_of rec v) in
      (
        framed (payload_of rec),
        encode-frame out rec v ∙ written,
        framed-rec_len rec,
        parse_at-framed out after rec v,
      )
