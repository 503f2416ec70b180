-- ===== src/Store/Format/Parse.antt =====
-- How the records that are written are read.
use beanstalkd_rust.Base.{
  ℕ, suc, ◌+◌, ◌^◌, ◌≤◌, ◌<◌, ◌≡◌, arith, false, some, [], ◌∷◌, ◌++◌, Bytes, length, length-append,
  take-length, ltb, max_u32, append-nil,
}
use beanstalkd_rust.Proto.Types.{TubeName, JobId}
use beanstalkd_rust.Proto.Numbers.{tube_name_new}
use beanstalkd_rust.Engine.Model.{JobRecord}
use beanstalkd_rust.Store.Words.{
  to_le, from_le, from_le-to_le, cur_uint-to_le, cur_uint-byte, cur_take-append,
}
use beanstalkd_rust.Store.JobRecords.{IsWritable, IsRecordId, decode_jobrec-encode, bad_id-good}
use beanstalkd_rust.Store.Outcome.{ok}
use beanstalkd_rust.Store.Format.{
  Crc32c, record_crc, framed, Rec, rec_header_len, put_payload, update_payload, delete_payload,
  decode_payload, parse_rest, parsed_of, kind_put, kind_update, kind_delete,
}

pub decode_payload-put :
    (r : JobRecord) (tube : TubeName) (body : Bytes)
    → IsWritable r
    → length tube < 256
    → tube_name_new tube ≡ some tube
    → decode_payload (put_payload r tube body) ≡ ok (Rec.put r tube body)
unfolding decode_payload
decode_payload-put r tube body v short valid = simp (
  cur_uint-byte kind_put _,
  decode_jobrec-encode r _ v,
  cur_uint-byte (length tube) _,
  cur_take-append tube body,
  valid,
)

pub decode_payload-update :
    (r : JobRecord) → IsWritable r → decode_payload (update_payload r) ≡ ok (Rec.update r)
unfolding decode_payload
decode_payload-update r v =
    let whole = decode_jobrec-encode r [] v in
    let read = rw append-nil at whole in simp (cur_uint-byte kind_update _, read)

pub decode_payload-delete :
    (i : JobId) → IsRecordId i → decode_payload (delete_payload i) ≡ ok (Rec.delete i)
unfolding decode_payload
decode_payload-delete i v =
    let whole = cur_uint-to_le 8 i [] (let h = v.1 in omega arith) in
    let read = rw append-nil at whole in
    simp (cur_uint-byte kind_delete _, read, bad_id-good i v.0 v.1)

module _ ⦃crc : Crc32c⦄ where
  parse_rest-parts :
      (b0 b1 b2 b3 c0 c1 c2 c3 : ℕ) (payload after : Bytes)
      → from_le (b0 ∷ b1 ∷ b2 ∷ b3 ∷ []) ≡ length payload
      → from_le (c0 ∷ c1 ∷ c2 ∷ c3 ∷ []) ≡ record_crc (b0 ∷ b1 ∷ b2 ∷ b3 ∷ []) payload
      → 0 < length payload
      → parse_rest (b0 ∷ b1 ∷ b2 ∷ b3 ∷ c0 ∷ c1 ∷ c2 ∷ c3 ∷ (payload ++ after))
        ≡ parsed_of (rec_header_len + length payload) (decode_payload payload)
  unfolding parse_rest
  parse_rest-parts b0 b1 b2 b3 c0 c1 c2 c3 payload after hl hc long =
      let size = length-append payload after in
      let tests : (ltb (length payload) 1 ≡ false)
          × (ltb (suc (suc (suc (suc (suc (suc (suc (suc (length (payload ++ after))))))))))
                (rec_header_len + length payload)
              ≡ false) =
        ground arith in
      rw (parse_rest, hl, hc, take-length payload after) (ground arith)

  record_crc-u32 : (len_bytes payload : Bytes) → record_crc len_bytes payload < 2 ^ 32
  unfolding record_crc
  record_crc-u32 len_bytes payload = crc.append_u32 (crc.crc32c len_bytes) payload

  pub parse_rest-framed :
      (payload after : Bytes)
      → length payload ≤ max_u32
      → 0 < length payload
      → parse_rest (framed payload ++ after)
        ≡ parsed_of (rec_header_len + length payload) (decode_payload payload)
  unfolding framed to_le
  parse_rest-framed payload after short long =
      parse_rest-parts _ _ _ _ _ _ _ _ payload after
        (from_le-to_le 4 (length payload) (omega arith))
        (from_le-to_le 4 (record_crc (to_le 4 (length payload)) payload) (record_crc-u32 _ payload))
        long

  pub framed-length : (payload : Bytes) → length (framed payload) ≡ rec_header_len + length payload
  unfolding framed to_le
  framed-length payload = omega arith
