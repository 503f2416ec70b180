-- ===== src/Store/Format/Restamp.antt =====
-- A put record that is stamped anew, as compaction does when it moves a job.
use beanstalkd_rust.Base.{
  ◌≡◌, arith, ◌∷◌, ◌++◌, sym, ap, ◌∙◌, Bytes, length, length-append, drop, drop-length,
}
use beanstalkd_rust.Proto.Types.{TubeName}
use beanstalkd_rust.Engine.Model.{JobRecord}
use beanstalkd_rust.Store.Words.{to_le}
use beanstalkd_rust.Store.JobRecords.{jobrec_len, encode_jobrec, encode_jobrec-length}
use beanstalkd_rust.Store.Format.{Crc32c, framed, put_payload, restamp_put}

drop-encode_jobrec :
    (r : JobRecord) (rest : Bytes) → drop jobrec_len (encode_jobrec r ++ rest) ≡ rest
drop-encode_jobrec r rest =
    ap (λ n. drop n (encode_jobrec r ++ rest)) (sym (encode_jobrec-length r))
    ∙ drop-length (encode_jobrec r) rest

module _ ⦃crc : Crc32c⦄ where
  -- A put record stamped with a job record is the put record of that job record, with the tube and
  -- the body of the old one.
  pub restamp_put-framed :
      (r r' : JobRecord) (tube : TubeName) (body : Bytes)
      → restamp_put (framed (put_payload r tube body)) r' ≡ framed (put_payload r' tube body)
  unfolding restamp_put framed to_le
  restamp_put-framed r r' tube body =
      let tail = length tube ∷ (tube ++ body) in
      let behind = drop-encode_jobrec r tail in
      let same : length (put_payload r tube body) ≡ length (put_payload r' tube body) = omega (
        arith,
        length-append (encode_jobrec r) tail,
        length-append (encode_jobrec r') tail,
        encode_jobrec-length r,
        encode_jobrec-length r',
      ) in
      rw (restamp_put, behind, same)
