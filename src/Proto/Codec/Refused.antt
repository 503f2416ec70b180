-- ===== src/Proto/Codec/Refused.antt =====
-- `ServerCodec::decode` on a `put` that it refuses: the bytes of the body are skipped.
use beanstalkd_rust.Base.{
  ℕ, suc, ◌+◌, ◌≤◌, ◌<◌, ◌≡◌, refl, sym, ◌∙◌, ap, true, false, arith, length, ◌++◌, [], ◌∷◌, Bytes,
  length-append, take, drop, take-length, drop-length, max_u32, ◌==◌, ltb, ◌&&◌, append_assoc,
}
use beanstalkd_rust.Proto.Types.{Frame, PutRejection}
use beanstalkd_rust.Proto.Numbers.Printed.{ends}
use beanstalkd_rust.Proto.Parse.{has_nul}
use beanstalkd_rust.Proto.Parse.PutLine.{put_line_text, parse_line_raw-put}
use beanstalkd_rust.Proto.Codec.{
  line, put_body, discard, ServerCodec, scanned, line_round, take_line, parsed_line, put_line,
  yield, again, round, body_frame, byte_is, discard_round, frame, decode,
}
use beanstalkd_rust.Proto.Codec.Rounds.{body_round-full, discard_round-enough}
use beanstalkd_rust.Proto.Codec.Chunks.{decode_loop-yield, decode_loop-again, decode_loop-fuel}
use beanstalkd_rust.Proto.Codec.PutFrame.{
  crlf, scan-text, cut_body, put_line-no_cr, put_line-length, put_line-not_auth, round-put_line,
  get_elem?-at, get_elem?-after,
}

-- The line of a `put` whose body is above the limit.
take_line-too_big :
    (c : ServerCodec) (pri delay ttr size : ℕ) (rest : Bytes)
    → pri ≤ max_u32
    → delay ≤ max_u32
    → ttr ≤ max_u32
    → size ≤ max_u32
    → c.max_job_size < size
    → c.emit_put_started ≡ false
    → take_line c false (put_line_text pri delay ttr size []) rest ≡ again (discard (size + 2)) rest
unfolding take_line parsed_line put_line ends has_nul
take_line-too_big c pri delay ttr size rest hp hd ht hs over quiet =
    let parsed = parse_line_raw-put pri delay ttr size [] hp hd ht hs refl refl in
    let big : ltb c.max_job_size size ≡ true = ground arith in
    rw (take_line, put_line-not_auth c pri delay ttr size, parsed, big, quiet)

round-too_big :
    (c : ServerCodec) (pri delay ttr size : ℕ) (rest : Bytes)
    → pri ≤ max_u32
    → delay ≤ max_u32
    → ttr ≤ max_u32
    → size ≤ max_u32
    → c.max_job_size < size
    → c.emit_put_started ≡ false
    → round c (line false) (put_line_text pri delay ttr size [] ++ crlf rest)
      ≡ again (discard (size + 2)) rest
unfolding round line_round scanned
round-too_big c pri delay ttr size rest hp hd ht hs over quiet =
    let text = put_line_text pri delay ttr size [] in
    let short = put_line-length pri delay ttr size hp hd ht hs in
    let at = scan-text text rest (put_line-no_cr pri delay ttr size) (omega arith) in
    let after = cut_body text rest in
    rw (at, take-length text (crlf rest), after.1)
      (take_line-too_big c pri delay ttr size rest hp hd ht hs over quiet)

discard_round-skips :
    (n : ℕ) (skipped more : Bytes)
    → length skipped ≡ suc n
    → discard_round (suc n) (skipped ++ more)
      ≡ yield (Frame.put_rejected PutRejection.job_too_big) (line false) more
discard_round-skips n [] more h = absurd (omega arith)
discard_round-skips n (b ∷ skipped) more h =
    let sum = length-append skipped more in
    let past = drop-length (b ∷ skipped) more in
    let same = ap (λ k. drop k (b ∷ (skipped ++ more))) (sym h) ∙ past in
    discard_round-enough (suc n) b (skipped ++ more) (omega arith)
    ∙ ap (yield (Frame.put_rejected PutRejection.job_too_big) (line false)) same

-- A `put` whose body is above the codec's limit is refused with JOB_TOO_BIG once its body and two
-- more bytes have come, whatever they are; these are skipped and the bytes behind are left, if the
-- codec is between lines, the numbers fit in 32 bits, and it does not announce bodies.
pub decode-put_too_big :
    (c : ServerCodec) (pri delay ttr size : ℕ) (skipped more : Bytes)
    → c.state ≡ line false
    → c.emit_put_started ≡ false
    → pri ≤ max_u32
    → delay ≤ max_u32
    → ttr ≤ max_u32
    → size ≤ max_u32
    → c.max_job_size < size
    → length skipped ≡ size + 2
    → decode c (put_line_text pri delay ttr size [] ++ crlf (skipped ++ more))
      ≡ frame (Frame.put_rejected PutRejection.job_too_big) (line false) more
unfolding decode round
decode-put_too_big c pri delay ttr size skipped more state quiet hp hd ht hs over len =
    let text = put_line_text pri delay ttr size [] in
    let rest = skipped ++ more in
    let src = text ++ crlf rest in
    let first = round-too_big c pri delay ttr size rest hp hd ht hs over quiet in
    let sum = length-append text (crlf rest) in
    let two : size + 2 ≡ suc (suc size) = omega arith in
    let skips =
      ap (λ n. discard_round n rest) two
      ∙ discard_round-skips (suc size) skipped more (len ∙ two) in
    decode_loop-again (length src) c c.state src (ap (λ s. round c s src) state ∙ first)
    ∙ (decode_loop-fuel (length src) (suc (length rest)) c (discard (size + 2)) rest (omega arith)
          (omega arith)
        ∙ decode_loop-yield (length rest) c (discard (size + 2)) rest skips)

body_frame-bad :
    (pri delay ttr : ℕ) (body : Bytes) (a b : ℕ)
    → (a == 13 && b == 10) ≡ false
    → body_frame pri delay ttr (length body) (body ++ a ∷ b ∷ [])
      ≡ Frame.put_rejected PutRejection.expected_crlf
unfolding body_frame byte_is
body_frame-bad pri delay ttr body a b h =
    rw (body_frame, get_elem?-at body a (b ∷ []), get_elem?-after body a b [], h)

cut_two :
    (body more : Bytes) (a b : ℕ)
    → (take (length body + 2) (body ++ a ∷ b ∷ more) ≡ body ++ a ∷ b ∷ [])
      × (drop (length body + 2) (body ++ a ∷ b ∷ more) ≡ more)
cut_two body more a b =
    let size : length (body ++ a ∷ b ∷ []) ≡ length body + 2 = length-append body (a ∷ b ∷ []) in
    let parts = append_assoc body (a ∷ b ∷ []) more in
    (
      ap (λ n. take n (body ++ a ∷ b ∷ more)) (sym size)
          ∙ (ap (take (length (body ++ a ∷ b ∷ []))) (sym parts)
              ∙ take-length (body ++ a ∷ b ∷ []) more),
      ap (λ n. drop n (body ++ a ∷ b ∷ more)) (sym size)
          ∙ (ap (drop (length (body ++ a ∷ b ∷ []))) (sym parts)
              ∙ drop-length (body ++ a ∷ b ∷ []) more),
    )

round-bad_end :
    (c : ServerCodec) (pri delay ttr : ℕ) (body more : Bytes) (a b : ℕ)
    → (a == 13 && b == 10) ≡ false
    → round c (put_body pri delay ttr (length body)) (body ++ a ∷ b ∷ more)
      ≡ yield (Frame.put_rejected PutRejection.expected_crlf) (line false) more
unfolding round
round-bad_end c pri delay ttr body more a b h =
    let size = length-append body (a ∷ b ∷ more) in
    let enough : length body + 2 ≤ length (body ++ a ∷ b ∷ more) = omega arith in
    let (text, left) = cut_two body more a b in
    body_round-full pri delay ttr (length body) (body ++ a ∷ b ∷ more) enough
    ∙ rw (text, left, body_frame-bad pri delay ttr body a b h)

-- A `put` whose body is not followed by a line end is refused with EXPECTED_CRLF; the body and the
-- two bytes in the line end's place are skipped, and the bytes behind are left, if the codec is
-- between lines, the numbers fit in 32 bits, the body is not above the limit, and the codec does
-- not announce bodies.
pub decode-put_bad_end :
    (c : ServerCodec) (pri delay ttr : ℕ) (body more : Bytes) (a b : ℕ)
    → c.state ≡ line false
    → c.emit_put_started ≡ false
    → pri ≤ max_u32
    → delay ≤ max_u32
    → ttr ≤ max_u32
    → length body ≤ max_u32
    → length body ≤ c.max_job_size
    → (a == 13 && b == 10) ≡ false
    → decode c (put_line_text pri delay ttr (length body) [] ++ crlf (body ++ a ∷ b ∷ more))
      ≡ frame (Frame.put_rejected PutRejection.expected_crlf) (line false) more
unfolding decode
decode-put_bad_end c pri delay ttr body more a b state quiet hp hd ht hs fits bad =
    let text = put_line_text pri delay ttr (length body) [] in
    let rest = body ++ a ∷ b ∷ more in
    let src = text ++ crlf rest in
    let first = round-put_line c pri delay ttr (length body) rest hp hd ht hs fits quiet in
    let sum = length-append text (crlf rest) in
    decode_loop-again (length src) c c.state src (ap (λ s. round c s src) state ∙ first)
    ∙ (decode_loop-fuel (length src) (suc (length rest)) c (put_body pri delay ttr (length body))
          rest (omega arith) (omega arith)
        ∙ decode_loop-yield (length rest) c (put_body pri delay ttr (length body)) rest
            (round-bad_end c pri delay ttr body more a b bad))
