-- ===== src/Proto/Examples.antt =====
-- The protocol's theorems on concrete bytes.
use beanstalkd_rust.Base.{
  ℕ, zero, suc, ◌∷◌, Bytes, ◌≡◌, ◌≢◌, refl, true, false, arith, [], ◌++◌, codes, some, none,
}
use beanstalkd_rust.Proto.Reply.{encode}
use beanstalkd_rust.Proto.Reply.Reader.{read_reply}
use beanstalkd_rust.Proto.Reply.Reader.Rounds.{read_reply-encode}
use beanstalkd_rust.Proto.Types.{Frame, Command, PutRejection, Response}
use beanstalkd_rust.Proto.Decimal.{decimal}
use beanstalkd_rust.Proto.Numbers.{read_u64_partial, read_u32_partial, read_u32_full}
use beanstalkd_rust.Proto.Numbers.Printed.{ends, read_u64_partial-decimal, read_u32_partial-decimal}
use beanstalkd_rust.Proto.Result.{ok}
use beanstalkd_rust.Proto.Parse.{ParsedLine, parse_line_raw, has_nul, which_cmd, parse_args}
use beanstalkd_rust.Proto.Parse.PutLine.{put_line_text, parse_line_raw-put}
use beanstalkd_rust.Proto.Parse.Limits.{line_in_range, parse_line_raw-in_range}
use beanstalkd_rust.Proto.Codec.{
  ServerCodec, line, put_body, scan_line_end, decode, frame, out_of_fuel,
}
use beanstalkd_rust.Proto.Codec.Chunks.{decode-total, decode-frame_append, decode-pending_append}
use beanstalkd_rust.Proto.Codec.PutFrame.{crlf, decode-body, decode-put}
use beanstalkd_rust.Proto.Codec.LongLine.{too_long, decode-long_line}
use beanstalkd_rust.Proto.Codec.Refused.{decode-put_too_big, decode-put_bad_end}

abbrev codec : ServerCodec
codec = record {
  max_job_size = 100;
  state = line false;
  emit_put_started = false;
  recognize_auth = false;
}

decode-frame_append_example :
    decode codec (codes "stats" ++ crlf (codes "next"))
    ≡ frame (Frame.command Command.stats) (line false) (codes "next")
unfolding decode scan_line_end parse_line_raw which_cmd parse_args
decode-frame_append_example =
    decode-frame_append codec (codes "stats" ++ crlf []) (codes "next") refl

-- The body comes in two reads.
decode-pending_append_example :
    decode codec (codes "put 1 0 60 2" ++ crlf (codes "a") ++ codes "b" ++ crlf [])
    ≡ decode (record codec { state = put_body 1 0 60 2 }) (codes "a" ++ codes "b" ++ crlf [])
unfolding decode scan_line_end parse_line_raw which_cmd parse_args read_u32_partial
decode-pending_append_example =
    decode-pending_append codec (codes "put 1 0 60 2" ++ crlf (codes "a")) (codes "b" ++ crlf [])
      refl

decode-total_example : decode codec (codes "quit") ≢ out_of_fuel
decode-total_example = decode-total codec (codes "quit")

decode-body_example :
    decode (record codec { state = put_body 1 0 60 2 }) (codes "ab" ++ crlf (codes "next"))
    ≡ frame (Frame.command (Command.put 1 0 60 (codes "ab"))) (line false) (codes "next")
decode-body_example =
    decode-body (record codec { state = put_body 1 0 60 2 }) 1 0 60 (codes "ab") (codes "next") refl

decode-put_example :
    decode codec (put_line_text 1 0 60 2 [] ++ crlf (codes "ab" ++ crlf (codes "next")))
    ≡ frame (Frame.command (Command.put 1 0 60 (codes "ab"))) (line false) (codes "next")
decode-put_example =
    decode-put codec 1 0 60 (codes "ab") (codes "next") refl refl (omega arith) (omega arith)
      (omega arith) (omega arith) (omega arith)

parse_line_raw-in_range_example :
    line_in_range (ParsedLine.command (Command.release 7 10 4294967295)) ≡ true
unfolding parse_line_raw which_cmd parse_args read_u64_partial read_u32_partial read_u32_full
parse_line_raw-in_range_example = parse_line_raw-in_range (codes "release 7 10 4294967295") refl

parse_line_raw-put_example :
    parse_line_raw (put_line_text 1 0 60 2 (codes " x"))
    ≡ ok (
        ParsedLine.put
          (record { pri = 1; delay = 0; ttr = 60; body_size = 2; trailing_garbage = true }))
unfolding ends has_nul
parse_line_raw-put_example =
    parse_line_raw-put 1 0 60 2 (codes " x") (omega arith) (omega arith) (omega arith) (omega arith)
      refl refl

read_u64_partial-decimal_example :
    read_u64_partial (decimal 18446744073709551615 ++ codes " 1")
    ≡ some (18446744073709551615, codes " 1")
unfolding ends
read_u64_partial-decimal_example =
    read_u64_partial-decimal 18446744073709551615 (codes " 1") (omega arith) refl

read_u32_partial-decimal_example : read_u32_partial (decimal 4294967296 ++ codes " 1") ≡ none
unfolding ends
read_u32_partial-decimal_example =
    read_u32_partial-decimal 4294967296 (codes " 1") (omega arith) refl

-- `n` bytes `b`.
replicate : ℕ → ℕ → Bytes
replicate zero b = []
replicate (suc n) b = b ∷ replicate n b

decode-put_too_big_example :
    decode codec (put_line_text 1 0 60 101 [] ++ crlf (replicate 103 120 ++ codes "next"))
    ≡ frame (Frame.put_rejected PutRejection.job_too_big) (line false) (codes "next")
unfolding replicate
decode-put_too_big_example =
    decode-put_too_big codec 1 0 60 101 (replicate 103 120) (codes "next") refl refl (omega arith)
      (omega arith) (omega arith) (omega arith) (omega arith) refl

decode-put_bad_end_example :
    decode codec (put_line_text 1 0 60 2 [] ++ crlf (codes "ab" ++ 13 ∷ 120 ∷ codes "next"))
    ≡ frame (Frame.put_rejected PutRejection.expected_crlf) (line false) (codes "next")
decode-put_bad_end_example =
    decode-put_bad_end codec 1 0 60 (codes "ab") (codes "next") 13 120 refl refl (omega arith)
      (omega arith) (omega arith) (omega arith) (omega arith) refl

decode-long_line_example :
    decode codec (replicate 500 120 ++ crlf (codes "next"))
    ≡ too_long codec (replicate 500 120) (codes "next")
unfolding replicate
decode-long_line_example =
    decode-long_line codec false (replicate 500 120) (codes "next") refl refl (omega arith)

-- A line of 500 bytes is refused; the end of one of 447 bytes falls between two windows.
too_long-refused :
    too_long codec (replicate 500 120) (codes "next")
    ≡ frame (Frame.error Response.bad_format) (line false) (codes "next")
unfolding replicate
too_long-refused = refl

too_long-swallows :
    too_long codec (replicate 447 120) (codes "quit" ++ crlf (codes "next"))
    ≡ frame (Frame.error Response.bad_format) (line false) (codes "next")
unfolding replicate decode scan_line_end
too_long-swallows = refl

read_reply-encode_example :
    (encode (Response.reserved 7 (codes "hi")) (codes "x")
      ≡ codes "x" ++ encode (Response.reserved 7 (codes "hi")) [])
    × (read_reply (encode (Response.reserved 7 (codes "hi")) [] ++ codes "OK")
        ≡ some (Response.reserved 7 (codes "hi"), codes "OK"))
read_reply-encode_example =
    read_reply-encode (Response.reserved 7 (codes "hi")) (codes "x") (codes "OK")
      (omega arith, omega arith)

encode_runs :
    encode (Response.found 7 (codes "hi")) (codes "x")
    ≡ codes "xFOUND 7 2" ++ crlf (codes "hi" ++ crlf [])
unfolding encode decimal
encode_runs = refl
