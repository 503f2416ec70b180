-- ===== src/Proto/Codec/PutFrame.antt =====
-- `ServerCodec::decode` on the bytes of a `put`: its line, its body and the line ends.
use beanstalkd_rust.Base.{
  ℕ, suc, ◌+◌, ◌-◌, ◌≤◌, ◌<◌, ◌≡◌, refl, sym, ◌∙◌, ap, Bool, false, arith, length, ◌++◌, [], ◌∷◌,
  Bytes, length-append, codes, Bool-cases, any, take, drop, get_elem?, take-append_all, take-length,
  drop-length, max_u32, not, ◌==◌, some, ltb, inl, inr, ◌&&◌, take-all, append_assoc,
}
use beanstalkd_rust.Proto.Types.{Frame, Command, line_buf_size}
use beanstalkd_rust.Proto.Numbers.Printed.{ends, decimal-any, decimal-length}
use beanstalkd_rust.Proto.Parse.{starts_with, has_nul}
use beanstalkd_rust.Proto.Parse.PutLine.{spaced, put_args, put_line_text, parse_line_raw-put}
use beanstalkd_rust.Proto.Codec.{
  take_line, parsed_line, put_line, line_round, scanned, line, put_body, ServerCodec, found,
  scan_line_end, find_crlf, position_cr, byte_is, yield, again, round, body_frame, frame, decode,
}
use beanstalkd_rust.Proto.Codec.Scan.{position_cr-take, find_crlf-scan}
use beanstalkd_rust.Proto.Codec.Rounds.{body_round-full}
use beanstalkd_rust.Proto.Codec.Chunks.{decode_loop-yield, decode_loop-again, decode_loop-fuel}

abbrev pub crlf : Bytes → Bytes
crlf more = 13 ∷ 10 ∷ more

no_cr : Bytes → Bool
no_cr text = not (any (λ b. b == 13) text)

position_cr-text :
    (text rest : Bytes)
    → any (λ b. b == 13) text ≡ false
    → position_cr (text ++ 13 ∷ rest) ≡ some (length text)
unfolding position_cr
position_cr-text [] rest h = refl
position_cr-text (b ∷ text) rest h = elim (Bool-cases (b == 13)) [
  | inl t ↦ ground arith
  | inr f ↦
      let tail : any (λ b. b == 13) text ≡ false = ground arith in
      rw (position_cr, f, position_cr-text text rest tail)
]

pub get_elem?-after :
    (text : Bytes) (a b : ℕ) (rest : Bytes)
    → get_elem? (text ++ a ∷ b ∷ rest) (suc (length text)) ≡ some b
get_elem?-after [] a b rest = refl
get_elem?-after (x ∷ text) a b rest = get_elem?-after text a b rest

pub get_elem?-at :
    (text : Bytes) (a : ℕ) (rest : Bytes) → get_elem? (text ++ a ∷ rest) (length text) ≡ some a
get_elem?-at [] a rest = refl
get_elem?-at (x ∷ text) a rest = get_elem?-at text a rest

find_crlf-text :
    (text rest : Bytes)
    → any (λ b. b == 13) text ≡ false
    → find_crlf (text ++ crlf rest) ≡ some (length text)
unfolding find_crlf byte_is
find_crlf-text text rest h =
    let sum = length-append text (crlf rest) in
    let inside : length text < length (text ++ crlf rest) - 1 = omega arith in
    let cr =
      position_cr-take (length (text ++ crlf rest) - 1) (text ++ crlf rest) (length text)
        (position_cr-text text (10 ∷ rest) h) inside in
    rw (find_crlf, cr, get_elem?-after text 13 10 rest)

-- A line of at most 222 bytes without a carriage return is found with its end.
pub scan-text :
    (text more : Bytes)
    → any (λ b. b == 13) text ≡ false
    → length text + 2 ≤ line_buf_size
    → scan_line_end (text ++ crlf more) ≡ found (length text)
scan-text text more h size =
    let k = line_buf_size - length text - 2 in
    let left : line_buf_size - length text ≡ suc (suc k) = omega arith in
    let window =
      take-append_all line_buf_size text (crlf more)
      ∙ (ap (λ t. t ++ take (line_buf_size - length text) (crlf more))
            (take-all line_buf_size text (omega arith))
          ∙ ap (λ n. text ++ take n (crlf more)) left) in
    find_crlf-scan (text ++ crlf more) (length text)
      (ap find_crlf window ∙ find_crlf-text text (take k more) h)

body_frame-text :
    (pri delay ttr : ℕ) (body : Bytes)
    → body_frame pri delay ttr (length body) (body ++ crlf [])
      ≡ Frame.command (Command.put pri delay ttr body)
unfolding body_frame byte_is
body_frame-text pri delay ttr body = rw (
  body_frame,
  get_elem?-at body 13 (10 ∷ []),
  get_elem?-after body 13 10 [],
  take-length body (crlf []),
)

-- A body with its line end, cut off the buffer.
pub cut_body :
    (body more : Bytes)
    → (take (length body + 2) (body ++ crlf more) ≡ body ++ crlf [])
      × (drop (length body + 2) (body ++ crlf more) ≡ more)
cut_body body more =
    let size : length (body ++ crlf []) ≡ length body + 2 = length-append body (crlf []) in
    let parts : (body ++ crlf []) ++ more ≡ body ++ crlf more = append_assoc body (crlf []) more in
    (
      ap (λ n. take n (body ++ crlf more)) (sym size)
          ∙ (ap (take (length (body ++ crlf []))) (sym parts) ∙ take-length (body ++ crlf []) more),
      ap (λ n. drop n (body ++ crlf more)) (sym size)
          ∙ (ap (drop (length (body ++ crlf []))) (sym parts) ∙ drop-length (body ++ crlf []) more),
    )

round-body :
    (c : ServerCodec) (pri delay ttr : ℕ) (body more : Bytes)
    → round c (put_body pri delay ttr (length body)) (body ++ crlf more)
      ≡ yield (Frame.command (Command.put pri delay ttr body)) (line false) more
unfolding round
round-body c pri delay ttr body more =
    let size = length-append body (crlf more) in
    let enough : length body + 2 ≤ length (body ++ crlf more) = omega arith in
    let (text, left) = cut_body body more in
    body_round-full pri delay ttr (length body) (body ++ crlf more) enough
    ∙ rw (text, left, body_frame-text pri delay ttr body)

-- In the state that the line of a `put` leads to, `decode` yields the put with its body, whatever
-- bytes the body holds, and leaves the bytes behind it.
pub decode-body :
    (c : ServerCodec) (pri delay ttr : ℕ) (body more : Bytes)
    → c.state ≡ put_body pri delay ttr (length body)
    → decode c (body ++ crlf more)
      ≡ frame (Frame.command (Command.put pri delay ttr body)) (line false) more
unfolding decode
decode-body c pri delay ttr body more h =
    decode_loop-yield (length (body ++ crlf more)) c c.state (body ++ crlf more)
      (ap (λ s. round c s (body ++ crlf more)) h ∙ round-body c pri delay ttr body more)

-- No digit is a carriage return.
not_cr : (d : ℕ) → d < 10 → (b'0' + d == 13) ≡ false
not_cr d h = ground arith

pub put_line-no_cr :
    (pri delay ttr size : ℕ) → any (λ b. b == 13) (put_line_text pri delay ttr size []) ≡ false
unfolding put_line_text put_args
put_line-no_cr pri delay ttr size =
    decimal-any (λ b. b == 13) pri (spaced delay (spaced ttr (spaced size []))) not_cr
      (decimal-any (λ b. b == 13) delay (spaced ttr (spaced size [])) not_cr
        (decimal-any (λ b. b == 13) ttr (spaced size []) not_cr
          (decimal-any (λ b. b == 13) size [] not_cr refl)))

pub put_line-length :
    (pri delay ttr size : ℕ)
    → pri ≤ max_u32
    → delay ≤ max_u32
    → ttr ≤ max_u32
    → size ≤ max_u32
    → length (put_line_text pri delay ttr size []) ≤ 47
unfolding put_line_text put_args
put_line-length pri delay ttr size hp hd ht hs = omega (
  arith,
  decimal-length pri (spaced delay (spaced ttr (spaced size []))) hp,
  decimal-length delay (spaced ttr (spaced size [])) hd,
  decimal-length ttr (spaced size []) ht,
  decimal-length size [] hs,
)

pub put_line-not_auth :
    (c : ServerCodec) (pri delay ttr size : ℕ)
    → (c.recognize_auth && starts_with (codes "auth ") (put_line_text pri delay ttr size []))
      ≡ false
unfolding starts_with put_line_text
put_line-not_auth c pri delay ttr size = elim (Bool-cases c.recognize_auth) [
  | inl t ↦ rw t
  | inr f ↦ rw f
]

take_line-put :
    (c : ServerCodec) (pri delay ttr size : ℕ) (rest : Bytes)
    → pri ≤ max_u32
    → delay ≤ max_u32
    → ttr ≤ max_u32
    → size ≤ max_u32
    → size ≤ c.max_job_size
    → c.emit_put_started ≡ false
    → take_line c false (put_line_text pri delay ttr size []) rest
      ≡ again (put_body pri delay ttr size) rest
unfolding take_line parsed_line put_line ends has_nul
take_line-put c pri delay ttr size rest hp hd ht hs fits quiet =
    let parsed = parse_line_raw-put pri delay ttr size [] hp hd ht hs refl refl in
    let small : ltb c.max_job_size size ≡ false = ground arith in
    rw (take_line, put_line-not_auth c pri delay ttr size, parsed, small, quiet)

pub round-put_line :
    (c : ServerCodec) (pri delay ttr size : ℕ) (rest : Bytes)
    → pri ≤ max_u32
    → delay ≤ max_u32
    → ttr ≤ max_u32
    → size ≤ max_u32
    → size ≤ c.max_job_size
    → c.emit_put_started ≡ false
    → round c (line false) (put_line_text pri delay ttr size [] ++ crlf rest)
      ≡ again (put_body pri delay ttr size) rest
unfolding round line_round scanned
round-put_line c pri delay ttr size rest hp hd ht hs fits quiet =
    let text = put_line_text pri delay ttr size [] in
    let short = put_line-length pri delay ttr size hp hd ht hs in
    let at = scan-text text rest (put_line-no_cr pri delay ttr size) (omega arith) in
    let after = cut_body text rest in
    rw (at, take-length text (crlf rest), after.1)
      (take_line-put c pri delay ttr size rest hp hd ht hs fits quiet)

-- A whole `put`, its line with four 32-bit numbers of which the last is the length of the body,
-- and the body of any bytes with its line end, is decoded to that command, and the bytes behind it
-- are left, if the codec is between lines, the body is not above its limit, and it does not
-- announce bodies.
pub decode-put :
    (c : ServerCodec) (pri delay ttr : ℕ) (body more : Bytes)
    → c.state ≡ line false
    → c.emit_put_started ≡ false
    → pri ≤ max_u32
    → delay ≤ max_u32
    → ttr ≤ max_u32
    → length body ≤ max_u32
    → length body ≤ c.max_job_size
    → decode c (put_line_text pri delay ttr (length body) [] ++ crlf (body ++ crlf more))
      ≡ frame (Frame.command (Command.put pri delay ttr body)) (line false) more
unfolding decode
decode-put c pri delay ttr body more state quiet hp hd ht hs fits =
    let text = put_line_text pri delay ttr (length body) [] in
    let rest = body ++ crlf more in
    let src = text ++ crlf rest in
    let first = round-put_line c pri delay ttr (length body) rest hp hd ht hs fits quiet in
    let sum = length-append text (crlf rest) in
    decode_loop-again (length src) c c.state src (ap (λ s. round c s src) state ∙ first)
    ∙ (decode_loop-fuel (length src) (suc (length rest)) c (put_body pri delay ttr (length body))
          rest (omega arith) (omega arith)
        ∙ decode_loop-yield (length rest) c (put_body pri delay ttr (length body)) rest
            (round-body c pri delay ttr body more))
