-- ===== src/Proto/Codec/LongLine.antt =====
-- `ServerCodec::decode` on a line that is longer than the line buffer.
use beanstalkd_rust.Base.{
  ℕ, zero, suc, ◌+◌, ◌-◌, ◌≤◌, ◌≡◌, refl, sym, ◌∙◌, ap, Bool, true, false, arith, length, ◌++◌, [],
  ◌∷◌, Bytes, length-append, any, take, drop, take-length, drop-length, ◌==◌, none, ltb, inl, inr,
  Bool-cases, ◌<◌, ◌%◌, if◌then◌else◌, take-take, take-append, take-append-drop, length-take,
  length-drop, append_assoc, le_or_lt,
}
use beanstalkd_rust.Proto.Types.{Frame, Response, line_buf_size}
use beanstalkd_rust.Proto.Codec.{
  line, ServerCodec, overflow, position_cr, find_crlf, not_found, scan_window, scan_line_end,
  scanned, line_round, take_line, yield, again, round, frame, decode, Decoded,
}
use beanstalkd_rust.Proto.Codec.Chunks.{
  decode_loop-yield, decode_loop-again, decode_loop-fuel, decode_loop-state,
}
use beanstalkd_rust.Proto.Codec.PutFrame.{crlf, scan-text, cut_body}

position_cr-none :
    (n : ℕ) (w : Bytes) → any (λ b. b == 13) w ≡ false → position_cr (take n w) ≡ none
unfolding position_cr
position_cr-none zero w h = refl
position_cr-none (suc n) [] h = refl
position_cr-none (suc n) (b ∷ w) h = elim (Bool-cases (b == 13)) [
  | inl t ↦ ground arith
  | inr f ↦
      let tail : any (λ b. b == 13) w ≡ false = ground arith in
      rw (position_cr, f, position_cr-none n w tail)
]

-- A window in which no line can end: no carriage return stands before its last byte.
abbrev IsEndless : Bytes → Type 0
IsEndless w = (length w ≡ line_buf_size) × (position_cr (take (length w - 1) w) ≡ none)

window-overflows : (w : Bytes) → IsEndless w → scan_window w ≡ overflow
unfolding scan_window find_crlf not_found
window-overflows w (size, no_cr) =
    let full : (length w == line_buf_size) ≡ true = ground arith in
    let long : ltb (length w) 2 ≡ false = ground arith in
    rw (scan_window, long, find_crlf, no_cr, full)

round-overflows :
    (c : ServerCodec) (o : Bool) (w rest : Bytes)
    → IsEndless w
    → round c (line o) (w ++ rest) ≡ again (line true) rest
unfolding round line_round scanned scan_line_end
round-overflows c o w rest (size, no_cr) =
    let window = ap (λ n. take n (w ++ rest)) (sym size) ∙ take-length w rest in
    let left = ap (λ n. drop n (w ++ rest)) (sym size) ∙ drop-length w rest in
    ap (λ l. scanned c o (w ++ rest) (scan_window l)) window
    ∙ ap (scanned c o (w ++ rest)) (window-overflows w (size, no_cr))
    ∙ ap (again (line true)) left

-- An endless window is dropped, and what follows is read as the rest of a line that is too long.
decode-overflows :
    (c : ServerCodec) (o : Bool) (w rest : Bytes)
    → c.state ≡ line o
    → IsEndless w
    → decode c (w ++ rest) ≡ decode (record c { state = line true }) rest
unfolding decode
decode-overflows c o w rest state (size, no_cr) =
    let src = w ++ rest in
    let first = round-overflows c o w rest (size, no_cr) in
    let sum = length-append w rest in
    decode_loop-again (length src) c c.state src (ap (λ s. round c s src) state ∙ first)
    ∙ decode_loop-fuel (length src) (suc (length rest)) c (line true) rest (omega arith)
        (omega arith)
    ∙ sym (decode_loop-state (suc (length rest)) c (line true) (line true) rest)

round-ends :
    (c : ServerCodec) (text more : Bytes)
    → any (λ b. b == 13) text ≡ false
    → length text + 2 ≤ line_buf_size
    → round c (line true) (text ++ crlf more)
      ≡ yield (Frame.error Response.bad_format) (line false) more
unfolding round line_round scanned take_line
round-ends c text more h size =
    rw (scan-text text more h size)
      (ap (yield (Frame.error Response.bad_format) (line false)) (cut_body text more).1)

any-drop :
    (n : ℕ) (w : Bytes) → any (λ b. b == 13) w ≡ false → any (λ b. b == 13) (drop n w) ≡ false
any-drop zero w h = h
any-drop (suc n) [] h = refl
any-drop (suc n) (b ∷ w) h = any-drop n w (ground arith)

-- A line of at least a window loses its first window; one that is a byte shorter takes its carriage
-- return with it.
window-IsEndless :
    (text : Bytes)
    → any (λ b. b == 13) text ≡ false
    → line_buf_size ≤ length text
    → IsEndless (take line_buf_size text)
window-IsEndless text no_cr long =
    let e = length-take line_buf_size text in
    let size : length (take line_buf_size text) ≡ line_buf_size = omega arith in
    let before : take (length (take line_buf_size text) - 1) (take line_buf_size text)
        ≡ take (line_buf_size - 1) text =
      ap (λ n. take (n - 1) (take line_buf_size text)) size
      ∙ take-take (line_buf_size - 1) line_buf_size text (omega arith) in
    (size, ap position_cr before ∙ position_cr-none (line_buf_size - 1) text no_cr)

split-IsEndless :
    (text : Bytes)
    → any (λ b. b == 13) text ≡ false
    → length text ≡ line_buf_size - 1
    → IsEndless (text ++ 13 ∷ [])
split-IsEndless text no_cr short =
    let e = length-append text (13 ∷ []) in
    let size : length (text ++ 13 ∷ []) ≡ line_buf_size = omega arith in
    let n : length (text ++ 13 ∷ []) - 1 ≡ length text = omega arith in
    let before : take (length (text ++ 13 ∷ []) - 1) (text ++ 13 ∷ []) ≡ take (length text) text =
      ap (λ k. take k (text ++ 13 ∷ [])) n
      ∙ take-append (length text) text (13 ∷ []) (omega arith) in
    (size, ap position_cr before ∙ position_cr-none (length text) text no_cr)

-- What comes of a line that is too long: it is refused as a whole, or, where a window ends between
-- the two bytes of its end, the line goes on with its line feed.
abbrev pub too_long : ServerCodec → Bytes → Bytes → Decoded
too_long c text more =
    if (length text % line_buf_size) == (line_buf_size - 1)
    then decode (record c { state = line true }) (10 ∷ more)
    else frame (Frame.error Response.bad_format) (line false) more

decode-split :
    (c : ServerCodec) (o : Bool) (text more : Bytes)
    → c.state ≡ line o
    → any (λ b. b == 13) text ≡ false
    → length text ≡ line_buf_size - 1
    → decode c (text ++ crlf more) ≡ too_long c text more
decode-split c o text more state no_cr short =
    let e : ((length text % line_buf_size) == (line_buf_size - 1)) ≡ true = ground arith in
    rw e (
      ap (decode c) (sym (append_assoc text (13 ∷ []) (10 ∷ more)))
      ∙ decode-overflows c o (text ++ 13 ∷ []) (10 ∷ more) state (split-IsEndless text no_cr short))

decode-window :
    (c : ServerCodec) (o : Bool) (text more : Bytes)
    → c.state ≡ line o
    → any (λ b. b == 13) text ≡ false
    → line_buf_size ≤ length text
    → decode c (text ++ crlf more)
      ≡ decode (record c { state = line true }) (drop line_buf_size text ++ crlf more)
decode-window c o text more state no_cr long =
    ap (λ l. decode c (l ++ crlf more)) (sym (take-append-drop line_buf_size text))
    ∙ ap (decode c) (append_assoc (take line_buf_size text) (drop line_buf_size text) (crlf more))
    ∙ decode-overflows c o (take line_buf_size text) (drop line_buf_size text ++ crlf more) state
        (window-IsEndless text no_cr long)

too_long-drop :
    (c : ServerCodec) (text more : Bytes)
    → line_buf_size ≤ length text
    → too_long (record c { state = line true }) (drop line_buf_size text) more
      ≡ too_long c text more
too_long-drop c text more long =
    let left = length-drop line_buf_size text in
    let same : length (drop line_buf_size text) % line_buf_size ≡ length text % line_buf_size =
      omega arith in
    rw same

-- Behind a window that was dropped, a line of any length is too long.
decode-goes_on :
    (n : ℕ) (c : ServerCodec) (text more : Bytes)
    → length text < n
    → c.state ≡ line true
    → any (λ b. b == 13) text ≡ false
    → decode c (text ++ crlf more) ≡ too_long c text more
unfolding decode
decode-goes_on zero c text more h state no_cr = absurd (omega arith)
decode-goes_on (suc n) c text more h state no_cr = elim (le_or_lt line_buf_size (length text)) [
  | inl long ↦
      let left = length-drop line_buf_size text in
      let rest = drop line_buf_size text in
      let c' = record c { state = line true } in
      decode-window c true text more state no_cr long
      ∙ decode-goes_on n c' rest more (omega arith) refl (any-drop line_buf_size text no_cr)
      ∙ too_long-drop c text more long
  | inr few ↦ elim (le_or_lt (line_buf_size - 1) (length text)) [
    | inl split ↦ decode-split c true text more state no_cr (omega arith)
    | inr short ↦
        let whole : ((length text % line_buf_size) == (line_buf_size - 1)) ≡ false = ground arith in
        let src = text ++ crlf more in
        rw whole (
          decode_loop-yield (length src) c c.state src
            (ap (λ s. round c s src) state ∙ round-ends c text more no_cr (omega arith)))
  ]
]

-- A line without a carriage return that does not fit into the line buffer with its end is discarded
-- in windows of the buffer's 224 bytes, whatever command it begins with: it is refused as a whole
-- with BAD_FORMAT, and the bytes behind it are left; but where a window ends between the two bytes
-- of its end, the line goes on with its line feed and the bytes behind. The codec is in a line.
pub decode-long_line :
    (c : ServerCodec) (o : Bool) (text more : Bytes)
    → c.state ≡ line o
    → any (λ b. b == 13) text ≡ false
    → line_buf_size < length text + 2
    → decode c (text ++ crlf more) ≡ too_long c text more
decode-long_line c o text more state no_cr big = elim (le_or_lt line_buf_size (length text)) [
  | inl long ↦
      let rest = drop line_buf_size text in
      let c' = record c { state = line true } in
      decode-window c o text more state no_cr long
      ∙ decode-goes_on (suc (length rest)) c' rest more (omega arith) refl
          (any-drop line_buf_size text no_cr)
      ∙ too_long-drop c text more long
  | inr few ↦ decode-split c o text more state no_cr (omega arith)
]
