-- ===== src/Proto/Codec.antt =====
-- crates/proto/src/codec.rs: `scan_line_end` and `ServerCodec::decode`.
mod Scan
mod Rounds
mod Progress
pub mod Chunks
pub mod PutFrame
pub mod Refused
pub mod LongLine
use beanstalkd_rust.Base.{
  ℕ, zero, suc, ◌+◌, ◌-◌, Bool, true, false, ◌&&◌, Option, none, some, [], ◌∷◌, min, ltb, ◌==◌,
  is_empty, length, take, drop, get_elem?, if◌then◌else◌, ◌>>=◌, Bytes, codes,
}
use beanstalkd_rust.Proto.Types.{Command, Response, PutRejection, Frame, line_buf_size}
use beanstalkd_rust.Proto.Result.{Result, ok, err}
use beanstalkd_rust.Proto.Parse.{PutHeader, ParsedLine, parse_line_raw, starts_with}

pub data State : Type 0 where
  line : Bool → State
  put_body : ℕ → ℕ → ℕ → ℕ → State
  discard : ℕ → State

pub record ServerCodec : Type 0 where
  pub max_job_size : ℕ
  pub state : State
  pub emit_put_started : Bool
  pub recognize_auth : Bool

-- `ServerCodec::new`, and the two options.
unfoldable pub new : ℕ → ServerCodec
new max_job_size = record {
  max_job_size = max_job_size;
  state = line false;
  emit_put_started = false;
  recognize_auth = false;
}

unfoldable pub with_auth : ServerCodec → ServerCodec
with_auth c = record c { recognize_auth = true }

unfoldable pub with_put_started : ServerCodec → ServerCodec
with_put_started c = record c { emit_put_started = true }

pub data LineScan : Type 0 where
  found : ℕ → LineScan
  incomplete : LineScan
  overflow : LineScan

-- `iter().position(|&b| b == b'\r')`
unfoldable pub position_cr : Bytes → Option ℕ
position_cr [] = none
position_cr (b ∷ buf) =
    let rest = position_cr buf in
    if b == 13 then some 0 else elim rest [ none ↦ none | some i ↦ some (suc i) ]

-- `window[pos] == b`
unfoldable pub byte_is : ℕ → Option ℕ → Bool
byte_is b none = false
byte_is b (some c) = c == b

-- Where the line ends: the first `\r` of the window but its last byte, if `\n` follows it.
unfoldable pub find_crlf : Bytes → Option ℕ
unfolding position_cr byte_is
find_crlf window = do
  pos ← position_cr (take (length window - 1) window)
  if byte_is 10 (get_elem? window (suc pos)) then some pos else none

not_found : ℕ → LineScan
not_found window_len = if window_len == line_buf_size then overflow else incomplete

unfoldable pub scan_window : Bytes → LineScan
unfolding find_crlf not_found
scan_window window =
    if ltb (length window) 2
    then not_found (length window)
    else elim (find_crlf window) [ some pos ↦ found pos | none ↦ not_found (length window) ]

unfoldable pub scan_line_end : Bytes → LineScan
unfolding scan_window
scan_line_end buf = scan_window (take line_buf_size buf)

-- What one round of the loop of `decode` does: it waits for more bytes, yields a frame, or goes
-- round again; with the codec's state and the bytes that are left.
pub data Round : Type 0 where
  wait : State → Bytes → Round
  yield : Frame → State → Bytes → Round
  again : State → Bytes → Round

-- An accepted `put` line: the body is read, or discarded if it is too big.
put_line : ServerCodec → PutHeader → Bytes → Round
put_line c h src =
    let start = λ (s : State) (too_big : Bool).
      if c.emit_put_started then yield (Frame.put_started too_big) s src else again s src in
    if ltb c.max_job_size h.body_size
    then start (discard (h.body_size + 2)) true
    else if h.trailing_garbage
    then yield (Frame.put_rejected PutRejection.trailing_garbage) (line false) src
    else start (put_body h.pri h.delay h.ttr h.body_size) false

parsed_line : ServerCodec → Result ParsedLine → Bytes → Round
unfolding put_line
parsed_line c (err r) src = yield (Frame.error r) (line false) src
parsed_line c (ok (ParsedLine.command cmd)) src = yield (Frame.command cmd) (line false) src
parsed_line c (ok (ParsedLine.put h)) src = put_line c h src

-- A whole line without its `\r\n`, and the bytes after it.
unfoldable pub take_line : ServerCodec → Bool → Bytes → Bytes → Round
unfolding parsed_line
take_line c was_overflowed l src =
    if was_overflowed
    then yield (Frame.error Response.bad_format) (line false) src
    else if c.recognize_auth && starts_with (codes "auth ") l
    then yield (Frame.auth (drop 5 l)) (line false) src
    else parsed_line c (parse_line_raw l) src

scanned : ServerCodec → Bool → Bytes → LineScan → Round
unfolding take_line
scanned c overflowed src incomplete = wait (line overflowed) src
scanned c overflowed src overflow = again (line true) (drop line_buf_size src)
scanned c overflowed src (found len) = take_line c overflowed (take len src) (drop (len + 2) src)

line_round : ServerCodec → Bool → Bytes → Round
unfolding scanned
line_round c overflowed src = scanned c overflowed src (scan_line_end src)

-- The body with its `\r\n`, and the bytes after it.
pub body_frame : ℕ → ℕ → ℕ → ℕ → Bytes → Frame
body_frame pri delay ttr size body =
    if byte_is 13 (get_elem? body size) && byte_is 10 (get_elem? body (suc size))
    then Frame.command (Command.put pri delay ttr (take size body))
    else Frame.put_rejected PutRejection.expected_crlf

pub body_round : ℕ → ℕ → ℕ → ℕ → Bytes → Round
unfolding body_frame byte_is
body_round pri delay ttr size src =
    if ltb (length src) (size + 2)
    then wait (put_body pri delay ttr size) src
    else yield (body_frame pri delay ttr size (take (size + 2) src)) (line false)
        (drop (size + 2) src)

pub discard_round : ℕ → Bytes → Round
discard_round remaining src =
    let n = min remaining (length src) in
    if is_empty src
    then wait (discard remaining) src
    else if ltb 0 (remaining - n)
    then wait (discard (remaining - n)) (drop n src)
    else yield (Frame.put_rejected PutRejection.job_too_big) (line false) (drop n src)

unfoldable pub round : ServerCodec → State → Bytes → Round
unfolding line_round body_round discard_round
round c (line overflowed) src = line_round c overflowed src
round c (put_body pri delay ttr size) src = body_round pri delay ttr size src
round c (discard remaining) src = discard_round remaining src

-- The result of `decode`: a frame if there is one, with the state and the bytes left.
pub data Decoded : Type 0 where
  pending : State → Bytes → Decoded
  frame : Frame → State → Bytes → Decoded
  out_of_fuel : Decoded

unfoldable pub decode_loop : ℕ → ServerCodec → State → Bytes → Decoded
unfolding round
decode_loop zero c s src = out_of_fuel
decode_loop (suc fuel) c s src = elim (round c s src) [
  | wait s' src' ↦ pending s' src'
  | yield f s' src' ↦ frame f s' src'
  | again s' src' ↦ decode_loop fuel c s' src'
]

-- Every round that goes on has taken a line or a window from the buffer.
unfoldable pub decode : ServerCodec → Bytes → Decoded
unfolding decode_loop
decode c src = decode_loop (suc (length src)) c c.state src
