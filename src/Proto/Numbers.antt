-- ===== src/Proto/Numbers.antt =====
-- crates/proto/src/parse.rs: tube names and numbers in a command line. A slice is the list of its
-- bytes, and a reader returns the value with the bytes after it.
pub mod Printed
pub mod Limits
use beanstalkd_rust.Base.{
  ℕ, ◌+◌, ◌-◌, ◌*◌, ◌%◌, ◌^◌, ◌≡◌, refl, Bool, true, false, ◌&&◌, ◌||◌, Option, none, some, [], ◌∷◌,
  min, leb, ltb, ◌==◌, is_empty, length, all, if◌then◌else◌, ◌>>=◌, Bytes, codes, max_u64, max_u32,
}
use beanstalkd_rust.Proto.Types.{TubeName, max_tube_name_len}

unfoldable pub is_ascii_digit : ℕ → Bool
is_ascii_digit b = leb b'0' b && leb b b'9'

is_ascii_alphanumeric : ℕ → Bool
unfolding is_ascii_digit
is_ascii_alphanumeric b =
    is_ascii_digit b || (leb b'A' b && leb b b'Z') || (leb b'a' b && leb b b'z')

unfoldable pub is_name_char : ℕ → Bool
unfolding is_ascii_alphanumeric
is_name_char b =
    is_ascii_alphanumeric b
    || b == b'-'
    || b == b'+'
    || b == b'/'
    || b == b';'
    || b == b'.'
    || b == b'$'
    || b == b'_'
    || b == b'('
    || b == b')'

starts_with_dash : Bytes → Bool
starts_with_dash [] = false
starts_with_dash (b ∷ name) = b == b'-'

-- `TubeName::new`, by `validate_tube_name`
unfoldable pub tube_name_new : Bytes → Option TubeName
unfolding starts_with_dash
tube_name_new name =
    if is_empty name || ltb max_tube_name_len (length name)
    then none
    else if starts_with_dash name
    then none
    else if all is_name_char name
    then some name
    else none

unfoldable pub skip_leading_spaces : Bytes → Bytes
skip_leading_spaces [] = []
skip_leading_spaces (b ∷ buf) =
    let rest = skip_leading_spaces buf in if b == b' ' then rest else b ∷ buf

abbrev pub max_u128 : ℕ
max_u128 = 2 ^ 128 - 1

-- `val.saturating_mul(10).saturating_add(d)` in `u128`
unfoldable pub push_digit : ℕ → ℕ → ℕ
push_digit val b = min (min (val * 10) max_u128 + (b - b'0')) max_u128

-- The digits at the front of the buffer, on top of `val`, and what follows them.
unfoldable pub run_digits : ℕ → Bytes → ℕ × Bytes
unfolding is_ascii_digit push_digit
run_digits val [] = (val, [])
run_digits val (b ∷ buf) =
    let more = run_digits (push_digit val b) buf in
    if is_ascii_digit b then more else (val, b ∷ buf)

unfoldable pub parse_digits : Bytes → Option (ℕ × Bytes)
unfolding run_digits
parse_digits [] = none
parse_digits (b ∷ buf) = if is_ascii_digit b then some (run_digits 0 (b ∷ buf)) else none

-- `None` above the limit
unfoldable pub at_most : ℕ → ℕ × Bytes → Option (ℕ × Bytes)
at_most limit (val, rest) = if ltb limit val then none else some (val, rest)

unfoldable pub read_u64_partial : Bytes → Option (ℕ × Bytes)
unfolding parse_digits skip_leading_spaces at_most
read_u64_partial buf = do r ← parse_digits (skip_leading_spaces buf); at_most max_u64 r

unfoldable pub read_u32_partial : Bytes → Option (ℕ × Bytes)
unfolding read_u64_partial at_most
read_u32_partial buf = do r ← read_u64_partial buf; at_most max_u32 r

-- `rest.is_empty().then_some(val)`
unfoldable pub whole : ℕ × Bytes → Option ℕ
whole (val, rest) = if is_empty rest then some val else none

unfoldable pub read_u64_full : Bytes → Option ℕ
unfolding read_u64_partial whole
read_u64_full buf = do r ← read_u64_partial buf; whole r

unfoldable pub read_u32_full : Bytes → Option ℕ
unfolding read_u32_partial whole
read_u32_full buf = do r ← read_u32_partial buf; whole r

-- The name characters at the front, and what follows them.
unfoldable pub span_name : Bytes → Bytes × Bytes
span_name [] = ([], [])
span_name (b ∷ buf) =
    let (name, rest) = span_name buf in if is_name_char b then (b ∷ name, rest) else ([], b ∷ buf)

nonempty_span : Bytes × Bytes → Option (Bytes × Bytes)
nonempty_span (name, rest) = if is_empty name then none else some (name, rest)

unfoldable pub read_tube_name_span : Bytes → Option (Bytes × Bytes)
unfolding span_name nonempty_span skip_leading_spaces
read_tube_name_span buf = nonempty_span (span_name (skip_leading_spaces buf))

-- `u8::is_ascii_whitespace`: space, tab, line feed, form feed and carriage return.
unfoldable pub is_ascii_whitespace : ℕ → Bool
is_ascii_whitespace b = b == 32 || b == 9 || b == 10 || b == 12 || b == 13

unfoldable pub skip_whitespace : Bytes → Bytes
unfolding is_ascii_whitespace
skip_whitespace [] = []
skip_whitespace (b ∷ buf) =
    let rest = skip_whitespace buf in if is_ascii_whitespace b then rest else b ∷ buf

-- Whether the number is negative, and what follows its sign.
unfoldable pub read_sign : Bytes → Bool × Bytes
read_sign [] = (false, [])
read_sign (b ∷ buf) =
    if b == b'-' then (true, buf) else if b == b'+' then (false, buf) else (false, b ∷ buf)

-- `val.wrapping_neg()` in `u64`, then the low 32 bits
unfoldable pub kick_word : Bool → ℕ → ℕ
kick_word negative val = (if negative then (2 ^ 64 - val) % 2 ^ 64 else val) % 2 ^ 32

unfoldable pub parse_kick_count : Bytes → Option ℕ
unfolding skip_whitespace read_sign parse_digits at_most kick_word
parse_kick_count buf =
    let (negative, digits) = read_sign (skip_whitespace buf) in
    do r ← parse_digits digits; (val, rest) ← at_most max_u64 r; some (kick_word negative val)

kick_minus_one : parse_kick_count (codes " -1x") ≡ some max_u32
unfolding parse_kick_count
kick_minus_one = refl
