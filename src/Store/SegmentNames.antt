-- ===== src/Store/SegmentNames.antt =====
-- crates/store/src/replay.rs: the names of the segment files, and the text of a corruption.
use beanstalkd_rust.Base.{
  ℕ, ◌+◌, ◌-◌, ◌*◌, Bool, false, ◌&&◌, ◌||◌, not, Option, none, some, [], ◌∷◌, ◌++◌, Bytes, codes,
  all, ltb, leb, ◌==◌, is_empty, if◌then◌else◌, max_u64, ◌>>=◌,
}
use beanstalkd_rust.Proto.Decimal.{decimal}

-- `str::parse::<u64>` on digits
parse_u64 : ℕ → Bytes → Option ℕ
parse_u64 n [] = some n
parse_u64 n (b ∷ digits) =
    let m = n * 10 + (b - b'0') in
    let rest = parse_u64 m digits in if ltb max_u64 m then none else rest

strip_prefix : Bytes → Bytes → Option Bytes
strip_prefix [] name = some name
strip_prefix (p ∷ prefix) [] = none
strip_prefix (p ∷ prefix) (b ∷ name) =
    let rest = strip_prefix prefix name in if p == b then rest else none

starts_with_zero : Bytes → Bool
starts_with_zero [] = false
starts_with_zero (b ∷ digits) = b == b'0'

is_ascii_digit : ℕ → Bool
is_ascii_digit b = leb b'0' b && leb b b'9'

at_least_one : ℕ → Option ℕ
at_least_one n = if leb 1 n then some n else none

unfoldable pub segment_index : Bytes → Option ℕ
unfolding strip_prefix starts_with_zero is_ascii_digit parse_u64 at_least_one
segment_index name = do
  digits ← strip_prefix (codes "binlog.") name
  if is_empty digits || not (all is_ascii_digit digits) || starts_with_zero digits
      then none
      else parse_u64 0 digits >>= at_least_one

-- The name that `segment_path` joins to the directory.
unfoldable pub segment_name : ℕ → Bytes
unfolding decimal
segment_name index = codes "binlog." ++ decimal index

-- `corrupt`: the text of the error.
unfoldable pub corrupt : ℕ → ℕ → Bytes → Bytes
unfolding segment_name decimal
corrupt index off why = segment_name index ++ codes " offset " ++ decimal off ++ codes ": " ++ why
