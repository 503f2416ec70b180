-- ===== src/Store/Words.antt =====
-- crates/store/src/format.rs: little-endian integers, and the cursor `Cur` over a payload, which is
-- the bytes that are left.
use beanstalkd_rust.Base.{
  ℕ, zero, suc, ◌+◌, ◌*◌, ◌/◌, ◌%◌, ◌^◌, ◌≡◌, ◌<◌, refl, arith, false, Option, none, some, [], ◌∷◌,
  ◌++◌, Bytes, length, take, drop, ltb, if◌then◌else◌, sym, ◌∙◌, length-append, take-length,
  drop-length, ap, ◌>>=◌,
}
use native.Mathlib.Nat.{pow-suc}

-- `to_le_bytes` of a number in `n` bytes, and `from_le_bytes`.
unfoldable pub to_le : ℕ → ℕ → Bytes
to_le zero v = []
to_le (suc n) v = v % 256 ∷ to_le n (v / 256)

unfoldable pub from_le : Bytes → ℕ
from_le [] = 0
from_le (b ∷ bytes) = b + 256 * from_le bytes

-- `Cur::take`
unfoldable pub cur_take : ℕ → Bytes → Option (Bytes × Bytes)
cur_take n buf = if ltb (length buf) n then none else some (take n buf, drop n buf)

-- `Cur::u8`, `Cur::u32` and `Cur::u64`, by the number of bytes.
unfoldable pub cur_uint : ℕ → Bytes → Option (ℕ × Bytes)
unfolding cur_take from_le
cur_uint n buf = do (b, rest) ← cur_take n buf; some (from_le b, rest)

pub to_le-length : (n v : ℕ) → length (to_le n v) ≡ n
unfolding to_le
to_le-length zero v = refl
to_le-length (suc n) v = ap suc (to_le-length n (v / 256))

pub from_le-to_le : (n v : ℕ) → v < 256 ^ n → from_le (to_le n v) ≡ v
unfolding to_le from_le
from_le-to_le zero v h = omega arith
from_le-to_le (suc n) v h =
    let power = pow-suc 256 n in omega (arith, from_le-to_le n (v / 256) (omega arith))

pub cur_take-append : (b rest : Bytes) → cur_take (length b) (b ++ rest) ≡ some (b, rest)
unfolding cur_take
cur_take-append b rest =
    let long = length-append b rest in
    let enough : ltb (length (b ++ rest)) (length b) ≡ false = ground arith in
    rw (enough, take-length b rest, drop-length b rest)

-- A number that is read back where it was written.
pub cur_uint-to_le :
    (n v : ℕ) (rest : Bytes) → v < 256 ^ n → cur_uint n (to_le n v ++ rest) ≡ some (v, rest)
unfolding cur_uint
cur_uint-to_le n v rest h =
    let took =
      ap (λ k. cur_take k (to_le n v ++ rest)) (sym (to_le-length n v))
      ∙ cur_take-append (to_le n v) rest in
    rw (cur_uint, took, from_le-to_le n v h)

pub cur_uint-byte : (b : ℕ) (rest : Bytes) → cur_uint 1 (b ∷ rest) ≡ some (b, rest)
unfolding cur_uint
cur_uint-byte b rest = ground arith

pub to_le-byte : (b : ℕ) → b < 256 → to_le 1 b ≡ b ∷ []
unfolding to_le
to_le-byte b h = ground arith
