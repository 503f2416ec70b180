-- ===== src/Base/Words.antt =====
-- Machine words as native numbers, and byte strings as lists of numbers.
use Prim.Native.Char.{code}
use Prim.Native.Nat.{ℕ, ◌+◌, ◌-◌, ◌%◌, ◌^◌, min}
use Prim.Native.String.{String}
use mathlib.Core.List.{List, [], ◌∷◌}

abbrev pub max_u64 : ℕ
max_u64 = 2 ^ 64 - 1

abbrev pub max_u32 : ℕ
max_u32 = 2 ^ 32 - 1

-- `+= 1` on `u64` and on `u32`, in a release build
unfoldable pub incr64 : ℕ → ℕ
incr64 n = (n + 1) % 2 ^ 64

unfoldable pub incr32 : ℕ → ℕ
incr32 n = (n + 1) % 2 ^ 32

-- `u64::saturating_add`; `saturating_sub` is the subtraction of ℕ
unfoldable pub saturating_add : ℕ → ℕ → ℕ
saturating_add a b = min (a + b) max_u64

abbrev pub Bytes : Type 0
Bytes = List ℕ

-- The bytes of an ASCII literal.
abbrev pub codes : String → Bytes
codes String.[] = []
codes (String.◌∷◌ c s) = code c ∷ codes s
