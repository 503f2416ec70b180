-- ===== src/Proto/Decimal.antt =====
-- Decimal printing: what `format!("{}")` and `format!("{:06}")` write for an unsigned integer.
use beanstalkd_rust.Base.{
  ℕ, zero, suc, ◌+◌, ◌-◌, ◌/◌, ◌%◌, ◌≡◌, refl, [], ◌∷◌, ◌++◌, Bytes, codes, ltb, length,
  if◌then◌else◌,
}

-- The digits of `n` before `acc`; each round takes the last digit, so fuel above `n` is enough.
unfoldable pub digits : ℕ → ℕ → Bytes → Bytes
digits zero n acc = acc
digits (suc fuel) n acc =
    let more = digits fuel (n / 10) ((b'0' + n % 10) ∷ acc) in
    if ltb n 10 then (b'0' + n) ∷ acc else more

unfoldable pub decimal : ℕ → Bytes
unfolding digits
decimal n = digits (suc n) n []

zeros : ℕ → Bytes
zeros zero = []
zeros (suc n) = b'0' ∷ zeros n

unfoldable pub decimal6 : ℕ → Bytes
unfolding decimal zeros
decimal6 n = let s = decimal n in zeros (6 - length s) ++ s

decimal_runs : decimal 18446744073709551615 ≡ codes "18446744073709551615"
unfolding decimal
decimal_runs = refl

decimal6_runs : decimal6 1203 ≡ codes "001203"
unfolding decimal6
decimal6_runs = refl
