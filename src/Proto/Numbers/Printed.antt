-- ===== src/Proto/Numbers/Printed.antt =====
-- The number readers on what `decimal` prints, and the limits of what they read.
use beanstalkd_rust.Base.{
  ℕ, zero, suc, ◌+◌, ◌*◌, ◌/◌, ◌%◌, ◌^◌, ◌≡◌, ◌<◌, ◌≤◌, refl, ap, arith, sym, ◌∙◌, Bool, true,
  false, Bool-cases, inl, inr, if◌then◌else◌, ltb, leb, none, some, Option-cases, [], ◌∷◌, ◌++◌,
  Bytes, max_u64, max_u32, ◌>>=◌, le_or_lt, any, length, ◌==◌,
}
use native.Mathlib.Nat.{pow-suc}
use beanstalkd_rust.Proto.Decimal.{digits, decimal}
use beanstalkd_rust.Proto.Numbers.{
  is_ascii_digit, push_digit, run_digits, parse_digits, at_most, read_u64_partial, read_u32_partial,
  skip_leading_spaces,
}

-- The rest does not go on with a digit.
unfoldable pub ends : Bytes → Bool
unfolding is_ascii_digit
ends [] = true
ends (b ∷ rest) = if is_ascii_digit b then false else true

digit_is : (d : ℕ) → d < 10 → is_ascii_digit (b'0' + d) ≡ true
unfolding is_ascii_digit
digit_is d h = ground arith

run_digits-ends : (val : ℕ) (rest : Bytes) → ends rest ≡ true → run_digits val rest ≡ (val, rest)
unfolding run_digits ends
run_digits-ends val [] h = refl
run_digits-ends val (b ∷ rest) h = elim (Bool-cases (is_ascii_digit b)) [
  | inl t ↦ ground arith
  | inr f ↦ rw (run_digits, f)
]

push_digit-small :
    (val d : ℕ) → d < 10 → val * 10 + d ≤ max_u64 → push_digit val (b'0' + d) ≡ val * 10 + d
unfolding push_digit
push_digit-small val d h k = omega arith

run_digits-cons :
    (val d : ℕ) (buf : Bytes)
    → d < 10
    → val * 10 + d ≤ max_u64
    → run_digits val ((b'0' + d) ∷ buf) ≡ run_digits (val * 10 + d) buf
unfolding run_digits
run_digits-cons val d buf h k = rw (run_digits, digit_is d h, push_digit-small val d h k)

-- Reading what `digits` writes, with `acc` still to be read.
run_digits-digits :
    (fuel n : ℕ) (acc : Bytes)
    → n < fuel
    → n ≤ max_u64
    → run_digits 0 (digits fuel n acc) ≡ run_digits n acc
unfolding digits
run_digits-digits zero n acc h k = absurd (omega arith)
run_digits-digits (suc fuel) n acc h k = elim (Bool-cases (ltb n 10)) [
  | inl t ↦
      let small : n < 10 = ground arith in
      let e : 0 * 10 + n ≡ n = omega arith in
      rw (digits, t) (run_digits-cons 0 n acc small (omega arith) ∙ ap (λ v. run_digits v acc) e)
  | inr f ↦
      let big : 10 ≤ n = ground arith in
      let d : n % 10 < 10 = omega arith in
      let e : n / 10 * 10 + n % 10 ≡ n = omega arith in
      rw (digits, f)
        (run_digits-digits fuel (n / 10) ((b'0' + n % 10) ∷ acc) (omega arith) (omega arith)
          ∙ (run_digits-cons (n / 10) (n % 10) acc d (omega arith) ∙ ap (λ v. run_digits v acc) e))
]

digits-append :
    (fuel n : ℕ) (acc rest : Bytes) → digits fuel n acc ++ rest ≡ digits fuel n (acc ++ rest)
unfolding digits
digits-append zero n acc rest = refl
digits-append (suc fuel) n acc rest = elim (Bool-cases (ltb n 10)) [
  | inl t ↦ rw (digits, t)
  | inr f ↦ rw (digits, f) (digits-append fuel (n / 10) ((b'0' + n % 10) ∷ acc) rest)
]

-- What `digits` writes begins with a digit.
digits-head :
    (fuel n : ℕ) (acc : Bytes)
    → n < fuel
    → (d : ℕ) × (rest : Bytes) × (d < 10) × (digits fuel n acc ≡ (b'0' + d) ∷ rest)
unfolding digits
digits-head zero n acc h = absurd (omega arith)
digits-head (suc fuel) n acc h = elim (Bool-cases (ltb n 10)) [
  | inl t ↦ (n, acc, ground arith, rw (digits, t))
  | inr f ↦
      let big : 10 ≤ n = ground arith in
      let (d, rest, small, e) = digits-head fuel (n / 10) ((b'0' + n % 10) ∷ acc) (omega arith) in
      (d, rest, small, rw (digits, f) e)
]

parse_digits-digit :
    (d : ℕ) (buf : Bytes)
    → d < 10
    → parse_digits ((b'0' + d) ∷ buf) ≡ some (run_digits 0 ((b'0' + d) ∷ buf))
unfolding parse_digits
parse_digits-digit d buf h = rw (parse_digits, digit_is d h)

skip_leading_spaces-digit :
    (d : ℕ) (buf : Bytes) → skip_leading_spaces ((b'0' + d) ∷ buf) ≡ (b'0' + d) ∷ buf
unfolding skip_leading_spaces
skip_leading_spaces-digit d buf =
    let other : ((b'0' + d) == b' ') ≡ false = ground arith in rw (skip_leading_spaces, other)

parse_digits-decimal :
    (n : ℕ) (rest : Bytes)
    → n ≤ max_u64
    → ends rest ≡ true
    → (skip_leading_spaces (decimal n ++ rest) ≡ decimal n ++ rest)
      × (parse_digits (decimal n ++ rest) ≡ some (n, rest))
unfolding decimal
parse_digits-decimal n rest h k =
    let whole_text = digits-append (suc n) n [] rest in
    let (d, more, small, e) = digits-head (suc n) n rest (omega arith) in
    let begins = whole_text ∙ e in
    let runs = run_digits-digits (suc n) n rest (omega arith) h ∙ run_digits-ends n rest k in
    (
      ap skip_leading_spaces begins ∙ (skip_leading_spaces-digit d more ∙ sym begins),
      ap parse_digits begins
          ∙ (parse_digits-digit d more small ∙ ap some (ap (run_digits 0) (sym e) ∙ runs)),
    )

at_most-fits : (limit n : ℕ) (rest : Bytes) → n ≤ limit → at_most limit (n, rest) ≡ some (n, rest)
unfolding at_most
at_most-fits limit n rest h = let fits : ltb limit n ≡ false = ground arith in rw fits

-- Leading spaces do not matter.
pub read_u64-space : (buf : Bytes) → read_u64_partial (b' ' ∷ buf) ≡ read_u64_partial buf
unfolding read_u64_partial skip_leading_spaces
read_u64-space buf = refl

-- `read_u64_partial` reads back the decimal digits of any 64-bit number, and stops behind them.
pub read_u64_partial-decimal :
    (n : ℕ) (rest : Bytes)
    → n ≤ max_u64
    → ends rest ≡ true
    → read_u64_partial (decimal n ++ rest) ≡ some (n, rest)
unfolding read_u64_partial
read_u64_partial-decimal n rest h k =
    let (no_spaces, parsed) = parse_digits-decimal n rest h k in
    rw (read_u64_partial, no_spaces, parsed) (at_most-fits max_u64 n rest h)

at_most-cut :
    (limit n : ℕ) (rest : Bytes)
    → at_most limit (n, rest) ≡ (if leb n limit then some (n, rest) else none)
unfolding at_most
at_most-cut limit n rest = elim (le_or_lt n limit) [
  | inl h ↦ let under : leb n limit ≡ true = ground arith in rw (at_most-fits limit n rest h, under)
  | inr h ↦
      let over : leb n limit ≡ false = ground arith in
      let out : ltb limit n ≡ true = ground arith in rw (over, out)
]

at_most-bound :
    (limit : ℕ) (p : ℕ × Bytes) {n : ℕ} {rest : Bytes}
    → at_most limit p ≡ some (n, rest)
    → n ≤ limit
unfolding at_most
at_most-bound limit (v, r) h = ground arith

-- `read_u32_partial` reads back the decimal digits of any 32-bit number, and refuses those of a
-- larger 64-bit number.
pub read_u32_partial-decimal :
    (n : ℕ) (rest : Bytes)
    → n ≤ max_u64
    → ends rest ≡ true
    → read_u32_partial (decimal n ++ rest) ≡ (if leb n max_u32 then some (n, rest) else none)
unfolding read_u32_partial
read_u32_partial-decimal n rest h k =
    rw (read_u32_partial, read_u64_partial-decimal n rest h k) (at_most-cut max_u32 n rest)

-- A number that `read_u64_partial` reads fits in 64 bits.
pub read_u64_partial-bound :
    (buf : Bytes) {n : ℕ} {rest : Bytes} → read_u64_partial buf ≡ some (n, rest) → n ≤ max_u64
unfolding read_u64_partial
read_u64_partial-bound buf {n} {rest} h =
    elim (Option-cases (parse_digits (skip_leading_spaces buf))) [
      | inl e ↦ let clash = sym (ap (λ o. o >>= at_most max_u64) e) ∙ h in ground arith
      | inr (p, e) ↦ at_most-bound max_u64 p (sym (ap (λ o. o >>= at_most max_u64) e) ∙ h)
    ]

-- A number that `read_u32_partial` reads fits in 32 bits.
pub read_u32_partial-bound :
    (buf : Bytes) {n : ℕ} {rest : Bytes} → read_u32_partial buf ≡ some (n, rest) → n ≤ max_u32
unfolding read_u32_partial
read_u32_partial-bound buf {n} {rest} h = elim (Option-cases (read_u64_partial buf)) [
  | inl e ↦ ground arith
  | inr (p, e) ↦ at_most-bound max_u32 p (sym (ap (λ o. o >>= at_most max_u32) e) ∙ h)
]

pub read_u32_partial-space : (buf : Bytes) → read_u32_partial (b' ' ∷ buf) ≡ read_u32_partial buf
unfolding read_u32_partial
read_u32_partial-space buf = ap (λ o. o >>= at_most max_u32) (read_u64-space buf)

pub read_u32-decimal :
    (n : ℕ) (rest : Bytes)
    → n ≤ max_u32
    → ends rest ≡ true
    → read_u32_partial (decimal n ++ rest) ≡ some (n, rest)
read_u32-decimal n rest h k =
    let under : leb n max_u32 ≡ true = ground arith in
    read_u32_partial-decimal n rest (omega arith) k ∙ rw under

-- No digit is the NUL byte.
pub digits-all :
    (p : ℕ → Bool) (fuel n : ℕ) (acc : Bytes)
    → ((d : ℕ) → d < 10 → p (b'0' + d) ≡ false)
    → any p acc ≡ false
    → n < fuel
    → any p (digits fuel n acc) ≡ false
unfolding digits
digits-all p zero n acc each h k = h
digits-all p (suc fuel) n acc each h k = elim (Bool-cases (ltb n 10)) [
  | inl t ↦ rw (digits, t, each n (ground arith)) h
  | inr f ↦
      let big : 10 ≤ n = ground arith in
      let next : any p ((b'0' + n % 10) ∷ acc) ≡ false = rw (each (n % 10) (omega arith)) h in
      rw (digits, f) (digits-all p fuel (n / 10) ((b'0' + n % 10) ∷ acc) each next (omega arith))
]

pub decimal-any :
    (p : ℕ → Bool) (n : ℕ) (rest : Bytes)
    → ((d : ℕ) → d < 10 → p (b'0' + d) ≡ false)
    → any p rest ≡ false
    → any p (decimal n ++ rest) ≡ false
unfolding decimal
decimal-any p n rest each h =
    rw (digits-append (suc n) n [] rest) (digits-all p (suc n) n rest each h (omega arith))

digits-length :
    (k fuel n : ℕ) (acc : Bytes)
    → n < fuel
    → n < 10 ^ suc k
    → length (digits fuel n acc) ≤ suc k + length acc
unfolding digits
digits-length k zero n acc h b = absurd (omega arith)
digits-length zero (suc fuel) n acc h b =
    let small : ltb n 10 ≡ true = ground arith in rw (digits, small) (omega arith)
digits-length (suc k) (suc fuel) n acc h b = elim (Bool-cases (ltb n 10)) [
  | inl t ↦ rw (digits, t) (omega arith)
  | inr f ↦
      let big : 10 ≤ n = ground arith in
      let power = pow-suc 10 (suc k) in
      let rest =
        digits-length k fuel (n / 10) ((b'0' + n % 10) ∷ acc) (omega arith) (omega arith) in
      rw (digits, f) (omega arith)
]

-- A 32-bit number has at most ten digits.
pub decimal-length :
    (n : ℕ) (rest : Bytes) → n ≤ max_u32 → length (decimal n ++ rest) ≤ 10 + length rest
unfolding decimal
decimal-length n rest h =
    rw (digits-append (suc n) n [] rest)
      (digits-length 9 (suc n) n rest (omega arith) (omega arith))
