-- ===== src/Proto/Numbers/Limits.antt =====
-- The limits of what the readers of parse.rs accept.
use beanstalkd_rust.Base.{
  ℕ, ◌-◌, ◌≡◌, ◌≤◌, ap, arith, sym, ◌∙◌, Bool, true, is_empty, if◌then◌else◌, none, some,
  Option-cases, Bool-cases, inl, inr, Bytes, max_u32, max_u64, leb, ltb, is_some, some-inj, ◌%◌,
  ◌^◌, ◌⊎◌, ◌||◌, length, all, ◌>>=◌,
}
use native.Mathlib.Nat.{mod-lt}
use beanstalkd_rust.Proto.Types.{TubeName, max_tube_name_len}
use beanstalkd_rust.Proto.Numbers.{
  tube_name_new, starts_with_dash, is_name_char, read_u32_partial, read_u64_partial, read_u64_full,
  read_u32_full, whole, at_most, parse_kick_count, kick_word, skip_whitespace, read_sign,
  parse_digits,
}
use beanstalkd_rust.Proto.Numbers.Printed.{read_u32_partial-bound, read_u64_partial-bound}

tube_name_new-either :
    (name : Bytes) → (tube_name_new name ≡ none) ⊎ (tube_name_new name ≡ some name)
unfolding tube_name_new
tube_name_new-either name =
    elim (Bool-cases (is_empty name || ltb max_tube_name_len (length name))) [
      | inl t ↦ inl (rw t)
      | inr f ↦ elim (Bool-cases (starts_with_dash name)) [
        | inl t ↦ inl (rw (f, t))
        | inr g ↦ elim (Bool-cases (all is_name_char name)) [
          | inl t ↦ inr (rw (f, g, t))
          | inr k ↦ inl (rw (f, g, k))
        ]
      ]
    ]

-- A name that is accepted is accepted again.
pub tube_name_new-same :
    (name : Bytes) {t : TubeName} → tube_name_new name ≡ some t → is_some (tube_name_new t) ≡ true
tube_name_new-same name h = elim (tube_name_new-either name) [
  | inl e ↦ let clash = sym e ∙ h in ground arith
  | inr e ↦ ap (λ t. is_some (tube_name_new t)) (some-inj (sym h ∙ e)) ∙ ap is_some e
]

whole-some : (p : ℕ × Bytes) {n : ℕ} → whole p ≡ some n → p.0 ≡ n
unfolding whole
whole-some (v, rest) h = ground arith

pub read_u64_full-bound : (buf : Bytes) {n : ℕ} → read_u64_full buf ≡ some n → leb n max_u64 ≡ true
unfolding read_u64_full
read_u64_full-bound buf {n} h = elim (Option-cases (read_u64_partial buf)) [
  | inl e ↦ let clash = sym (ap (λ o. o >>= whole) e) ∙ h in ground arith
  | inr ((v, rest), e) ↦
      let bound = read_u64_partial-bound buf e in
      let same = whole-some (v, rest) (sym (ap (λ o. o >>= whole) e) ∙ h) in ground arith
]

pub read_u32_full-bound : (buf : Bytes) {n : ℕ} → read_u32_full buf ≡ some n → leb n max_u32 ≡ true
unfolding read_u32_full
read_u32_full-bound buf {n} h = elim (Option-cases (read_u32_partial buf)) [
  | inl e ↦ let clash = sym (ap (λ o. o >>= whole) e) ∙ h in ground arith
  | inr ((v, rest), e) ↦
      let bound = read_u32_partial-bound buf e in
      let same = whole-some (v, rest) (sym (ap (λ o. o >>= whole) e) ∙ h) in ground arith
]

leb-true : (n m : ℕ) → n ≤ m → leb n m ≡ true
leb-true n m h = ground arith

pub u32 : (buf : Bytes) (p : ℕ × Bytes) → read_u32_partial buf ≡ some p → leb p.0 max_u32 ≡ true
u32 buf (n, rest) e = leb-true n max_u32 (read_u32_partial-bound buf e)

pub u64 : (buf : Bytes) (p : ℕ × Bytes) → read_u64_partial buf ≡ some p → leb p.0 max_u64 ≡ true
u64 buf (n, rest) e = leb-true n max_u64 (read_u64_partial-bound buf e)

kick_word-bound : (negative : Bool) (val : ℕ) → kick_word negative val ≤ max_u32
unfolding kick_word
kick_word-bound negative val =
    let low =
      mod-lt (if negative then (2 ^ 64 - val) % 2 ^ 64 else val) {m = 2 ^ 32} (omega arith) in
    omega arith

pub parse_kick_count-bound :
    (buf : Bytes) {n : ℕ} → parse_kick_count buf ≡ some n → leb n max_u32 ≡ true
unfolding parse_kick_count
parse_kick_count-bound buf {n} h =
    elim (Option-cases (parse_digits (read_sign (skip_whitespace buf)).1)) [
      | inl e ↦ let clash = rw (parse_kick_count, e) at h in ground arith
      | inr (p, e) ↦ elim (Option-cases (at_most max_u64 p)) [
        | inl f ↦ let clash = rw (parse_kick_count, e, f) at h in ground arith
        | inr ((val, rest), f) ↦
            let same = some-inj (rw (parse_kick_count, e, f) at h) in
            let bound = kick_word-bound (read_sign (skip_whitespace buf)).0 val in ground arith
      ]
    ]
