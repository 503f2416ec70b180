-- ===== src/Proto/Parse/PutLine.antt =====
-- parse.rs, `parse_line_raw`: the line of a `put`, and what a parsed line can hold.
use beanstalkd_rust.Base.{
  ℕ, ◌+◌, ◌≡◌, ◌<◌, ◌≤◌, refl, arith, ◌∙◌, true, false, not, is_empty, some, ◌∷◌, ◌++◌, Bytes,
  max_u32, codes, ◌==◌,
}
use beanstalkd_rust.Proto.Decimal.{decimal}
use beanstalkd_rust.Proto.Numbers.{read_u32_partial}
use beanstalkd_rust.Proto.Numbers.Printed.{
  ends, read_u32-decimal, read_u32_partial-space, decimal-any,
}
use beanstalkd_rust.Proto.Parse.{
  ParsedLine, parse_args, parse_line_raw, Op, which_cmd, has_nul, dispatch_op,
}
use beanstalkd_rust.Proto.Result.{ok}

-- A number after a blank.
abbrev pub spaced : ℕ → Bytes → Bytes
spaced n rest = b' ' ∷ (decimal n ++ rest)

-- The line that a client sends before the body of a job.
unfoldable pub put_args : ℕ → ℕ → ℕ → ℕ → Bytes → Bytes
put_args pri delay ttr size tail = decimal pri ++ spaced delay (spaced ttr (spaced size tail))

unfoldable pub put_line_text : ℕ → ℕ → ℕ → ℕ → Bytes → Bytes
unfolding put_args
put_line_text pri delay ttr size tail = codes "put " ++ put_args pri delay ttr size tail

read_after_space :
    (n : ℕ) (rest : Bytes)
    → n ≤ max_u32
    → ends rest ≡ true
    → read_u32_partial (spaced n rest) ≡ some (n, rest)
read_after_space n rest h k =
    read_u32_partial-space (decimal n ++ rest) ∙ read_u32-decimal n rest h k

-- A blank ends a number.
space_ends : (rest : Bytes) → ends (b' ' ∷ rest) ≡ true
unfolding ends
space_ends rest = refl

parse_args-put :
    (pri delay ttr size : ℕ) (tail : Bytes)
    → pri ≤ max_u32
    → delay ≤ max_u32
    → ttr ≤ max_u32
    → size ≤ max_u32
    → ends tail ≡ true
    → parse_args Op.put (put_args pri delay ttr size tail)
      ≡ ok (
          ParsedLine.put (record {
            pri = pri;
            delay = delay;
            ttr = ttr;
            body_size = size;
            trailing_garbage = not (is_empty tail);
          }))
unfolding parse_args put_args
parse_args-put pri delay ttr size tail hp hd ht hs he = rw (
  parse_args,
  read_u32-decimal pri (spaced delay (spaced ttr (spaced size tail))) hp (space_ends _),
  read_after_space delay (spaced ttr (spaced size tail)) hd (space_ends _),
  read_after_space ttr (spaced size tail) ht (space_ends _),
  read_after_space size tail hs he,
)

not_nul : (d : ℕ) → d < 10 → (b'0' + d == 0) ≡ false
not_nul d h = ground arith

put_line-has_nul :
    (pri delay ttr size : ℕ) (tail : Bytes)
    → has_nul tail ≡ false
    → has_nul (put_line_text pri delay ttr size tail) ≡ false
unfolding has_nul put_line_text put_args
put_line-has_nul pri delay ttr size tail h =
    decimal-any (λ b. b == 0) pri (spaced delay (spaced ttr (spaced size tail))) not_nul
      (decimal-any (λ b. b == 0) delay (spaced ttr (spaced size tail)) not_nul
        (decimal-any (λ b. b == 0) ttr (spaced size tail) not_nul
          (decimal-any (λ b. b == 0) size tail not_nul h)))

put_line-op :
    (pri delay ttr size : ℕ) (tail : Bytes)
    → dispatch_op
        (which_cmd (put_line_text pri delay ttr size tail))
        (put_line_text pri delay ttr size tail)
      ≡ parse_args Op.put (put_args pri delay ttr size tail)
unfolding dispatch_op which_cmd put_line_text
put_line-op pri delay ttr size tail = refl

-- The line of a `put` is read back: four 32-bit numbers in decimal after `put `, with blanks
-- between, give these numbers. What follows the last number, which is no digit and holds no NUL,
-- sets only the mark for garbage.
pub parse_line_raw-put :
    (pri delay ttr size : ℕ) (tail : Bytes)
    → pri ≤ max_u32
    → delay ≤ max_u32
    → ttr ≤ max_u32
    → size ≤ max_u32
    → ends tail ≡ true
    → has_nul tail ≡ false
    → parse_line_raw (put_line_text pri delay ttr size tail)
      ≡ ok (
          ParsedLine.put (record {
            pri = pri;
            delay = delay;
            ttr = ttr;
            body_size = size;
            trailing_garbage = not (is_empty tail);
          }))
unfolding parse_line_raw
parse_line_raw-put pri delay ttr size tail hp hd ht hs he hn =
    rw (parse_line_raw, put_line-has_nul pri delay ttr size tail hn)
      (put_line-op pri delay ttr size tail ∙ parse_args-put pri delay ttr size tail hp hd ht hs he)
