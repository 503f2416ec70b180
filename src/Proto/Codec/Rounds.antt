-- ===== src/Proto/Codec/Rounds.antt =====
-- One round of `ServerCodec::decode` on a buffer that grows.
use beanstalkd_rust.Base.{
  ℕ, suc, ◌+◌, ◌-◌, ◌≤◌, ◌≡◌, refl, sym, ◌∙◌, ap, Bool, true, false, [], ◌∷◌, ◌++◌, min, arith,
  length, take, drop, Bytes, length-append, take-append, drop-append, inl, inr, Bool-cases, codes,
  true-ne_false, ◌&&◌, ◌⊎◌,
}
use beanstalkd_rust.Proto.Types.{Frame, PutRejection, line_buf_size}
use beanstalkd_rust.Proto.Result.{Result, ok, err}
use beanstalkd_rust.Proto.Parse.{PutHeader, ParsedLine, parse_line_raw, starts_with}
use beanstalkd_rust.Proto.Codec.{
  State, line, put_body, discard, ServerCodec, LineScan, found, incomplete, overflow, scan_line_end,
  Round, wait, yield, again, put_line, parsed_line, take_line, scanned, line_round, body_frame,
  body_round, discard_round, round,
}
use beanstalkd_rust.Proto.Codec.Scan.{
  scan-bound, scan-overflow, scan-found-append, scan-overflow-append,
}

-- The round's outcome with more bytes behind the buffer.
unfoldable pub extend : Bytes → Round → Round
extend more (wait s src) = wait s (src ++ more)
extend more (yield f s src) = yield f s (src ++ more)
extend more (again s src) = again s (src ++ more)

unfoldable pub is_wait : Round → Bool
is_wait (wait s src) = true
is_wait (yield f s src) = false
is_wait (again s src) = false

put_line-extend :
    (c : ServerCodec) (h : PutHeader) (src more : Bytes)
    → put_line c h (src ++ more) ≡ extend more (put_line c h src)
unfolding put_line extend
put_line-extend c h src more = ground (arith, extend)

parsed_line-extend :
    (c : ServerCodec) (p : Result ParsedLine) (src more : Bytes)
    → parsed_line c p (src ++ more) ≡ extend more (parsed_line c p src)
unfolding parsed_line extend
parsed_line-extend c (err r) src more = refl
parsed_line-extend c (ok (ParsedLine.command cmd)) src more = refl
parsed_line-extend c (ok (ParsedLine.put h)) src more = put_line-extend c h src more

take_line-extend :
    (c : ServerCodec) (o : Bool) (l src more : Bytes)
    → take_line c o l (src ++ more) ≡ extend more (take_line c o l src)
unfolding take_line extend
take_line-extend c true l src more = refl
take_line-extend c false l src more =
    elim (Bool-cases (c.recognize_auth && starts_with (codes "auth ") l)) [
      | inl t ↦ rw t
      | inr f ↦ rw f (parsed_line-extend c (parse_line_raw l) src more)
    ]

pub scan-cases :
    (x : LineScan) → ((pos : ℕ) × (x ≡ found pos)) ⊎ ((x ≡ overflow) ⊎ (x ≡ incomplete))
scan-cases (found pos) = inl (pos, refl)
scan-cases overflow = inr (inl refl)
scan-cases incomplete = inr (inr refl)

line_round-append :
    (c : ServerCodec) (o : Bool) (src more : Bytes)
    → is_wait (line_round c o src) ≡ false
    → line_round c o (src ++ more) ≡ extend more (line_round c o src)
unfolding line_round scanned is_wait extend
line_round-append c o src more h = elim (scan-cases (scan_line_end src)) [
  | inl (pos, e) ↦
      let bound = scan-bound src pos e in
      let part : pos ≤ length src = omega arith in
      let long = scan-found-append src more pos e in
      rw (long, e, take-append pos src more part, drop-append (pos + 2) src more bound)
        (take_line-extend c o (take pos src) (drop (pos + 2) src) more)
  | inr (inl e) ↦
      let bound = scan-overflow src e in
      let long = scan-overflow-append src more e in
      rw (long, e, drop-append line_buf_size src more bound)
  | inr (inr e) ↦ absurd (true-ne_false (sym (ap (λ x. is_wait (scanned c o src x)) e) ∙ h))
]

pub body_round-full :
    (pri delay ttr size : ℕ) (src : Bytes)
    → size + 2 ≤ length src
    → body_round pri delay ttr size src
      ≡ yield
          (body_frame pri delay ttr size (take (size + 2) src))
          (line false)
          (drop (size + 2) src)
unfolding body_round
body_round-full pri delay ttr size src h = ground arith

body_round-waits :
    (pri delay ttr size : ℕ) (src : Bytes)
    → is_wait (body_round pri delay ttr size src) ≡ false
    → size + 2 ≤ length src
unfolding body_round is_wait
body_round-waits pri delay ttr size src h = ground arith

body_round-append :
    (pri delay ttr size : ℕ) (src more : Bytes)
    → is_wait (body_round pri delay ttr size src) ≡ false
    → body_round pri delay ttr size (src ++ more) ≡ extend more (body_round pri delay ttr size src)
unfolding extend
body_round-append pri delay ttr size src more h =
    let enough = body_round-waits pri delay ttr size src h in
    let long = length-append src more in
    let enough' : size + 2 ≤ length (src ++ more) = omega arith in
    rw (
      body_round-full pri delay ttr size (src ++ more) enough',
      body_round-full pri delay ttr size src enough,
      take-append (size + 2) src more enough,
      drop-append (size + 2) src more enough,
    )

pub discard_round-enough :
    (n : ℕ) (b : ℕ) (src : Bytes)
    → n ≤ length (b ∷ src)
    → discard_round n (b ∷ src)
      ≡ yield (Frame.put_rejected PutRejection.job_too_big) (line false) (drop n (b ∷ src))
unfolding discard_round
discard_round-enough n b src h =
    let e : min n (suc (length src)) ≡ n = omega arith in
    let e' : n - n ≡ 0 = omega arith in rw (e, e')

pub discard_round-waits :
    (n : ℕ) (b : ℕ) (src : Bytes)
    → is_wait (discard_round n (b ∷ src)) ≡ false
    → n ≤ length (b ∷ src)
unfolding discard_round is_wait
discard_round-waits n b src h = ground arith

pub discard_round-nil : (n : ℕ) → discard_round n [] ≡ wait (discard n) []
unfolding discard_round
discard_round-nil n = refl

discard_round-append :
    (n : ℕ) (src more : Bytes)
    → is_wait (discard_round n src) ≡ false
    → discard_round n (src ++ more) ≡ extend more (discard_round n src)
unfolding extend is_wait
discard_round-append n [] more h =
    absurd (true-ne_false (sym (ap is_wait (discard_round-nil n)) ∙ h))
discard_round-append n (b ∷ src) more h =
    let enough = discard_round-waits n b src h in
    let long = length-append src more in
    let enough' : n ≤ length (b ∷ (src ++ more)) = omega arith in
    rw (discard_round-enough n b (src ++ more) enough', discard_round-enough n b src enough)
      (ap (yield (Frame.put_rejected PutRejection.job_too_big) (line false))
        (drop-append n (b ∷ src) more enough))

-- What a round does stays the same when more bytes follow, unless it waits.
pub round-append :
    (c : ServerCodec) (s : State) (src more : Bytes)
    → is_wait (round c s src) ≡ false
    → round c s (src ++ more) ≡ extend more (round c s src)
unfolding round
round-append c (line o) src more h = line_round-append c o src more h
round-append c (put_body pri delay ttr size) src more h =
    body_round-append pri delay ttr size src more h
round-append c (discard n) src more h = discard_round-append n src more h
