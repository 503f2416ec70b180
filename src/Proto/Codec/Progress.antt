-- ===== src/Proto/Codec/Progress.antt =====
-- One round of `ServerCodec::decode`: what it takes from the buffer, and what it keeps when it waits.
use beanstalkd_rust.Base.{
  ℕ, suc, ◌+◌, ◌-◌, ◌≤◌, ◌<◌, ◌≡◌, refl, sym, ◌∙◌, ap, Bool, true, false, [], ◌∷◌, ◌++◌, min, arith,
  length, take, drop, ltb, Bytes, length-append, length-drop, subst, drop-append_past, drop-all,
  inl, inr, Bool-cases, append-nil, le_or_lt, codes, true-ne_false, ◌&&◌,
}
use beanstalkd_rust.Proto.Types.{Frame, PutRejection, line_buf_size}
use beanstalkd_rust.Proto.Result.{Result, ok, err}
use beanstalkd_rust.Proto.Parse.{PutHeader, ParsedLine, parse_line_raw, starts_with}
use beanstalkd_rust.Proto.Codec.{
  State, line, put_body, discard, ServerCodec, scan_line_end, Round, wait, yield, again, put_line,
  parsed_line, take_line, scanned, line_round, body_round, discard_round, round,
}
use beanstalkd_rust.Proto.Codec.Scan.{scan-bound, scan-overflow}
use beanstalkd_rust.Proto.Codec.Rounds.{
  is_wait, scan-cases, discard_round-enough, discard_round-nil,
}
use mathlib.Core.List.{append-nil}

-- The state and the bytes that a round leaves.
state_of : Round → State
state_of (wait s src) = s
state_of (yield f s src) = s
state_of (again s src) = s

rest_of : Round → Bytes
rest_of (wait s src) = src
rest_of (yield f s src) = src
rest_of (again s src) = src

put_line-rest : (c : ServerCodec) (h : PutHeader) (src : Bytes) → rest_of (put_line c h src) ≡ src
unfolding put_line rest_of
put_line-rest c h src = ground arith

take_line-rest : (c : ServerCodec) (o : Bool) (l src : Bytes) → rest_of (take_line c o l src) ≡ src
unfolding take_line parsed_line rest_of
take_line-rest c true l src = refl
take_line-rest c false l src =
    elim (Bool-cases (c.recognize_auth && starts_with (codes "auth ") l)) [
      | inl t ↦ rw t
      | inr f ↦ rw f (parsed (parse_line_raw l))
    ]
  where
    parsed : (p : Result ParsedLine) → rest_of (parsed_line c p src) ≡ src
    parsed (err r) = refl
    parsed (ok (ParsedLine.command cmd)) = refl
    parsed (ok (ParsedLine.put h)) = put_line-rest c h src

put_line-goes : (c : ServerCodec) (h : PutHeader) (src : Bytes) → is_wait (put_line c h src) ≡ false
unfolding put_line is_wait
put_line-goes c h src = ground arith

take_line-goes :
    (c : ServerCodec) (o : Bool) (l src : Bytes) → is_wait (take_line c o l src) ≡ false
unfolding take_line parsed_line is_wait
take_line-goes c true l src = refl
take_line-goes c false l src =
    elim (Bool-cases (c.recognize_auth && starts_with (codes "auth ") l)) [
      | inl t ↦ rw t
      | inr f ↦ rw f (parsed (parse_line_raw l))
    ]
  where
    parsed : (p : Result ParsedLine) → is_wait (parsed_line c p src) ≡ false
    parsed (err r) = refl
    parsed (ok (ParsedLine.command cmd)) = refl
    parsed (ok (ParsedLine.put h)) = put_line-goes c h src

line_round-shrinks :
    (c : ServerCodec) (o : Bool) (src : Bytes)
    → is_wait (line_round c o src) ≡ false
    → length (rest_of (line_round c o src)) < length src
unfolding line_round scanned is_wait rest_of
line_round-shrinks c o src h = elim (scan-cases (scan_line_end src)) [
  | inl (pos, e) ↦
      let bound = scan-bound src pos e in
      let left = length-drop (pos + 2) src in
      let short : length (drop (pos + 2) src) < length src = omega arith in
      rw (e, take_line-rest c o (take pos src) (drop (pos + 2) src)) short
  | inr (inl e) ↦
      let bound = scan-overflow src e in
      let left = length-drop line_buf_size src in
      let short : length (drop line_buf_size src) < length src = omega arith in rw e short
  | inr (inr e) ↦ absurd (true-ne_false (sym (ap (λ x. is_wait (scanned c o src x)) e) ∙ h))
]

-- A round that goes on has taken bytes: only a line does that.
pub round-again_shrinks :
    (c : ServerCodec) (s : State) (src : Bytes) {s' : State} {src' : Bytes}
    → round c s src ≡ again s' src'
    → length src' < length src
unfolding round rest_of is_wait body_round discard_round
round-again_shrinks c (line o) src {s'} {src'} h =
    let left = line_round-shrinks c o src (ap is_wait h) in
    let e = ap rest_of h in subst (λ x. length x < length src) e left
round-again_shrinks c (put_body pri delay ttr size) src h = ground arith
round-again_shrinks c (discard n) src h = ground arith

line_round-waits :
    (c : ServerCodec) (o : Bool) (src : Bytes)
    → is_wait (line_round c o src) ≡ true
    → line_round c o src ≡ wait (line o) src
unfolding line_round scanned is_wait
line_round-waits c o src h = elim (scan-cases (scan_line_end src)) [
  | inl (pos, e) ↦
      let goes = take_line-goes c o (take pos src) (drop (pos + 2) src) in
      absurd (true-ne_false (sym h ∙ (ap (λ x. is_wait (scanned c o src x)) e ∙ goes)))
  | inr (inl e) ↦ absurd (true-ne_false (sym h ∙ ap (λ x. is_wait (scanned c o src x)) e))
  | inr (inr e) ↦ rw e
]

discard_round-short :
    (n b : ℕ) (src : Bytes)
    → length (b ∷ src) < n
    → discard_round n (b ∷ src) ≡ wait (discard (n - length (b ∷ src))) []
unfolding discard_round
discard_round-short n b src h =
    let e : min n (suc (length src)) ≡ suc (length src) = omega arith in
    let more : ltb 0 (n - suc (length src)) ≡ true = ground arith in rw (e, more, drop-all src)

discard_round-skip :
    (n b : ℕ) (src more : Bytes)
    → length (b ∷ src) < n
    → discard_round n (b ∷ (src ++ more)) ≡ discard_round (n - length (b ∷ src)) more
discard_round-skip n b src [] h =
    rw (append-nil src) (discard_round-short n b src h ∙ sym (discard_round-nil _))
discard_round-skip n b src (x ∷ more) h = elim (le_or_lt n (length (b ∷ (src ++ (x ∷ more))))) [
  | inl le ↦
      let sum = length-append src (x ∷ more) in
      let le' : n - length (b ∷ src) ≤ length (x ∷ more) = omega arith in
      let part : length (b ∷ src) + (n - length (b ∷ src)) ≡ n = omega arith in
      let past = drop-append_past (b ∷ src) (x ∷ more) (n - length (b ∷ src)) in
      let same = ap (λ k. drop k (b ∷ (src ++ (x ∷ more)))) (sym part) ∙ past in
      rw
        (
          discard_round-enough n b (src ++ (x ∷ more)) le,
          discard_round-enough (n - length (b ∷ src)) x more le',
        )
        (ap (yield (Frame.put_rejected PutRejection.job_too_big) (line false)) same)
  | inr lt ↦
      let sum = length-append src (x ∷ more) in
      let lt' : length (x ∷ more) < n - length (b ∷ src) = omega arith in
      let same : n - length (b ∷ (src ++ (x ∷ more))) ≡ n - length (b ∷ src) - length (x ∷ more) =
        omega arith in
      rw (
        discard_round-short n b (src ++ (x ∷ more)) lt,
        discard_round-short (n - length (b ∷ src)) x more lt',
        same,
      )
]

discard_round-waits_short :
    (n b : ℕ) (src : Bytes) → is_wait (discard_round n (b ∷ src)) ≡ true → length (b ∷ src) < n
unfolding discard_round is_wait
discard_round-waits_short n b src h = ground arith

body_round-waits_same :
    (pri delay ttr size : ℕ) (src : Bytes)
    → is_wait (body_round pri delay ttr size src) ≡ true
    → body_round pri delay ttr size src ≡ wait (put_body pri delay ttr size) src
unfolding body_round is_wait
body_round-waits_same pri delay ttr size src h = ground arith

-- A round that waits has kept what the next one needs.
pub round-wait_append :
    (c : ServerCodec) (s : State) (src more : Bytes) {s' : State} {src' : Bytes}
    → round c s src ≡ wait s' src'
    → round c s (src ++ more) ≡ round c s' (src' ++ more)
unfolding round is_wait state_of rest_of
round-wait_append c (line o) src more {s'} {src'} h =
    let e = line_round-waits c o src (ap is_wait h) in
    let same = sym e ∙ h in ap (λ x. round c (state_of x) (rest_of x ++ more)) same
round-wait_append c (put_body pri delay ttr size) src more {s'} {src'} h =
    let same = sym (body_round-waits_same pri delay ttr size src (ap is_wait h)) ∙ h in
    ap (λ x. round c (state_of x) (rest_of x ++ more)) same
round-wait_append c (discard n) [] more {s'} {src'} h =
    let same = sym (discard_round-nil n) ∙ h in
    ap (λ x. round c (state_of x) (rest_of x ++ more)) same
round-wait_append c (discard n) (b ∷ src) more {s'} {src'} h =
    let short = discard_round-waits_short n b src (ap is_wait h) in
    let same = sym (discard_round-short n b src short) ∙ h in
    discard_round-skip n b src more short ∙ ap (λ x. round c (state_of x) (rest_of x ++ more)) same
