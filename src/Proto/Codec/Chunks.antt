-- ===== src/Proto/Codec/Chunks.antt =====
-- `ServerCodec::decode` ends, and does not depend on how the bytes are cut into reads.
use beanstalkd_rust.Base.{
  ℕ, zero, suc, ◌+◌, ◌<◌, ◌≡◌, ◌≢◌, refl, sym, ◌∙◌, ap, Bool, true, false, arith, length, take,
  drop, ◌&&◌, ◌++◌, [], Bytes, inl, inr, ◌⊎◌, codes, Bool-cases,
}
use beanstalkd_rust.Proto.Types.{Frame}
use beanstalkd_rust.Proto.Result.{Result, ok, err}
use beanstalkd_rust.Proto.Parse.{PutHeader, ParsedLine, parse_line_raw, starts_with}
use beanstalkd_rust.Proto.Codec.{
  State, line, put_body, discard, ServerCodec, LineScan, found, incomplete, overflow, scan_line_end,
  put_line, parsed_line, take_line, scanned, line_round, Round, wait, yield, again, round, Decoded,
  pending, frame, out_of_fuel, decode_loop, decode,
}
use beanstalkd_rust.Proto.Codec.Progress.{round-again_shrinks, round-wait_append}
use beanstalkd_rust.Proto.Codec.Rounds.{extend, is_wait, round-append}

Round-cases :
    (r : Round)
    → ((s : State) × (src : Bytes) × (r ≡ wait s src))
      ⊎ (((f : Frame) × (s : State) × (src : Bytes) × (r ≡ yield f s src))
          ⊎ ((s : State) × (src : Bytes) × (r ≡ again s src)))
Round-cases (wait s src) = inl (s, src, refl)
Round-cases (yield f s src) = inr (inl (f, s, src, refl))
Round-cases (again s src) = inr (inr (s, src, refl))

decode_loop-wait :
    (n : ℕ) (c : ServerCodec) (s : State) (src : Bytes) {s' : State} {src' : Bytes}
    → round c s src ≡ wait s' src'
    → decode_loop (suc n) c s src ≡ pending s' src'
unfolding decode_loop
decode_loop-wait n c s src e = rw (decode_loop, e)

pub decode_loop-yield :
    (n : ℕ) (c : ServerCodec) (s : State) (src : Bytes) {f : Frame} {s' : State} {src' : Bytes}
    → round c s src ≡ yield f s' src'
    → decode_loop (suc n) c s src ≡ frame f s' src'
unfolding decode_loop
decode_loop-yield n c s src e = rw (decode_loop, e)

pub decode_loop-again :
    (n : ℕ) (c : ServerCodec) (s : State) (src : Bytes) {s' : State} {src' : Bytes}
    → round c s src ≡ again s' src'
    → decode_loop (suc n) c s src ≡ decode_loop n c s' src'
unfolding decode_loop
decode_loop-again n c s src e = rw (decode_loop, e)

decode_loop-total :
    (n : ℕ) (c : ServerCodec) (s : State) (src : Bytes)
    → length src < n
    → decode_loop n c s src ≢ out_of_fuel
decode_loop-total zero c s src h e = omega arith
decode_loop-total (suc n) c s src h e = elim (Round-cases (round c s src)) [
  | inl (s', src', r) ↦ let e' = sym (decode_loop-wait n c s src r) ∙ e in ground arith
  | inr (inl (f, s', src', r)) ↦ let e' = sym (decode_loop-yield n c s src r) ∙ e in ground arith
  | inr (inr (s', src', r)) ↦
      let less = round-again_shrinks c s src r in
      decode_loop-total n c s' src' (omega arith) (sym (decode_loop-again n c s src r) ∙ e)
]

-- Any fuel above the buffer's length gives the same result.
pub decode_loop-fuel :
    (n m : ℕ) (c : ServerCodec) (s : State) (src : Bytes)
    → length src < n
    → length src < m
    → decode_loop n c s src ≡ decode_loop m c s src
decode_loop-fuel zero m c s src h h' = absurd (omega arith)
decode_loop-fuel (suc n) zero c s src h h' = absurd (omega arith)
decode_loop-fuel (suc n) (suc m) c s src h h' = elim (Round-cases (round c s src)) [
  | inl (s', src', r) ↦ decode_loop-wait n c s src r ∙ sym (decode_loop-wait m c s src r)
  | inr (inl (f, s', src', r)) ↦ decode_loop-yield n c s src r ∙ sym (decode_loop-yield m c s src r)
  | inr (inr (s', src', r)) ↦
      let less = round-again_shrinks c s src r in
      decode_loop-again n c s src r
      ∙ (decode_loop-fuel n m c s' src' (omega arith) (omega arith)
          ∙ sym (decode_loop-again m c s src r))
]

-- A result with more bytes behind those it leaves.
longer : Bytes → Decoded → Decoded
longer more (pending s src) = pending s (src ++ more)
longer more (frame f s src) = frame f s (src ++ more)
longer more out_of_fuel = out_of_fuel

decode_loop-frame :
    (n m : ℕ) (c : ServerCodec) (s : State) (src more : Bytes) {f : Frame} {s' : State}
    {src' : Bytes}
    → length src < n
    → length (src ++ more) < m
    → decode_loop n c s src ≡ frame f s' src'
    → decode_loop m c s (src ++ more) ≡ frame f s' (src' ++ more)
unfolding extend is_wait longer
decode_loop-frame zero m c s src more h h' e = absurd (omega arith)
decode_loop-frame (suc n) zero c s src more h h' e = absurd (omega arith)
decode_loop-frame (suc n) (suc m) c s src more {f} {s'} {src'} h h' e =
    elim (Round-cases (round c s src)) [
      | inl (s1, src1, r) ↦ let e' = sym (decode_loop-wait n c s src r) ∙ e in ground arith
      | inr (inl (f1, s1, src1, r)) ↦
          let e' = sym (decode_loop-yield n c s src r) ∙ e in
          let r' = round-append c s src more (ap is_wait r) ∙ ap (extend more) r in
          decode_loop-yield m c s (src ++ more) r' ∙ ap (longer more) e'
      | inr (inr (s1, src1, r)) ↦
          let less = round-again_shrinks c s src r in
          let r' = round-append c s src more (ap is_wait r) ∙ ap (extend more) r in
          let less' = round-again_shrinks c s (src ++ more) r' in
          let e' = sym (decode_loop-again n c s src r) ∙ e in
          decode_loop-again m c s (src ++ more) r'
          ∙ decode_loop-frame n m c s1 src1 more (omega arith) (omega arith) e'
    ]

-- A round that does the same on two buffers goes on the same way.
decode_loop-same :
    (n m : ℕ) (c : ServerCodec) (s s' : State) (src src' : Bytes)
    → length src < n
    → length src' < m
    → round c s src ≡ round c s' src'
    → decode_loop n c s src ≡ decode_loop m c s' src'
decode_loop-same zero m c s s' src src' h h' e = absurd (omega arith)
decode_loop-same (suc n) zero c s s' src src' h h' e = absurd (omega arith)
decode_loop-same (suc n) (suc m) c s s' src src' h h' e = elim (Round-cases (round c s src)) [
  | inl (s1, src1, r) ↦
      decode_loop-wait n c s src r ∙ sym (decode_loop-wait m c s' src' (sym e ∙ r))
  | inr (inl (f, s1, src1, r)) ↦
      decode_loop-yield n c s src r ∙ sym (decode_loop-yield m c s' src' (sym e ∙ r))
  | inr (inr (s1, src1, r)) ↦
      let less = round-again_shrinks c s src r in
      let less' = round-again_shrinks c s' src' (sym e ∙ r) in
      decode_loop-again n c s src r
      ∙ (decode_loop-fuel n m c s1 src1 (omega arith) (omega arith)
          ∙ sym (decode_loop-again m c s' src' (sym e ∙ r)))
]

pending_state : State → Decoded → State
pending_state other (pending s src) = s
pending_state other (frame f s src) = other
pending_state other out_of_fuel = other

pending_bytes : Decoded → Bytes
pending_bytes (pending s src) = src
pending_bytes (frame f s src) = []
pending_bytes out_of_fuel = []

decode_loop-pending :
    (n m k : ℕ) (c : ServerCodec) (s : State) (src more : Bytes) {s' : State} {src' : Bytes}
    → length src < n
    → length (src ++ more) < m
    → length (src' ++ more) < k
    → decode_loop n c s src ≡ pending s' src'
    → decode_loop m c s (src ++ more) ≡ decode_loop k c s' (src' ++ more)
unfolding extend is_wait pending_state pending_bytes
decode_loop-pending zero m k c s src more h h' h'' e = absurd (omega arith)
decode_loop-pending (suc n) zero k c s src more h h' h'' e = absurd (omega arith)
decode_loop-pending (suc n) (suc m) k c s src more {s'} {src'} h h' h'' e =
    elim (Round-cases (round c s src)) [
      | inl (s1, src1, r) ↦
          let e' = sym (decode_loop-wait n c s src r) ∙ e in
          let state = ap (pending_state s') e' in
          let left = ap pending_bytes e' in
          let r' =
            round-wait_append c s src more r
            ∙ (ap (λ x. round c x (src1 ++ more)) state ∙ ap (λ x. round c s' (x ++ more)) left) in
          decode_loop-same (suc m) k c s s' (src ++ more) (src' ++ more) h' h'' r'
      | inr (inl (f1, s1, src1, r)) ↦
          let e' = sym (decode_loop-yield n c s src r) ∙ e in ground arith
      | inr (inr (s1, src1, r)) ↦
          let less = round-again_shrinks c s src r in
          let r' = round-append c s src more (ap is_wait r) ∙ ap (extend more) r in
          let less' = round-again_shrinks c s (src ++ more) r' in
          let e' = sym (decode_loop-again n c s src r) ∙ e in
          decode_loop-again m c s (src ++ more) r'
          ∙ decode_loop-pending n m k c s1 src1 more (omega arith) (omega arith) h'' e'
    ]

-- The rounds do not read the state that the codec keeps between calls.
put_line-state :
    (c : ServerCodec) (t : State) (h : PutHeader) (src : Bytes)
    → put_line (record c { state = t }) h src ≡ put_line c h src
unfolding put_line
put_line-state c t h src = refl

parsed_line-state :
    (c : ServerCodec) (t : State) (p : Result ParsedLine) (src : Bytes)
    → parsed_line (record c { state = t }) p src ≡ parsed_line c p src
unfolding parsed_line
parsed_line-state c t (err r) src = refl
parsed_line-state c t (ok (ParsedLine.command cmd)) src = refl
parsed_line-state c t (ok (ParsedLine.put h)) src = put_line-state c t h src

take_line-state :
    (c : ServerCodec) (t : State) (o : Bool) (l src : Bytes)
    → take_line (record c { state = t }) o l src ≡ take_line c o l src
unfolding take_line
take_line-state c t true l src = refl
take_line-state c t false l src =
    elim (Bool-cases (c.recognize_auth && starts_with (codes "auth ") l)) [
      | inl e ↦ rw e
      | inr e ↦ rw e (parsed_line-state c t (parse_line_raw l) src)
    ]

scanned-state :
    (c : ServerCodec) (t : State) (o : Bool) (src : Bytes) (x : LineScan)
    → scanned (record c { state = t }) o src x ≡ scanned c o src x
unfolding scanned
scanned-state c t o src incomplete = refl
scanned-state c t o src overflow = refl
scanned-state c t o src (found len) = take_line-state c t o (take len src) (drop (len + 2) src)

round-state :
    (c : ServerCodec) (t s : State) (src : Bytes)
    → round (record c { state = t }) s src ≡ round c s src
unfolding round line_round
round-state c t (line o) src = scanned-state c t o src (scan_line_end src)
round-state c t (put_body pri delay ttr size) src = refl
round-state c t (discard n) src = refl

pub decode_loop-state :
    (n : ℕ) (c : ServerCodec) (t s : State) (src : Bytes)
    → decode_loop n (record c { state = t }) s src ≡ decode_loop n c s src
unfolding decode_loop
decode_loop-state zero c t s src = refl
decode_loop-state (suc n) c t s src = elim (Round-cases (round c s src)) [
  | inl (s1, src1, r) ↦
      let c' = record c { state = t } in
      decode_loop-wait n c' s src (round-state c t s src ∙ r) ∙ sym (decode_loop-wait n c s src r)
  | inr (inl (f, s1, src1, r)) ↦
      let c' = record c { state = t } in
      decode_loop-yield n c' s src (round-state c t s src ∙ r) ∙ sym (decode_loop-yield n c s src r)
  | inr (inr (s1, src1, r)) ↦
      let c' = record c { state = t } in
      decode_loop-again n c' s src (round-state c t s src ∙ r)
      ∙ (decode_loop-state n c t s1 src1 ∙ sym (decode_loop-again n c s src r))
]

-- `decode` always comes to an end: it yields a frame or waits for more bytes.
pub decode-total : (c : ServerCodec) (src : Bytes) → decode c src ≢ out_of_fuel
unfolding decode
decode-total c src = decode_loop-total (suc (length src)) c c.state src (omega arith)

-- If `decode` yields a frame, then on a buffer with more bytes behind it yields the same frame in
-- the same state and leaves the further bytes where they are.
pub decode-frame_append :
    (c : ServerCodec) (src more : Bytes) {f : Frame} {s : State} {src' : Bytes}
    → decode c src ≡ frame f s src'
    → decode c (src ++ more) ≡ frame f s (src' ++ more)
unfolding decode
decode-frame_append c src more e =
    decode_loop-frame (suc (length src)) (suc (length (src ++ more))) c c.state src more
      (omega arith) (omega arith) e

-- If `decode` waits for more bytes, then decoding what it left with more bytes behind, from the
-- state it left, gives what decoding all the bytes at once gives.
pub decode-pending_append :
    (c : ServerCodec) (src more : Bytes) {s : State} {src' : Bytes}
    → decode c src ≡ pending s src'
    → decode c (src ++ more) ≡ decode (record c { state = s }) (src' ++ more)
unfolding decode
decode-pending_append c src more {s} {src'} e =
    decode_loop-pending (suc (length src)) (suc (length (src ++ more)))
      (suc (length (src' ++ more))) c c.state src more (omega arith) (omega arith) (omega arith) e
    ∙ sym (decode_loop-state (suc (length (src' ++ more))) c s s (src' ++ more))
