-- ===== src/Proto/Codec/Scan.antt =====
-- `scan_line_end` of codec.rs does not look past the line or the window that it reports.
use beanstalkd_rust.Base.{
  ℕ, zero, suc, ◌+◌, ◌-◌, ◌≤◌, ◌<◌, ◌≡◌, ◌≢◌, ◌∙◌, ap, true, Option, some, [], ◌∷◌, ◌++◌, arith,
  length, take, get_elem?, ◌==◌, Bytes, Option-cases, length-append, length-take, take-append,
  take-append_all, get_elem?-append, inl, inr, Bool-cases,
}
use beanstalkd_rust.Proto.Types.{line_buf_size}
use beanstalkd_rust.Proto.Codec.{
  position_cr, byte_is, find_crlf, not_found, scan_line_end, scan_window, found, overflow,
}

position_cr-append : (p q : Bytes) (i : ℕ) → position_cr p ≡ some i → position_cr (p ++ q) ≡ some i
unfolding position_cr
position_cr-append [] q i h = ground arith
position_cr-append (b ∷ p) q zero h = ground (arith, position_cr-append p q 0)
position_cr-append (b ∷ p) q (suc i) h = ground (arith, position_cr-append p q i)

position_cr-take_out :
    (n : ℕ) (w : Bytes) (i : ℕ)
    → position_cr (take n w) ≡ some i
    → (position_cr w ≡ some i) × (i < n)
unfolding position_cr
position_cr-take_out zero w i h = ground arith
position_cr-take_out (suc n) [] i h = ground arith
position_cr-take_out (suc n) (b ∷ w) zero h = ground (arith, position_cr-take_out n w 0)
position_cr-take_out (suc n) (b ∷ w) (suc i) h = ground (arith, position_cr-take_out n w i)

pub position_cr-take :
    (n : ℕ) (w : Bytes) (i : ℕ) → position_cr w ≡ some i → i < n → position_cr (take n w) ≡ some i
unfolding position_cr
position_cr-take zero w i h lt = absurd (omega arith)
position_cr-take (suc n) [] i h lt = h
position_cr-take (suc n) (b ∷ w) zero h lt = ground (arith, position_cr-take n w 0)
position_cr-take (suc n) (b ∷ w) (suc i) h lt = ground (arith, position_cr-take n w i)

byte_is-get : (b : ℕ) (o : Option ℕ) → byte_is b o ≡ true → o ≡ some b
unfolding byte_is
byte_is-get b o h = ground arith

pub byte_is-same : (b : ℕ) → byte_is b (some b) ≡ true
unfolding byte_is
byte_is-same b = ground arith

find_crlf-append : (w q : Bytes) (pos : ℕ) → find_crlf w ≡ some pos → find_crlf (w ++ q) ≡ some pos
unfolding find_crlf
find_crlf-append w q pos h = elim (Option-cases (position_cr (take (length w - 1) w))) [
  | inl e ↦ ground arith
  | inr (i, e) ↦ elim (Option-cases (get_elem? w (suc i))) [
    | inl n ↦ ground (arith, byte_is-get 10 (get_elem? w (suc i)))
    | inr (b, t) ↦
        let out = position_cr-take_out (length w - 1) w i e in
        let long = length-append w q in
        let here = position_cr-append w q i out.0 in
        let there : i < length (w ++ q) - 1 = omega arith in
        let cr = position_cr-take (length (w ++ q) - 1) (w ++ q) i here there in
        let lf = get_elem?-append w q (suc i) t in ground (arith, cr, lf, e, t, h)
  ]
]

find_crlf-short : (w : Bytes) (pos : ℕ) → find_crlf w ≡ some pos → suc pos < length w
unfolding find_crlf
find_crlf-short w pos h = elim (Option-cases (position_cr (take (length w - 1) w))) [
  | inl e ↦ ground arith
  | inr (i, e) ↦ ground (arith, position_cr-take_out (length w - 1) w i e)
]

not_found-found : (n pos : ℕ) → not_found n ≢ found pos
unfolding not_found
not_found-found n pos h = ground arith

window-find_crlf : (w : Bytes) (pos : ℕ) → scan_window w ≡ found pos → find_crlf w ≡ some pos
unfolding scan_window
window-find_crlf w pos h = let no = not_found-found (length w) pos in ground arith

find_crlf-window : (w : Bytes) (pos : ℕ) → find_crlf w ≡ some pos → scan_window w ≡ found pos
unfolding scan_window
find_crlf-window w pos h = let short = find_crlf-short w pos h in ground arith

window-overflow : (w : Bytes) → scan_window w ≡ overflow → length w ≡ line_buf_size
unfolding scan_window not_found
window-overflow w h = elim (Bool-cases (length w == line_buf_size)) [
  | inl t ↦ ground arith
  | inr f ↦ elim (Option-cases (find_crlf w)) [ inl n ↦ ground arith | inr (i, e) ↦ ground arith ]
]

scan-find_crlf :
    (src : Bytes) (pos : ℕ)
    → scan_line_end src ≡ found pos
    → find_crlf (take line_buf_size src) ≡ some pos
unfolding scan_line_end
scan-find_crlf src pos h = window-find_crlf (take line_buf_size src) pos h

pub find_crlf-scan :
    (src : Bytes) (pos : ℕ)
    → find_crlf (take line_buf_size src) ≡ some pos
    → scan_line_end src ≡ found pos
unfolding scan_line_end
find_crlf-scan src pos h = find_crlf-window (take line_buf_size src) pos h

-- A line end that the scan finds lies in the buffer.
pub scan-bound : (src : Bytes) (pos : ℕ) → scan_line_end src ≡ found pos → pos + 2 ≤ length src
scan-bound src pos h =
    let short = find_crlf-short (take line_buf_size src) pos (scan-find_crlf src pos h) in
    let size = length-take line_buf_size src in omega arith

pub scan-overflow : (src : Bytes) → scan_line_end src ≡ overflow → line_buf_size ≤ length src
unfolding scan_line_end
scan-overflow src h =
    let size = length-take line_buf_size src in
    let full = window-overflow (take line_buf_size src) h in omega arith

-- More bytes do not move a line end that is found.
pub scan-found-append :
    (src more : Bytes) (pos : ℕ)
    → scan_line_end src ≡ found pos
    → scan_line_end (src ++ more) ≡ found pos
scan-found-append src more pos h =
    let rest = take (line_buf_size - length src) more in
    let here = find_crlf-append (take line_buf_size src) rest pos (scan-find_crlf src pos h) in
    let e = take-append_all line_buf_size src more in
    find_crlf-scan (src ++ more) pos (ap find_crlf e ∙ here)

-- A window without a line end stays one.
pub scan-overflow-append :
    (src more : Bytes) → scan_line_end src ≡ overflow → scan_line_end (src ++ more) ≡ overflow
unfolding scan_line_end
scan-overflow-append src more h =
    let same = take-append line_buf_size src more (scan-overflow src h) in ap scan_window same ∙ h
