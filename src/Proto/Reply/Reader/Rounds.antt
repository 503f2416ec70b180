-- ===== src/Proto/Reply/Reader/Rounds.antt =====
-- Replies one behind another are read back, each as it was.
use beanstalkd_rust.Base.{
  ℕ, ◌≤◌, ◌≡◌, refl, arith, true, false, some, [], ◌∷◌, ◌++◌, Bytes, length, length-append, ltb,
  take-length, drop-length, append_assoc, max_u64, all, Bool-cases, inl, inr,
}
use beanstalkd_rust.Proto.Decimal.{decimal}
use beanstalkd_rust.Proto.Numbers.{tube_name_new, is_name_char}
use beanstalkd_rust.Proto.Numbers.Printed.{read_u64_partial-decimal, read_u64-space, ends}
use beanstalkd_rust.Proto.Reply.{crlf, encode}
use beanstalkd_rust.Proto.Reply.Reader.{
  word_char, read_word, expect, read_number, read_body, read_job, read_tube, read_counted, read_ok,
  read_reply,
}
use beanstalkd_rust.Proto.Types.{Response, TubeName}

-- Numbers are within 64 bits, a body's length too, and a tube name is valid.
abbrev pub IsReply : Response → Type 0
IsReply (Response.inserted id) = id ≤ max_u64
IsReply (Response.buried_id id) = id ≤ max_u64
IsReply (Response.using tube) = tube_name_new tube ≡ some tube
IsReply (Response.reserved id body) = (id ≤ max_u64) × (length body ≤ max_u64)
IsReply (Response.found id body) = (id ≤ max_u64) × (length body ≤ max_u64)
IsReply (Response.watching n) = n ≤ max_u64
IsReply (Response.kicked n) = n ≤ max_u64
IsReply (Response.ok body) = length body ≤ max_u64
IsReply _ = Unit

read_number-decimal :
    (n : ℕ) (rest : Bytes)
    → n ≤ max_u64
    → read_number (b' ' ∷ (decimal n ++ (crlf ++ rest))) ≡ some (n, rest)
unfolding read_number expect ends
read_number-decimal n rest h =
    let read = read_u64_partial-decimal n (crlf ++ rest) h refl in simp (read_u64-space, read)

read_body-crlf :
    (body rest : Bytes)
    → length body ≤ max_u64
    → read_body (b' ' ∷ (decimal (length body) ++ (crlf ++ (body ++ (crlf ++ rest)))))
      ≡ some (body, rest)
unfolding read_body expect
read_body-crlf body rest h =
    let read = read_number-decimal (length body) (body ++ (crlf ++ rest)) h in
    let size = length-append body (crlf ++ rest) in
    let enough : ltb (length (body ++ (crlf ++ rest))) (length body) ≡ false = ground arith in
    let behind = drop-length body (crlf ++ rest) in
    let front = take-length body (crlf ++ rest) in rw (read_body, read, enough, behind, front)

read_job-crlf :
    (reply : ℕ → Bytes → Response) (id : ℕ) (body rest : Bytes)
    → id ≤ max_u64
    → length body ≤ max_u64
    → read_job reply (
        b' '
        ∷ (decimal id ++ (b' ' ∷ (decimal (length body) ++ (crlf ++ (body ++ (crlf ++ rest)))))))
      ≡ some (reply id body, rest)
unfolding read_job ends
read_job-crlf reply id body rest h k =
    let after = b' ' ∷ (decimal (length body) ++ (crlf ++ (body ++ (crlf ++ rest)))) in
    let read = read_u64_partial-decimal id after h refl in
    let read_rest = read_body-crlf body rest k in
    rw (read_job, read_u64-space (decimal id ++ after), read, read_rest)

word_char-name : (b : ℕ) → is_name_char b ≡ true → word_char b ≡ true
unfolding word_char is_name_char
word_char-name b h = ground arith

read_word-crlf :
    (tube rest : Bytes)
    → all is_name_char tube ≡ true
    → read_word (tube ++ (crlf ++ rest)) ≡ (tube, crlf ++ rest)
unfolding read_word
read_word-crlf [] rest h = refl
read_word-crlf (b ∷ tube) rest h = elim (Bool-cases (is_name_char b)) [
  | inl good ↦ rw (read_word, word_char-name b good, read_word-crlf tube rest (ground arith))
  | inr f ↦ ground arith
]

tube_name_new-all :
    (tube : TubeName) → tube_name_new tube ≡ some tube → all is_name_char tube ≡ true
unfolding tube_name_new
tube_name_new-all tube h = ground arith

-- A reply is put behind what is in `dst`, and a reader of replies reads it back, with what follows
-- it. Its numbers and its body's length are within 64 bits, and its tube name is valid.
pub read_reply-encode :
    (r : Response) (dst rest : Bytes)
    → IsReply r
    → (encode r dst ≡ dst ++ encode r []) × (read_reply (encode r [] ++ rest) ≡ some (r, rest))
unfolding read_reply encode read_counted read_tube read_ok
read_reply-encode (Response.inserted id) dst rest h =
    (refl, simp (append_assoc, read_number-decimal id rest h))
read_reply-encode (Response.buried_id id) dst rest h =
    (refl, simp (append_assoc, read_number-decimal id rest h))
read_reply-encode Response.buried dst rest h = (refl, refl)
read_reply-encode (Response.using tube) dst rest h =
    (refl, simp (append_assoc, read_word-crlf tube rest (tube_name_new-all tube h)))
read_reply-encode (Response.reserved id body) dst rest h =
    (simp append_assoc, simp (append_assoc, read_job-crlf Response.reserved id body rest h.0 h.1))
read_reply-encode (Response.found id body) dst rest h =
    (simp append_assoc, simp (append_assoc, read_job-crlf Response.found id body rest h.0 h.1))
read_reply-encode (Response.watching n) dst rest h =
    (refl, simp (append_assoc, read_number-decimal n rest h))
read_reply-encode (Response.kicked n) dst rest h =
    (refl, simp (append_assoc, read_number-decimal n rest h))
read_reply-encode Response.kicked_job dst rest h = (refl, refl)
read_reply-encode (Response.ok body) dst rest h =
    (simp append_assoc, simp (append_assoc, read_body-crlf body rest h))
read_reply-encode Response.deadline_soon dst rest h = (refl, refl)
read_reply-encode Response.timed_out dst rest h = (refl, refl)
read_reply-encode Response.deleted dst rest h = (refl, refl)
read_reply-encode Response.released dst rest h = (refl, refl)
read_reply-encode Response.touched dst rest h = (refl, refl)
read_reply-encode Response.not_found dst rest h = (refl, refl)
read_reply-encode Response.not_ignored dst rest h = (refl, refl)
read_reply-encode Response.paused dst rest h = (refl, refl)
read_reply-encode Response.expected_crlf dst rest h = (refl, refl)
read_reply-encode Response.job_too_big dst rest h = (refl, refl)
read_reply-encode Response.draining dst rest h = (refl, refl)
read_reply-encode Response.out_of_memory dst rest h = (refl, refl)
read_reply-encode Response.internal_error dst rest h = (refl, refl)
read_reply-encode Response.bad_format dst rest h = (refl, refl)
read_reply-encode Response.unknown_command dst rest h = (refl, refl)
read_reply-encode Response.authenticated dst rest h = (refl, refl)
read_reply-encode Response.unauthorized dst rest h = (refl, refl)
