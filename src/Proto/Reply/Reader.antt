-- ===== src/Proto/Reply/Reader.antt =====
-- A reader of replies, as a client has one: a word, and what belongs to it.
pub mod Rounds
use mathlib.Core.Option
use beanstalkd_rust.Base.{
  ℕ, ◌+◌, Bool, ◌&&◌, not, Option, none, some, List, [], ◌∷◌, Bytes, codes, length, take, drop, ltb,
  ◌==◌, if◌then◌else◌, ◌>>=◌,
}
use beanstalkd_rust.Proto.Numbers.{read_u64_partial}
use beanstalkd_rust.Proto.Reply.{crlf}
use beanstalkd_rust.Proto.Types.{Response}
use beanstalkd_rust.Std.Order.{eqb, bytes_ord, bytes_cmp}

unfoldable pub word_char : ℕ → Bool
word_char b = not (b == 32) && not (b == 13)

unfoldable pub read_word : Bytes → Bytes × Bytes
unfolding word_char
read_word [] = ([], [])
read_word (b ∷ buf) =
    let (word, rest) = read_word buf in if word_char b then (b ∷ word, rest) else ([], b ∷ buf)

unfoldable pub expect : Bytes → Bytes → Option Bytes
expect [] buf = some buf
expect (p ∷ ps) [] = none
expect (p ∷ ps) (b ∷ buf) = let rest = expect ps buf in if p == b then rest else none

-- The replies that are a word only.
abbrev plain : List (Bytes × Response)
plain =
    (codes "BURIED", Response.buried)
    ∷ (codes "KICKED", Response.kicked_job)
    ∷ (codes "DEADLINE_SOON", Response.deadline_soon)
    ∷ (codes "TIMED_OUT", Response.timed_out)
    ∷ (codes "DELETED", Response.deleted)
    ∷ (codes "RELEASED", Response.released)
    ∷ (codes "TOUCHED", Response.touched)
    ∷ (codes "NOT_FOUND", Response.not_found)
    ∷ (codes "NOT_IGNORED", Response.not_ignored)
    ∷ (codes "PAUSED", Response.paused)
    ∷ (codes "EXPECTED_CRLF", Response.expected_crlf)
    ∷ (codes "JOB_TOO_BIG", Response.job_too_big)
    ∷ (codes "DRAINING", Response.draining)
    ∷ (codes "OUT_OF_MEMORY", Response.out_of_memory)
    ∷ (codes "INTERNAL_ERROR", Response.internal_error)
    ∷ (codes "BAD_FORMAT", Response.bad_format)
    ∷ (codes "UNKNOWN_COMMAND", Response.unknown_command)
    ∷ (codes "AUTHENTICATED", Response.authenticated)
    ∷ (codes "UNAUTHORIZED", Response.unauthorized)
    ∷ []

lookup : Bytes → List (Bytes × Response) → Option Response
unfolding bytes_cmp
lookup word [] = none
lookup word ((w, r) ∷ table) = let rest = lookup word table in if eqb w word then some r else rest

-- A number, then a line end.
read_number : Bytes → Option (ℕ × Bytes)
unfolding expect
read_number buf = do (n, rest) ← read_u64_partial buf; rest ← expect crlf rest; some (n, rest)

-- A length, a line end, as many bytes, and a line end.
read_body : Bytes → Option (Bytes × Bytes)
unfolding read_number
read_body buf = do
  (n, rest) ← read_number buf
  after ← if ltb (length rest) n then none else expect crlf (drop n rest)
  some (take n rest, after)

read_job : (ℕ → Bytes → Response) → Bytes → Option (Response × Bytes)
unfolding read_body
read_job reply buf = do
  (id, rest) ← read_u64_partial buf
  (body, rest) ← read_body rest
  some (reply id body, rest)

read_tube : Bytes → Option (Response × Bytes)
unfolding read_word expect
read_tube buf = do
  rest ← expect (codes " ") buf
  let (tube, rest) = read_word rest
  rest ← expect crlf rest
  some (Response.using tube, rest)

read_counted : (ℕ → Response) → Bytes → Option (Response × Bytes)
unfolding read_number
read_counted reply buf = do (n, rest) ← read_number buf; some (reply n, rest)

read_ok : Bytes → Option (Response × Bytes)
unfolding read_body
read_ok buf = do (body, rest) ← read_body buf; some (Response.ok body, rest)

read_args : Bytes → Bytes → Option (Response × Bytes)
unfolding read_counted read_tube read_job read_ok bytes_cmp
read_args word rest =
    if eqb word (codes "INSERTED")
    then read_counted Response.inserted rest
    else if eqb word (codes "BURIED")
    then read_counted Response.buried_id rest
    else if eqb word (codes "USING")
    then read_tube rest
    else if eqb word (codes "RESERVED")
    then read_job Response.reserved rest
    else if eqb word (codes "FOUND")
    then read_job Response.found rest
    else if eqb word (codes "WATCHING")
    then read_counted Response.watching rest
    else if eqb word (codes "KICKED")
    then read_counted Response.kicked rest
    else if eqb word (codes "OK")
    then read_ok rest
    else none

-- A reply and what follows it.
unfoldable pub read_reply : Bytes → Option (Response × Bytes)
unfolding read_word expect lookup read_args
read_reply buf =
    let (word, rest) = read_word buf in
    elim (expect crlf rest) [
      | some after ↦ Option.map (λ r. (r, after)) (lookup word plain)
      | none ↦ read_args word rest
    ]
