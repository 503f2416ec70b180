-- ===== src/Proto/Reply.antt =====
-- crates/proto/src/response.rs: the bytes of replies.
pub mod Reader
use beanstalkd_rust.Base.{ℕ, [], ◌∷◌, ◌++◌, Bytes, codes, length}
use beanstalkd_rust.Proto.Decimal.{decimal}
use beanstalkd_rust.Proto.Types.{Response}

abbrev pub crlf : Bytes
crlf = 13 ∷ 10 ∷ []

unfoldable pub push : Bytes → Bytes → Bytes
push dst s = dst ++ s

unfoldable pub push_with_body : Bytes → Bytes → Bytes → Bytes
unfolding push
push_with_body dst header body = push dst header ++ body ++ crlf

-- `format!("WORD {n}\r\n")`
unfoldable pub numbered : Bytes → ℕ → Bytes
numbered word n = word ++ (b' ' ∷ decimal n ++ crlf)

-- `format!("WORD {id} {len}\r\n")`
unfoldable pub twice_numbered : Bytes → ℕ → ℕ → Bytes
twice_numbered word id len = word ++ (b' ' ∷ decimal id ++ (b' ' ∷ decimal len ++ crlf))

-- `Response::encode`
unfoldable pub encode : Response → Bytes → Bytes
unfolding push push_with_body numbered twice_numbered
encode (Response.inserted id) dst = push dst (numbered (codes "INSERTED") id)
encode (Response.buried_id id) dst = push dst (numbered (codes "BURIED") id)
encode Response.buried dst = push dst (codes "BURIED" ++ crlf)
encode (Response.using tube) dst = push dst (codes "USING " ++ tube ++ crlf)
encode (Response.reserved id body) dst =
    push_with_body dst (twice_numbered (codes "RESERVED") id (length body)) body
encode (Response.found id body) dst =
    push_with_body dst (twice_numbered (codes "FOUND") id (length body)) body
encode (Response.watching n) dst = push dst (numbered (codes "WATCHING") n)
encode (Response.kicked n) dst = push dst (numbered (codes "KICKED") n)
encode Response.kicked_job dst = push dst (codes "KICKED" ++ crlf)
encode (Response.ok body) dst = push_with_body dst (numbered (codes "OK") (length body)) body
encode Response.deadline_soon dst = push dst (codes "DEADLINE_SOON" ++ crlf)
encode Response.timed_out dst = push dst (codes "TIMED_OUT" ++ crlf)
encode Response.deleted dst = push dst (codes "DELETED" ++ crlf)
encode Response.released dst = push dst (codes "RELEASED" ++ crlf)
encode Response.touched dst = push dst (codes "TOUCHED" ++ crlf)
encode Response.not_found dst = push dst (codes "NOT_FOUND" ++ crlf)
encode Response.not_ignored dst = push dst (codes "NOT_IGNORED" ++ crlf)
encode Response.paused dst = push dst (codes "PAUSED" ++ crlf)
encode Response.expected_crlf dst = push dst (codes "EXPECTED_CRLF" ++ crlf)
encode Response.job_too_big dst = push dst (codes "JOB_TOO_BIG" ++ crlf)
encode Response.draining dst = push dst (codes "DRAINING" ++ crlf)
encode Response.out_of_memory dst = push dst (codes "OUT_OF_MEMORY" ++ crlf)
encode Response.internal_error dst = push dst (codes "INTERNAL_ERROR" ++ crlf)
encode Response.bad_format dst = push dst (codes "BAD_FORMAT" ++ crlf)
encode Response.unknown_command dst = push dst (codes "UNKNOWN_COMMAND" ++ crlf)
encode Response.authenticated dst = push dst (codes "AUTHENTICATED" ++ crlf)
encode Response.unauthorized dst = push dst (codes "UNAUTHORIZED" ++ crlf)
