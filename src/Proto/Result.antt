-- ===== src/Proto/Result.antt =====
-- `Result<T, Response>`: a value, or the reply that the server must send.
use beanstalkd_rust.Base.{Option, none, some}
use beanstalkd_rust.Proto.Types.{Response}

pub data Result {ℓ} (A : Type ℓ) : Type ℓ where
  ok : A → Result A
  err : Response → Result A

infixl 5 ◌>>=◌
abbrev pub ◌>>=◌ {ℓ κ} : {A : Type ℓ} {B : Type κ} → Result A → (A → Result B) → Result B
ok a >>= f = f a
err r >>= f = err r

-- `ok_or(Response::BadFormat)`
abbrev pub or_bad_format {ℓ} : {A : Type ℓ} → Option A → Result A
or_bad_format none = err Response.bad_format
or_bad_format (some a) = ok a
