-- ===== src/Store/Outcome.antt =====
-- `Result<T, &'static str>`: a value, or why there is none.
use beanstalkd_rust.Base.{Option, none, some, Bytes}

pub data Outcome {ℓ} (A : Type ℓ) : Type ℓ where
  ok : A → Outcome A
  err : Bytes → Outcome A

infixl 5 ◌>>=◌
abbrev pub ◌>>=◌ {ℓ κ} : {A : Type ℓ} {B : Type κ} → Outcome A → (A → Outcome B) → Outcome B
ok a >>= f = f a
err why >>= f = err why

-- `ok_or`
abbrev pub or_err {ℓ} : {A : Type ℓ} → Bytes → Option A → Outcome A
or_err why none = err why
or_err why (some a) = ok a

abbrev pub map_ok {ℓ κ} : {A : Type ℓ} {B : Type κ} → (A → B) → Outcome A → Outcome B
map_ok f (ok a) = ok (f a)
map_ok f (err why) = err why
