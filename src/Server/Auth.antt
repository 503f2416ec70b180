-- ===== src/Server/Auth.antt =====
-- crates/server/src/auth.rs: the configured tokens and their comparison in constant time.
pub mod Verified
use beanstalkd_rust.Base.{
  ℕ, ◌-◌, ◌^◌, ◌<◌, ◌≡◌, ◌↔◌, Bool, true, false, ◌&&◌, ◌||◌, List, [], ◌∷◌, ◌++◌, Bytes, codes,
  length, take, drop, min, ltb, max_u64, if◌then◌else◌, map,
}
use beanstalkd_rust.Proto.Types.{line_buf_size}
use beanstalkd_rust.Store.Wal.Space.{zeros}

-- The crate `subtle`: `Choice` with what the code does with it, and the comparisons of byte slices
-- and of `u64`s.
pub record Subtle : Type 1 where
  pub Choice : Type 0
  pub no : Choice
  pub both : Choice → Choice → Choice
  pub either : Choice → Choice → Choice
  pub to_bool : Choice → Bool
  pub bytes_ct_eq : Bytes → Bytes → Choice
  pub u64_ct_eq : ℕ → ℕ → Choice
  pub no_false : to_bool no ≡ false
  pub both_and : (c d : Choice) → to_bool (both c d) ≡ to_bool c && to_bool d
  pub either_or : (c d : Choice) → to_bool (either c d) ≡ to_bool c || to_bool d
  pub bytes_eq : (a b : Bytes) → (to_bool (bytes_ct_eq a b) ≡ true) ↔ (a ≡ b)
  pub u64_eq : (a b : ℕ) → a < 2 ^ 64 → b < 2 ^ 64 → (to_bool (u64_ct_eq a b) ≡ true) ↔ (a ≡ b)

abbrev pub max_token_len : ℕ
max_token_len = line_buf_size - length (codes "auth ") - 2

pub record Padded : Type 0 where
  pub bytes : Bytes
  pub len : ℕ

-- A longer token is cut off, and its length is an impossible one.
unfoldable padded : Bytes → Padded
padded token =
    let n = min (length token) max_token_len in
    record {
      bytes = take n token ++ drop n (zeros max_token_len);
      len = if ltb max_token_len (length token) then max_u64 else n;
    }

pub record TokenSet : Type 0 where
  pub tokens : List Padded

unfoldable pub new : List Bytes → TokenSet
unfolding padded
new tokens = record { tokens = map padded tokens }

module _ ⦃s : Subtle⦄ where
  unfoldable ct_eq : Padded → Padded → s.Choice
  ct_eq p q = s.both (s.bytes_ct_eq p.bytes q.bytes) (s.u64_ct_eq p.len q.len)

  -- The loop over the tokens.
  unfoldable verify_from : List Padded → Padded → s.Choice → s.Choice
  unfolding ct_eq
  verify_from [] candidate ok = ok
  verify_from (token ∷ tokens) candidate ok =
      verify_from tokens candidate (s.either ok (ct_eq token candidate))

  unfoldable pub verify : TokenSet → Bytes → Bool
  unfolding verify_from padded
  verify set candidate = s.to_bool (verify_from set.tokens (padded candidate) s.no)
