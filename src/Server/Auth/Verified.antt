-- ===== src/Server/Auth/Verified.antt =====
-- auth.rs: exactly the configured tokens are accepted.
use beanstalkd_rust.Base.{
  ℕ, zero, suc, ◌≤◌, ◌<◌, ◌^◌, ◌≡◌, sym, ap, ◌∙◌, arith, true, List, [], ◌∷◌, Bytes, length, take,
  take-length, take-all, min, leb, all, get_elem?, some, ◌↔◌, ◌⊎◌, inl, inr, map, some-inj,
  true-ne_false, and-true, or-true,
}
use beanstalkd_rust.Server.Auth.{Subtle, max_token_len, padded, new, ct_eq, verify_from, verify}

-- The first bytes of a padded token that is not too long are the token.
padded-prefix :
    (token : Bytes)
    → length token ≤ max_token_len
    → take (length token) (padded token).bytes ≡ token
unfolding padded
padded-prefix token short =
    let n : min (length token) max_token_len ≡ length token = omega arith in
    let whole = take-all (length token) token (omega arith) in
    rw (padded, n, whole) (take-length token _)

padded-len : (token : Bytes) → length token ≤ max_token_len → (padded token).len ≡ length token
unfolding padded
padded-len token short = ground arith

padded-len_bound : (token : Bytes) → (padded token).len < 2 ^ 64
unfolding padded
padded-len_bound token = ground arith

padded-short : (token : Bytes) → (padded token).len ≤ max_token_len → length token ≤ max_token_len
unfolding padded
padded-short token h = ground arith

padded-inj : (a b : Bytes) → length a ≤ max_token_len → padded a ≡ padded b → a ≡ b
padded-inj a b short same =
    let len = ap (λ p. p.len) same in
    let la = padded-len a short in
    let fits = padded-short b (omega arith) in
    let lb = padded-len b fits in
    let n : length a ≡ length b = omega arith in
    sym (padded-prefix a short)
    ∙ ap (λ p. take (length a) p.bytes) same
    ∙ ap (λ k. take k (padded b).bytes) n
    ∙ padded-prefix b fits

abbrev pub AllShort : List Bytes → Type 0
AllShort tokens = all (λ t. leb (length t) max_token_len) tokens ≡ true

-- The candidate is one of the tokens.
abbrev pub IsOneOf : List Bytes → Bytes → Type 0
IsOneOf tokens candidate = (i : ℕ) × (get_elem? tokens i ≡ some candidate)

module _ ⦃s : Subtle⦄ where
  ct_eq-padded :
      (a b : Bytes)
      → length a ≤ max_token_len
      → (s.to_bool (ct_eq (padded a) (padded b)) ≡ true) ↔ (a ≡ b)
  unfolding ct_eq
  ct_eq-padded a b short =
      let p = padded a in
      let q = padded b in
      let both = s.both_and (s.bytes_ct_eq p.bytes q.bytes) (s.u64_ct_eq p.len q.len) in
      let bytes = s.bytes_eq p.bytes q.bytes in
      let len = s.u64_eq p.len q.len (padded-len_bound a) (padded-len_bound b) in
      let parts =
        and-true (s.to_bool (s.bytes_ct_eq p.bytes q.bytes))
          (s.to_bool (s.u64_ct_eq p.len q.len)) in
      (
        λ h.
            let (same_bytes, same_len) = parts.0 (sym both ∙ h) in
            let e : p.bytes ≡ q.bytes = bytes.0 same_bytes in
            let f : p.len ≡ q.len = len.0 same_len in
            padded-inj a b short (λ i. record { bytes = e i; len = f i }),
        λ h.
            both
            ∙ parts.1 (bytes.1 (ap (λ t. (padded t).bytes) h), len.1 (ap (λ t. (padded t).len) h)),
      )

  verify_from-IsOneOf :
      (tokens : List Bytes) (candidate : Bytes) (ok : s.Choice)
      → AllShort tokens
      → (s.to_bool (verify_from (map padded tokens) (padded candidate) ok) ≡ true)
        ↔ ((s.to_bool ok ≡ true) ⊎ IsOneOf tokens candidate)
  unfolding verify_from
  verify_from-IsOneOf [] candidate ok v =
      (λ h. inl h, λ h. elim h [ inl t ↦ t | inr (i, f) ↦ absurd (ground arith) ])
  verify_from-IsOneOf (token ∷ tokens) candidate ok v =
      let (short, shorts) = (and-true (leb (length token) max_token_len) _).0 v in
      let here = ct_eq-padded token candidate (ground arith) in
      let c = ct_eq (padded token) (padded candidate) in
      let either = s.either_or ok c in
      let one = or-true (s.to_bool ok) (s.to_bool c) in
      let rest = verify_from-IsOneOf tokens candidate (s.either ok c) shorts in
      (
        λ h. elim (rest.0 h) [
          | inl t ↦ elim (one.0 (sym either ∙ t)) [
            | inl before ↦ inl before
            | inr now ↦ inr (0, ap some (here.0 now))
          ]
          | inr (i, found) ↦ inr (suc i, found)
        ],
        λ h. elim h [
          | inl before ↦ rest.1 (inl (either ∙ one.1 (inl before)))
          | inr (zero, found) ↦ rest.1 (inl (either ∙ one.1 (inr (here.1 (some-inj found)))))
          | inr (suc i, found) ↦ rest.1 (inr (i, found))
        ],
      )

  -- If no token is longer than the configuration allows, then a candidate is accepted exactly if it
  -- is one of the tokens.
  pub verify-IsOneOf :
      (tokens : List Bytes) (candidate : Bytes)
      → AllShort tokens
      → (verify (new tokens) candidate ≡ true) ↔ IsOneOf tokens candidate
  unfolding verify new
  verify-IsOneOf tokens candidate v =
      let all = verify_from-IsOneOf tokens candidate s.no v in
      (
        λ h. elim (all.0 h) [
          | inl accepted ↦ absurd (true-ne_false (sym accepted ∙ s.no_false))
          | inr found ↦ found
        ],
        λ found. all.1 (inr found),
      )
