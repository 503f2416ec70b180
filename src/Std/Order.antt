-- ===== src/Std/Order.antt =====
-- Total orders: numbers, pairs of them (lexicographic, as tuples compare), and byte strings.
use beanstalkd_rust.Base.{
  ℕ, ◌≡◌, refl, ◌↔◌, Bool, true, false, [], ◌∷◌, arith, compare, Ordering, Bytes,
}

pub record Ord {ℓ} (K : Type ℓ) : Type ℓ where
  pub cmp : K → K → Ordering
  pub cmp_eq : (a b : K) → (cmp a b ≡ Ordering.eq) ↔ (a ≡ b)
  pub cmp_trans :
      (a b c : K) → cmp a b ≡ Ordering.lt → cmp b c ≡ Ordering.lt → cmp a c ≡ Ordering.lt
  pub cmp_flip : (a b : K) → cmp a b ≡ Ordering.gt → cmp b a ≡ Ordering.lt

abbrev pub eqb {ℓ} : {K : Type ℓ} ⦃o : Ord K⦄ → K → K → Bool
eqb ⦃o⦄ a b = elim (o.cmp a b) [ Ordering.eq ↦ true | _ ↦ false ]

pub nat-cmp_eq : (a b : ℕ) → (compare a b ≡ Ordering.eq) ↔ (a ≡ b)
nat-cmp_eq a b = ground arith

pub nat-cmp_trans :
    (a b c : ℕ) → compare a b ≡ Ordering.lt → compare b c ≡ Ordering.lt → compare a c ≡ Ordering.lt
nat-cmp_trans a b c h k = ground arith

pub nat-cmp_flip : (a b : ℕ) → compare a b ≡ Ordering.gt → compare b a ≡ Ordering.lt
nat-cmp_flip a b h = ground arith

instance abbrev pub nat_ord : Ord ℕ
nat_ord = record {
  cmp = compare;
  cmp_eq = nat-cmp_eq;
  cmp_trans = nat-cmp_trans;
  cmp_flip = nat-cmp_flip;
}

abbrev pub pair_cmp : ℕ × ℕ → ℕ × ℕ → Ordering
pair_cmp p q = elim (compare p.0 q.0) [
  | Ordering.lt ↦ Ordering.lt
  | Ordering.eq ↦ compare p.1 q.1
  | Ordering.gt ↦ Ordering.gt
]

pub pair-cmp_eq : (p q : ℕ × ℕ) → (pair_cmp p q ≡ Ordering.eq) ↔ (p ≡ q)
pair-cmp_eq (a, b) (c, d) = ground arith

pub pair-cmp_trans :
    (p q r : ℕ × ℕ)
    → pair_cmp p q ≡ Ordering.lt
    → pair_cmp q r ≡ Ordering.lt
    → pair_cmp p r ≡ Ordering.lt
pair-cmp_trans (a, b) (c, d) (e, f) h k = ground arith

pub pair-cmp_flip : (p q : ℕ × ℕ) → pair_cmp p q ≡ Ordering.gt → pair_cmp q p ≡ Ordering.lt
pair-cmp_flip (a, b) (c, d) h = ground arith

instance abbrev pub pair_ord : Ord (ℕ × ℕ)
pair_ord = record {
  cmp = pair_cmp;
  cmp_eq = pair-cmp_eq;
  cmp_trans = pair-cmp_trans;
  cmp_flip = pair-cmp_flip;
}

unfoldable pub bytes_cmp : Bytes → Bytes → Ordering
bytes_cmp [] [] = Ordering.eq
bytes_cmp [] (y ∷ ys) = Ordering.lt
bytes_cmp (x ∷ xs) [] = Ordering.gt
bytes_cmp (x ∷ xs) (y ∷ ys) =
    let rest = bytes_cmp xs ys in
    elim (compare x y) [
      | Ordering.lt ↦ Ordering.lt
      | Ordering.eq ↦ rest
      | Ordering.gt ↦ Ordering.gt
    ]

pub bytes-cmp_eq : (a b : Bytes) → (bytes_cmp a b ≡ Ordering.eq) ↔ (a ≡ b)
unfolding bytes_cmp
bytes-cmp_eq [] [] = ground arith
bytes-cmp_eq [] (y ∷ ys) = ground arith
bytes-cmp_eq (x ∷ xs) [] = ground arith
bytes-cmp_eq (x ∷ xs) (y ∷ ys) = ground (arith, bytes-cmp_eq xs ys)

pub bytes-cmp_trans :
    (a b c : Bytes)
    → bytes_cmp a b ≡ Ordering.lt
    → bytes_cmp b c ≡ Ordering.lt
    → bytes_cmp a c ≡ Ordering.lt
unfolding bytes_cmp
bytes-cmp_trans [] (y ∷ ys) (z ∷ zs) h k = refl
bytes-cmp_trans (x ∷ xs) (y ∷ ys) (z ∷ zs) h k = ground (arith, bytes-cmp_trans xs ys zs)
bytes-cmp_trans _ _ _ h k = ground arith

pub bytes-cmp_flip : (a b : Bytes) → bytes_cmp a b ≡ Ordering.gt → bytes_cmp b a ≡ Ordering.lt
unfolding bytes_cmp
bytes-cmp_flip (x ∷ xs) (y ∷ ys) h = ground (arith, bytes-cmp_flip xs ys)
bytes-cmp_flip _ _ h = ground arith

instance abbrev pub bytes_ord : Ord Bytes
bytes_ord = record {
  cmp = bytes_cmp;
  cmp_eq = bytes-cmp_eq;
  cmp_trans = bytes-cmp_trans;
  cmp_flip = bytes-cmp_flip;
}

pub bytes-eqb : (a b : Bytes) → (eqb a b ≡ true) ↔ (a ≡ b)
bytes-eqb a b = ground (arith, bytes_ord.cmp_eq a b)
