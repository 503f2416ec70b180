-- ===== src/Std/Set.antt =====
-- `BTreeSet`: the elements in ascending order. `first` of Base is `BTreeSet::first`.
use beanstalkd_rust.Base.{
  suc, ◌≤◌, ◌≡◌, refl, Bool, true, false, some, List, [], ◌∷◌, arith, Ordering, length, first,
  if◌then◌else◌,
}
use beanstalkd_rust.Std.Order.{Ord, eqb}

module _ {ℓ} {K : Type ℓ} ⦃o : Ord K⦄ where
  unfoldable pub contains : K → List K → Bool
  contains k [] = false
  contains k (x ∷ s) = let rest = contains k s in if eqb x k then true else rest

  unfoldable pub insert : K → List K → List K
  insert k [] = k ∷ []
  insert k (x ∷ s) =
      let rest = insert k s in
      elim (o.cmp k x) [ Ordering.lt ↦ k ∷ x ∷ s | Ordering.eq ↦ x ∷ s | Ordering.gt ↦ x ∷ rest ]

  unfoldable pub remove : K → List K → List K
  remove k [] = []
  remove k (x ∷ s) = let rest = remove k s in if eqb x k then rest else x ∷ rest

  pub contains-insert :
      (k q : K) (s : List K) → contains q (insert k s) ≡ (if eqb k q then true else contains q s)
  unfolding contains insert
  contains-insert k q [] = refl
  contains-insert k q (x ∷ s) =
      ground (arith, contains-insert k q s, o.cmp_eq k x, o.cmp_eq x q, o.cmp_eq k q)

  pub contains-remove :
      (k q : K) (s : List K) → contains q (remove k s) ≡ (if eqb k q then false else contains q s)
  unfolding contains remove
  contains-remove k q [] = ground arith
  contains-remove k q (x ∷ s) =
      ground (arith, contains-remove k q s, o.cmp_eq x k, o.cmp_eq x q, o.cmp_eq k q)

  pub contains-first : (k : K) (s : List K) → first s ≡ some k → contains k s ≡ true
  unfolding contains
  contains-first k [] h = ground arith
  contains-first k (x ∷ s) h = ground (arith, o.cmp_eq x k)

  pub length-remove-le : (k : K) (s : List K) → length (remove k s) ≤ length s
  unfolding remove
  length-remove-le k [] = omega arith
  length-remove-le k (x ∷ s) = ground (arith, length-remove-le k s)

  pub length-remove-lt :
      (k : K) (s : List K) → contains k s ≡ true → suc (length (remove k s)) ≤ length s
  unfolding contains remove
  length-remove-lt k [] h = ground arith
  length-remove-lt k (x ∷ s) h = ground (arith, length-remove-lt k s, length-remove-le k s)
