-- ===== src/Engine/Ms/Removal.antt =====
-- ms.rs, `Ms::remove`: what is taken out.
use beanstalkd_rust.Base.{
  ℕ, suc, ◌≡◌, refl, ap, arith, sym, ◌∙◌, true, false, Bool-cases, inl, inr, ◌⊎◌, if◌then◌else◌,
  none, some, List, [], ◌∷◌, get_elem?, some-inj, get_elem?-bound,
}
use beanstalkd_rust.Std.Order.{Ord, eqb}
use beanstalkd_rust.Std.Set.{contains}
use beanstalkd_rust.Engine.Ms.{Ms, position, remove_item, remove, has}
use beanstalkd_rust.Engine.Ms.Contents.{count, swap_remove-Swapped}

module _ {ℓ} {A : Type ℓ} ⦃o : Ord A⦄ where
  eqb-same_item : (x a : A) → eqb x a ≡ true → x ≡ a
  eqb-same_item x a h = ground (arith, o.cmp_eq x a)

  position-contains :
      (a : A) (xs : List A)
      → ((position a xs ≡ none) × (contains a xs ≡ false))
        ⊎ ((i : ℕ) × (position a xs ≡ some i) × (contains a xs ≡ true) × (get_elem? xs i ≡ some a))
  unfolding position contains
  position-contains a [] = inl (refl, refl)
  position-contains a (x ∷ xs) = elim (Bool-cases (eqb x a)) [
    | inl t ↦ inr (0, rw (position, t), rw (contains, t), ap some (eqb-same_item x a t))
    | inr f ↦ elim (position-contains a xs) [
      | inl (p, c) ↦ inl (rw (position, f, p), rw (contains, f, c))
      | inr (i, p, c, at) ↦ inr (suc i, rw (position, f, p), rw (contains, f, c), at)
    ]
  ]

  remove_item-contents :
      (a b : A) (xs : List A)
      → count b xs
        ≡ (if contains a xs then count b (a ∷ remove_item a xs) else count b (remove_item a xs))
  unfolding remove_item
  remove_item-contents a b xs = elim (position-contains a xs) [
    | inl (p, c) ↦ rw (remove_item, p, c)
    | inr (i, p, c, at) ↦
        let s = swap_remove-Swapped i xs (get_elem?-bound xs i at) in
        let item : s.item ≡ a = some-inj (sym s.at ∙ at) in
        rw (remove_item, p, c, s.result) (s.contents b ∙ ap (λ x. count b (x ∷ s.left)) item)
  ]

  -- `remove` takes one occurrence of the item out if there is one, and nothing else: of every item
  -- there are as many before as after with the removed one put back.
  pub remove-contents :
      (a b : A) (m : Ms A)
      → count b m.items
        ≡ (if has a m then count b (a ∷ (remove a m).items) else count b (remove a m).items)
  unfolding remove has
  remove-contents a b m = remove_item-contents a b m.items
