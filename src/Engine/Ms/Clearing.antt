-- ===== src/Engine/Ms/Clearing.antt =====
-- ms.rs: `clear_in_delete_order`, against the order in which the items leave, written out.
use beanstalkd_rust.Base.{
  ℕ, zero, suc, ◌≡◌, ◌≤◌, refl, sym, ap, arith, ◌∙◌, inl, inr, List, [], ◌∷◌, ◌++◌, length,
  length-append, reverse, append_assoc, some, subst,
}
use mathlib.Core.List.{reverse-append}
use beanstalkd_rust.Engine.Ms.{Ms, swap_remove, pop, delete_all, clear_in_delete_order}
use beanstalkd_rust.Engine.Ms.Contents.{last-cases, swap_remove-inner, swap_remove-last}

module _ {ℓ} {A : Type ℓ} where
  -- The first item, and then the others from the last one on.
  abbrev pub delete_order : List A → List A
  delete_order [] = []
  delete_order (x ∷ xs) = x ∷ reverse xs

  delete_all-none : (n : ℕ) (order : List A) → delete_all n [] order ≡ order
  unfolding delete_all swap_remove pop
  delete_all-none zero order = refl
  delete_all-none (suc n) order = refl

  delete_all-next :
      (n : ℕ) (items rest order : List A) (x : A)
      → swap_remove 0 items ≡ some (x, rest)
      → delete_all (suc n) items order ≡ delete_all n rest (order ++ x ∷ [])
  unfolding delete_all
  delete_all-next n items rest order x e = rw (delete_all, e)

  delete_all-one :
      (n : ℕ) (x : A) (order : List A) → delete_all (suc n) (x ∷ []) order ≡ order ++ x ∷ []
  delete_all-one n x order =
      delete_all-next n (x ∷ []) [] order x (swap_remove-last [] x)
      ∙ delete_all-none n (order ++ x ∷ [])

  -- A round takes the first item, and the last one becomes the first.
  delete_all-order :
      (n : ℕ) (x : A) (xs order : List A)
      → length xs ≤ n
      → delete_all (suc n) (x ∷ xs) order ≡ order ++ delete_order (x ∷ xs)
  delete_all-order zero x xs order h = elim (last-cases xs) [
    | inl e ↦
        subst (λ l. delete_all (suc zero) (x ∷ l) order ≡ order ++ delete_order (x ∷ l)) (sym e)
          (delete_all-one zero x order)
    | inr (y, init, e) ↦
        let size = length-append init (y ∷ []) in
        let few = subst (λ l. length l ≤ zero) e h in absurd (omega arith)
  ]
  delete_all-order (suc n) x xs order h = elim (last-cases xs) [
    | inl e ↦
        subst (λ l. delete_all (suc (suc n)) (x ∷ l) order ≡ order ++ delete_order (x ∷ l)) (sym e)
          (delete_all-one (suc n) x order)
    | inr (y, init, e) ↦
        let size = length-append init (y ∷ []) in
        let few = subst (λ l. length l ≤ (suc n)) e h in
        subst (λ l. delete_all (suc (suc n)) (x ∷ l) order ≡ order ++ delete_order (x ∷ l)) (sym e)
          (delete_all-next (suc n) (x ∷ (init ++ y ∷ [])) (y ∷ init) order x
              (swap_remove-inner 0 (x ∷ init) x y refl)
            ∙ delete_all-order n y init (order ++ x ∷ []) (omega arith)
            ∙ append_assoc order (x ∷ []) (y ∷ reverse init)
            ∙ ap (λ l. order ++ (x ∷ l)) (sym (reverse-append init (y ∷ []))))
  ]

  -- `clear_in_delete_order` gives the first item and then the others from the last one on, and
  -- leaves the multiset empty, with the cursor at its start.
  pub clear_in_delete_order-order :
      (m : Ms A) → clear_in_delete_order m ≡ (delete_order m.items, record { items = []; last = 0 })
  unfolding clear_in_delete_order
  clear_in_delete_order-order m = ap (λ l. (l, record { items = []; last = 0 })) (cleared m.items)
    where
      cleared : (items : List A) → delete_all (length items) items [] ≡ delete_order items
      cleared [] = delete_all-none 0 []
      cleared (x ∷ xs) = delete_all-order (length xs) x xs [] (omega arith)
