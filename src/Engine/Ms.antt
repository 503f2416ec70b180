-- ===== src/Engine/Ms.antt =====
-- crates/engine/src/ms.rs: the array-backed multiset with swap-removal and round-robin `take`.
pub mod Contents
pub mod Removal
pub mod Clearing
use beanstalkd_rust.Base.{
  ℕ, zero, suc, ◌%◌, ◌≡◌, refl, Bool, Option, none, some, List, [], ◌∷◌, ◌++◌, length, get_elem?,
  set, ◌==◌, is_empty, if◌then◌else◌, ◌>>=◌, incr64,
}
use beanstalkd_rust.Std.Order.{Ord, eqb, nat_ord}
use beanstalkd_rust.Std.Set.{contains}

pub record Ms {ℓ} (A : Type ℓ) : Type ℓ where
  pub items : List A
  pub last : ℕ

module _ {ℓ} {A : Type ℓ} where
  -- `Vec::pop`: the last element, and the elements before it.
  unfoldable pub pop : List A → Option (A × List A)
  pop [] = none
  pop (x ∷ xs) =
      let rest = pop xs in elim rest [ none ↦ some (x, []) | some (y, init) ↦ some (y, x ∷ init) ]

  -- `Vec::swap_remove`: the element at `i`, whose place the last one takes. `none` is the panic on
  -- an index out of range.
  unfoldable pub swap_remove : ℕ → List A → Option (A × List A)
  unfolding pop
  swap_remove i xs = do
    (y, init) ← pop xs
    if i == length init then some (y, init) else (do x ← get_elem? init i; some (x, set init i y))

  unfoldable pub new : Ms A
  new = record { items = []; last = 0 }

  unfoldable pub append : A → Ms A → Ms A
  append item m = record m { items = m.items ++ item ∷ [] }

  unfoldable pub remove_at : ℕ → Ms A → Option (A × Ms A)
  unfolding swap_remove
  remove_at i m = do (item, items) ← swap_remove i m.items; some (item, record m { items = items })

  -- The cursor is reduced first, so any value of it is in range.
  take_from : ℕ → List A → Option (A × Ms A)
  unfolding swap_remove
  take_from last items = do
    (item, rest) ← swap_remove last items
    some (item, record { items = rest; last = incr64 last })

  unfoldable pub take : Ms A → Option (A × Ms A)
  unfolding take_from
  take m = if is_empty m.items then none else take_from (m.last % length m.items) m.items

  -- `while !items.is_empty() { order.push(items.swap_remove(0)) }`, on fuel the length.
  unfoldable delete_all : ℕ → List A → List A → List A
  unfolding swap_remove
  delete_all zero items order = order
  delete_all (suc fuel) items order = elim (swap_remove 0 items) [
    | none ↦ order
    | some (x, rest) ↦ delete_all fuel rest (order ++ x ∷ [])
  ]

  unfoldable pub clear_in_delete_order : Ms A → List A × Ms A
  unfolding delete_all
  clear_in_delete_order m =
      (delete_all (length m.items) m.items [], record { items = []; last = 0 })

module _ {ℓ} {A : Type ℓ} ⦃o : Ord A⦄ where
  -- `iter().position(|x| x == item)`
  unfoldable pub position : A → List A → Option ℕ
  position a [] = none
  position a (x ∷ xs) =
      let rest = position a xs in
      if eqb x a then some 0 else elim rest [ none ↦ none | some i ↦ some (suc i) ]

  unfoldable pub remove_item : A → List A → List A
  unfolding position swap_remove
  remove_item a items = elim (position a items) [
    | none ↦ items
    | some i ↦ elim (swap_remove i items) [ none ↦ items | some (x, rest) ↦ rest ]
  ]

  -- `Ms::remove`; the Boolean that it returns is not used by the engine.
  unfoldable pub remove : A → Ms A → Ms A
  unfolding remove_item
  remove a m = record m { items = remove_item a m.items }

  unfoldable pub has : A → Ms A → Bool
  has a m = contains a m.items

abbrev sample : Ms ℕ
sample = record { items = 1 ∷ 2 ∷ 3 ∷ 4 ∷ []; last = 0 }

remove_runs : (remove 2 sample).items ≡ 1 ∷ 4 ∷ 3 ∷ []
unfolding remove
remove_runs = refl

clear_runs : (clear_in_delete_order sample).0 ≡ 1 ∷ 4 ∷ 3 ∷ 2 ∷ []
unfolding clear_in_delete_order
clear_runs = refl
