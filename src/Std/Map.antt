-- ===== src/Std/Map.antt =====
-- `HashMap` and `BTreeMap`: entries in ascending order of their keys.
use mathlib.Core.Option
use beanstalkd_rust.Base.{
  ◌≡◌, refl, Bool, Option, none, some, List, [], ◌∷◌, map, arith, Ordering, if◌then◌else◌, is_some,
}
use beanstalkd_rust.Std.Order.{Ord, eqb}

abbrev pub Map {ℓ κ} : Type ℓ → Type κ → Type (ℓ ⊔ κ)
Map K V = List (K × V)

module _ {ℓ κ} {K : Type ℓ} {V : Type κ} ⦃o : Ord K⦄ where
  unfoldable pub get : K → Map K V → Option V
  get k [] = none
  get k ((j, v) ∷ m) = let rest = get k m in if eqb j k then some v else rest

  unfoldable pub insert : K → V → Map K V → Map K V
  insert k v [] = (k, v) ∷ []
  insert k v ((j, w) ∷ m) =
      let rest = insert k v m in
      elim (o.cmp k j) [
        | Ordering.lt ↦ (k, v) ∷ (j, w) ∷ m
        | Ordering.eq ↦ (k, v) ∷ m
        | Ordering.gt ↦ (j, w) ∷ rest
      ]

  unfoldable pub remove : K → Map K V → Map K V
  remove k [] = []
  remove k ((j, w) ∷ m) = let rest = remove k m in if eqb j k then rest else (j, w) ∷ rest

  -- `if let Some(v) = m.get_mut(&k) { … }`
  unfoldable pub modify : K → (V → V) → Map K V → Map K V
  modify k f [] = []
  modify k f ((j, w) ∷ m) =
      let rest = modify k f m in if eqb j k then (j, f w) ∷ m else (j, w) ∷ rest

  abbrev pub contains_key : K → Map K V → Bool
  contains_key k m = is_some (get k m)

  abbrev pub keys : Map K V → List K
  keys m = map (λ e. e.0) m

  abbrev pub values : Map K V → List V
  values m = map (λ e. e.1) m

  pub get-insert :
      (k q : K) (v : V) (m : Map K V) → get q (insert k v m) ≡ (if eqb k q then some v else get q m)
  unfolding get insert
  get-insert k q v [] = refl
  get-insert k q v ((j, w) ∷ m) =
      ground (arith, get-insert k q v m, o.cmp_eq k j, o.cmp_eq j q, o.cmp_eq k q)

  pub get-remove :
      (k q : K) (m : Map K V) → get q (remove k m) ≡ (if eqb k q then none else get q m)
  unfolding get remove
  get-remove k q [] = ground arith
  get-remove k q ((j, w) ∷ m) =
      ground (arith, get-remove k q m, o.cmp_eq j k, o.cmp_eq j q, o.cmp_eq k q)

  pub get-modify :
      (k q : K) (f : V → V) (m : Map K V)
      → get q (modify k f m) ≡ (if eqb k q then Option.map f (get q m) else get q m)
  unfolding get modify
  get-modify k q f [] = ground arith
  get-modify k q f ((j, w) ∷ m) =
      ground (arith, get-modify k q f m, o.cmp_eq j k, o.cmp_eq j q, o.cmp_eq k q)
