-- ===== src/Engine/Ms/Contents.antt =====
-- ms.rs: what the multiset holds after `take`, `remove` and `clear_in_delete_order`, counted per item.
use beanstalkd_rust.Base.{
  ◌∙◌, ℕ, zero, suc, ◌+◌, ◌≡◌, ◌<◌, refl, ap, arith, sym, true, false, Bool-cases, inl, inr, ◌⊎◌,
  subst, get_elem?-append, some-inj, length-set, get_elem?-bound, if◌then◌else◌, ◌%◌, some, List,
  [], ◌∷◌, ◌++◌, length, get_elem?, set, ◌==◌, length-append, is_empty, incr64,
}
use native.Mathlib.Nat.{mod-lt}
use beanstalkd_rust.Std.Order.{Ord, eqb}
use beanstalkd_rust.Engine.Ms.{Ms, pop, swap_remove, take_from, take}

-- How often `a` occurs.
unfoldable pub count {ℓ} : {A : Type ℓ} ⦃o : Ord A⦄ → A → List A → ℕ
count a [] = 0
count a (x ∷ xs) = (if eqb x a then 1 else 0) + count a xs

module _ {ℓ} {A : Type ℓ} where
  pop-append : (init : List A) (y : A) → pop (init ++ y ∷ []) ≡ some (y, init)
  unfolding pop
  pop-append [] y = refl
  pop-append (x ∷ init) y = rw (pop, pop-append init y)

  pub last-cases : (xs : List A) → (xs ≡ []) ⊎ ((y : A) × (init : List A) × (xs ≡ init ++ y ∷ []))
  last-cases [] = inl refl
  last-cases (x ∷ xs) = elim (last-cases xs) [
    | inl e ↦ inr (x, [], ap (◌∷◌ x) e)
    | inr (y, init, e) ↦ inr (y, x ∷ init, ap (◌∷◌ x) e)
  ]

  get_elem?-inside : (xs : List A) (i : ℕ) → i < length xs → (x : A) × (get_elem? xs i ≡ some x)
  get_elem?-inside [] i h = absurd (omega arith)
  get_elem?-inside (x ∷ xs) zero h = (x, refl)
  get_elem?-inside (x ∷ xs) (suc i) h = get_elem?-inside xs i (omega arith)

  get_elem?-append_last :
      (init : List A) (y : A) → get_elem? (init ++ y ∷ []) (length init) ≡ some y
  get_elem?-append_last [] y = refl
  get_elem?-append_last (x ∷ init) y = get_elem?-append_last init y

  pub swap_remove-last :
      (init : List A) (y : A) → swap_remove (length init) (init ++ y ∷ []) ≡ some (y, init)
  unfolding swap_remove
  swap_remove-last init y =
      let here : (length init == length init) ≡ true = ground arith in
      rw (swap_remove, pop-append init y, here)

  pub swap_remove-inner :
      (i : ℕ) (init : List A) (x y : A)
      → get_elem? init i ≡ some x
      → swap_remove i (init ++ y ∷ []) ≡ some (x, set init i y)
  unfolding swap_remove
  swap_remove-inner i init x y h =
      let inside = get_elem?-bound init i h in
      let other : (i == length init) ≡ false = ground arith in
      rw (swap_remove, pop-append init y, other, h)

module _ {ℓ} {A : Type ℓ} ⦃o : Ord A⦄ where
  count-append : (a : A) (xs ys : List A) → count a (xs ++ ys) ≡ count a xs + count a ys
  unfolding count
  count-append a [] ys = omega arith
  count-append a (x ∷ xs) ys = omega (arith, count-append a xs ys)

  -- What `swap_remove` takes out and what it leaves.
  pub record Swapped (i : ℕ) (xs : List A) : Type ℓ where
    pub item : A
    pub left : List A
    pub result : swap_remove i xs ≡ some (item, left)
    pub at : get_elem? xs i ≡ some item
    pub contents : (a : A) → count a xs ≡ count a (item ∷ left)
    pub size : length xs ≡ suc (length left)

  count-set :
      (a : A) (xs : List A) (i : ℕ) (x y : A)
      → get_elem? xs i ≡ some x
      → count a (x ∷ set xs i y) ≡ count a (y ∷ xs)
  unfolding count
  count-set a [] i x y h = ground arith
  count-set a (z ∷ xs) zero x y h = rw (some-inj h) (omega arith)
  count-set a (z ∷ xs) (suc i) x y h = omega (arith, count-set a xs i x y h)

  Swapped-last : (init : List A) (y : A) → Swapped (length init) (init ++ y ∷ [])
  unfolding count
  Swapped-last init y = record {
    item = y;
    left = init;
    result = swap_remove-last init y;
    at = get_elem?-append_last init y;
    contents = λ a. omega (arith, count-append a init (y ∷ []));
    size = omega (arith, length-append init (y ∷ []));
  }

  Swapped-inner :
      (i : ℕ) (init : List A) (x y : A) → get_elem? init i ≡ some x → Swapped i (init ++ y ∷ [])
  unfolding count
  Swapped-inner i init x y h = record {
    item = x;
    left = set init i y;
    result = swap_remove-inner i init x y h;
    at = get_elem?-append init (y ∷ []) i h;
    contents = λ a. omega (arith, count-append a init (y ∷ []), count-set a init i x y h);
    size = omega (arith, length-append init (y ∷ []), length-set init i y);
  }

  Swapped-append :
      (i : ℕ) (init : List A) (y : A) → i < length (init ++ y ∷ []) → Swapped i (init ++ y ∷ [])
  Swapped-append i init y h = elim (Bool-cases (i == length init)) [
    | inl t ↦
        let e : length init ≡ i = ground arith in
        subst (λ k. Swapped k (init ++ y ∷ [])) e (Swapped-last init y)
    | inr f ↦
        let size = length-append init (y ∷ []) in
        let inside : i < length init = ground arith in
        let (x, at) = get_elem?-inside init i inside in Swapped-inner i init x y at
  ]

  -- An index in range is swapped out: one item is taken, the rest is kept.
  pub swap_remove-Swapped : (i : ℕ) (xs : List A) → i < length xs → Swapped i xs
  swap_remove-Swapped i xs h = elim (last-cases xs) [
    | inl e ↦ absurd (let none_left = ap length e in omega arith)
    | inr (y, init, e) ↦
        let h' : i < length (init ++ y ∷ []) = subst (λ l. i < length l) e h in
        subst (Swapped i) (sym e) (Swapped-append i init y h')
  ]

  -- Where the elements stand: the last one is taken, or it takes the place of the one taken.
  pub swap_remove-cases :
      (i : ℕ) (xs : List A)
      → i < length xs
      → (init : List A) × (y : A) × (xs ≡ init ++ y ∷ [])
        × (((i ≡ length init) × (swap_remove i xs ≡ some (y, init)))
            ⊎ ((x : A) × (get_elem? init i ≡ some x) × (swap_remove i xs ≡ some (x, set init i y))))
  swap_remove-cases i xs h = elim (last-cases xs) [
    | inl e ↦ absurd (let none_left = ap length e in omega arith)
    | inr (y, init, e) ↦
        let size = ap length e ∙ length-append init (y ∷ []) in
        let whole = ap (swap_remove i) e in
        (
          init,
          y,
          e,
          elim (Bool-cases (i == length init)) [
            | inl t ↦
                let at : i ≡ length init = ground arith in
                inl (
                  at,
                  whole ∙ ap (λ k. swap_remove k (init ++ y ∷ [])) at ∙ swap_remove-last init y,
                )
            | inr f ↦
                let inside : i < length init = ground arith in
                let (x, at) = get_elem?-inside init i inside in
                inr (x, at, whole ∙ swap_remove-inner i init x y at)
          ],
        )
  ]

  mod_inside : (xs : List A) (n : ℕ) → is_empty xs ≡ false → n % length xs < length xs
  mod_inside [] n h = ground arith
  mod_inside (x ∷ xs) n h = mod-lt n (omega arith)

  -- What `take` gives and what it leaves.
  pub record Taken (m : Ms A) : Type ℓ where
    pub item : A
    pub left : Ms A
    pub result : take m ≡ some (item, left)
    pub at : get_elem? m.items (m.last % length m.items) ≡ some item
    pub contents : (a : A) → count a m.items ≡ count a (item ∷ left.items)

  -- `take` on a multiset that is not empty gives the item at the cursor, reduced to the length, and
  -- takes it out once: every item occurs before as often as in the one given and those left.
  pub take-Taken : (m : Ms A) → is_empty m.items ≡ false → Taken m
  unfolding take take_from
  take-Taken m h =
      let inside : m.last % length m.items < length m.items = mod_inside m.items m.last h in
      let s = swap_remove-Swapped (m.last % length m.items) m.items inside in
      record {
        item = s.item;
        left = record { items = s.left; last = incr64 (m.last % length m.items) };
        result = rw (take, h, s.result);
        at = s.at;
        contents = s.contents;
      }
