-- ===== src/Store/TubeList/Placed.antt =====
-- replay.rs, `TubeList`: every tube is recorded at the place where it stands.
use beanstalkd_rust.Base.{
  ℕ, zero, suc, ◌≡◌, ◌≢◌, ◌⊎◌, inl, inr, refl, sym, ap, ◌∙◌, arith, true, false, some, List, [],
  ◌∷◌, ◌++◌, length, get_elem?, some-inj, Bool-cases, Option-cases,
}
use beanstalkd_rust.Proto.Types.{TubeName}
use beanstalkd_rust.Std.Map
use beanstalkd_rust.Std.Map.{Map, get-insert, get-remove, get-modify}
use beanstalkd_rust.Std.Order.{eqb, bytes_ord, bytes-cmp_eq}
use beanstalkd_rust.Store.TubeList.{TubeList}

-- A tube is recorded at a place exactly if it stands there.
pub record IsPlaced (t : TubeList) : Type 0 where
  pub stands :
      (tube : TubeName) (refs pos : ℕ)
      → Map.get tube t.info ≡ some (refs, pos)
      → get_elem? t.order pos ≡ some tube
  pub recorded :
      (tube : TubeName) (pos : ℕ)
      → get_elem? t.order pos ≡ some tube
      → (refs : ℕ) × (Map.get tube t.info ≡ some (refs, pos))

eqb-same : (a : TubeName) → eqb a a ≡ true
eqb-same a = ground (arith, bytes-cmp_eq a a)

pub eqb-other : (a b : TubeName) → a ≢ b → eqb a b ≡ false
eqb-other a b h = ground (arith, bytes-cmp_eq a b)

pub TubeName-cases : (a b : TubeName) → (a ≡ b) ⊎ (a ≢ b)
TubeName-cases a b = elim (Bool-cases (eqb a b)) [
  | inl t ↦ inl (ground (arith, bytes-cmp_eq a b))
  | inr f ↦ inr (λ e. ground (arith, bytes-cmp_eq a b))
]

pub get_elem?-snoc :
    (xs : List TubeName) (y q : TubeName) (p : ℕ)
    → get_elem? (xs ++ y ∷ []) p ≡ some q
    → (get_elem? xs p ≡ some q) ⊎ ((p ≡ length xs) × (y ≡ q))
get_elem?-snoc [] y q zero h = inr (refl, some-inj h)
get_elem?-snoc [] y q (suc p) h = ground arith
get_elem?-snoc (x ∷ xs) y q zero h = inl h
get_elem?-snoc (x ∷ xs) y q (suc p) h = elim (get_elem?-snoc xs y q p h) [
  | inl at ↦ inl at
  | inr (e, same) ↦ inr (ap suc e, same)
]

pub get_elem?-end :
    (xs : List TubeName) (y : TubeName) → get_elem? (xs ++ y ∷ []) (length xs) ≡ some y
get_elem?-end [] y = refl
get_elem?-end (x ∷ xs) y = get_elem?-end xs y

module _ (k q : TubeName) (m : Map TubeName (ℕ × ℕ)) where
  module _ (f : ℕ × ℕ → ℕ × ℕ) where
    pub get-modify_other : k ≢ q → Map.get q (Map.modify k f m) ≡ Map.get q m
    get-modify_other h = let look = get-modify k q f m in rw (eqb-other k q h) at look

    pub get-modify-some :
        (e : ℕ × ℕ)
        → Map.get q (Map.modify k f m) ≡ some e
        → (d : ℕ × ℕ) × (Map.get q m ≡ some d) × (((k ≡ q) × (f d ≡ e)) ⊎ ((k ≢ q) × (d ≡ e)))
    get-modify-some e h = elim (TubeName-cases k q) [
      | inl same ↦ elim (Option-cases (Map.get q m)) [
        | inl n ↦ let look = get-modify k q f m in ground (arith, bytes-cmp_eq k q)
        | inr (d, at) ↦
            let look = get-modify k q f m in (d, at, inl (same, ground (arith, bytes-cmp_eq k q)))
      ]
      | inr other ↦ (e, sym (get-modify_other other) ∙ h, inr (other, refl))
    ]

  pub get-remove-some :
      (e : ℕ × ℕ) → Map.get q (Map.remove k m) ≡ some e → (k ≢ q) × (Map.get q m ≡ some e)
  get-remove-some e h = elim (TubeName-cases k q) [
    | inl same ↦ let look = get-remove k q m in ground (arith, bytes-cmp_eq k q)
    | inr other ↦ let look = get-remove k q m in (other, sym (rw (eqb-other k q other) at look) ∙ h)
  ]

  pub get-remove_other : k ≢ q → Map.get q (Map.remove k m) ≡ Map.get q m
  get-remove_other h = let look = get-remove k q m in rw (eqb-other k q h) at look

pub get-modify_self :
    (q : TubeName) (m : Map TubeName (ℕ × ℕ)) (f : ℕ × ℕ → ℕ × ℕ) (d : ℕ × ℕ)
    → Map.get q m ≡ some d
    → Map.get q (Map.modify q f m) ≡ some (f d)
get-modify_self q m f d h = let look = get-modify q q f m in let same = eqb-same q in ground arith

-- Counting a tube up or down moves nothing.
pub modify-IsPlaced :
    (t : TubeList) (tube : TubeName) (f : ℕ → ℕ)
    → IsPlaced t
    → IsPlaced (record t { info = Map.modify tube (λ e. (f e.0, e.1)) t.info })
modify-IsPlaced t tube f v = record {
  stands = λ q refs pos h.
      let ((r, p), e, changed) = get-modify-some tube q t.info (λ e. (f e.0, e.1)) (refs, pos) h in
      let at = v.stands q r p e in let place : p ≡ pos = ground arith in rw place at at;
  recorded = λ q pos h.
      let (refs, e) = v.recorded q pos h in
      elim (TubeName-cases tube q) [
        | inl same ↦ (
          f refs,
          ap (λ k. Map.get q (Map.modify k (λ e. (f e.0, e.1)) t.info)) same
              ∙ get-modify_self q t.info (λ e. (f e.0, e.1)) (refs, pos) e,
        )
        | inr other ↦ (refs, get-modify_other tube q t.info (λ e. (f e.0, e.1)) other ∙ e)
      ];
}
