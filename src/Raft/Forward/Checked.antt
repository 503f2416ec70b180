-- ===== src/Raft/Forward/Checked.antt =====
-- forward.rs: what a checked request may hold.
use beanstalkd_rust.Base.{
  ℕ, zero, suc, ◌≡◌, ◌↔◌, refl, arith, Bool, true, false, none, some, List, [], ◌∷◌, get_elem?,
  Bool-cases, Option-cases, inl, inr, some-inj, subst, ==_iff, ◌==◌,
}
use beanstalkd_rust.Engine.Model.{ConnId}
use beanstalkd_rust.Raft.Forward.{
  NodeId, Item, ForwardRequest, find, foreign, names_another, owner_of, conn_of, check_items,
  check_forward,
}
use beanstalkd_rust.Store.Outcome.{ok}

-- What the first element and all behind it have, every element has.
each-cons :
    {A : Type 0} (P : A → Type 0) (x : A) (xs : List A)
    → P x
    → ((i : ℕ) (y : A) → get_elem? xs i ≡ some y → P y)
    → (i : ℕ) (y : A) → get_elem? (x ∷ xs) i ≡ some y
    → P y
each-cons P x xs h hs zero y e = subst P (some-inj e) h
each-cons P x xs h hs (suc i) y e = hs i y e

-- Nothing is found exactly if no element has the property.
find-none :
    {A : Type 0} (p : A → Bool) (xs : List A)
    → (find p xs ≡ none) ↔ ((i : ℕ) (x : A) → get_elem? xs i ≡ some x → p x ≡ false)
unfolding find
find-none p [] = (λ h i x e. absurd (ground arith), λ h. refl)
find-none p (x ∷ xs) =
    let rest = find-none p xs in
    elim (Bool-cases (p x)) [
      | inl t ↦ (
        λ h. let h' = rw (find, t) at h in absurd (ground arith),
        λ h. let f = h 0 x refl in absurd (ground arith),
      )
      | inr f ↦ (
        λ h. each-cons (λ y. p y ≡ false) x xs f (rest.0 (rw (find, f) at h)),
        λ h. rw (find, f) (rest.1 (λ i y e. h (suc i) y e)),
      )
    ]

foreign-owner_of :
    (peer : NodeId) (item : Item) → (foreign peer item ≡ false) ↔ (owner_of item.0 ≡ peer)
unfolding foreign
foreign-owner_of peer (conn, seq, input) = ground arith

names_another-conn_of :
    (item : Item)
    → (names_another item ≡ false) ↔ ((c : ConnId) → conn_of item.2 ≡ some c → c ≡ item.0)
unfolding names_another
names_another-conn_of (conn, seq, input) = elim (Option-cases (conn_of input)) [
  | inl n ↦ rw (names_another, n) (λ h c e. absurd (ground arith), λ h. refl)
  | inr (d, e) ↦
      rw (names_another, e) (λ h c f. ground arith, λ h. let k = h d refl in ground arith)
]

-- A request is accepted exactly if it comes from the authenticated peer, every connection in it is
-- owned by that peer, and no input in it names another connection than the one it stands for.
pub check_forward-accepted :
    (peer : NodeId) (req : ForwardRequest)
    → (check_forward peer req ≡ ok tt) ↔ (
        (req.from ≡ peer)
        × ((i : ℕ) (item : Item)
            → get_elem? req.items i ≡ some item
            → (owner_of item.0 ≡ peer) × ((c : ConnId) → conn_of item.2 ≡ some c → c ≡ item.0)))
unfolding check_forward check_items
check_forward-accepted peer req =
    let owned = find-none (foreign peer) req.items in
    let named = find-none names_another req.items in
    (
      λ h.
          let same : (req.from == peer) ≡ true = ground arith in
          let none_foreign : find (foreign peer) req.items ≡ none = ground arith in
          let none_named : find names_another req.items ≡ none = ground arith in
          (
            (==_iff req.from peer).0 same,
            λ i item e. (
              (foreign-owner_of peer item).0 (owned.0 none_foreign i item e),
              (names_another-conn_of item).0 (named.0 none_named i item e),
            ),
          ),
      λ h.
          let (from, each) = h in
          let same = (==_iff req.from peer).1 from in
          let none_foreign =
            owned.1 (λ i item e. (foreign-owner_of peer item).1 (each i item e).0) in
          let none_named = named.1 (λ i item e. (names_another-conn_of item).1 (each i item e).1) in
          rw (check_forward, same, check_items, none_foreign, none_named),
    )
