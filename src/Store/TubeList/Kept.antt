-- ===== src/Store/TubeList/Kept.antt =====
-- replay.rs, `add_job` and `remove_job`: neither panics, and both keep the places.
use beanstalkd_rust.Base.{
  ℕ, ◌≡◌, ◌≢◌, inl, inr, refl, sym, ap, ◌∙◌, arith, none, some, List, [], ◌∷◌, ◌++◌, length,
  get_elem?, get_elem?-append, get_elem?-bound, get_elem?-set_self, get_elem?-set_ne, set, ltb,
  some-inj, Bool-cases, Option-cases, ◌==◌, incr64, subst,
}
use beanstalkd_rust.Engine.Ms.{swap_remove}
use beanstalkd_rust.Engine.Ms.Contents.{swap_remove-cases}
use beanstalkd_rust.Proto.Types.{TubeName, default_tube}
use beanstalkd_rust.Std.Map
use beanstalkd_rust.Std.Map.{Map, get-insert}
use beanstalkd_rust.Std.Order.{eqb, bytes_ord, bytes-cmp_eq}
use beanstalkd_rust.Store.TubeList.{TubeList, add_job, remove_job, moved_to, decr64}
use beanstalkd_rust.Store.TubeList.Placed.{
  IsPlaced, modify-IsPlaced, TubeName-cases, get_elem?-snoc, get_elem?-end, get-modify-some,
  get-modify_self, get-modify_other, get-remove-some, get-remove_other,
}

insert-IsPlaced :
    (t : TubeList) (tube : TubeName)
    → Map.get tube t.info ≡ none
    → IsPlaced t
    → IsPlaced
        (record { order = t.order ++ tube ∷ []; info = Map.insert tube (1, length t.order) t.info })
insert-IsPlaced t tube new v = record {
  stands = λ q refs pos h.
      let look = get-insert tube q (1, length t.order) t.info in
      elim (TubeName-cases tube q) [
        | inl same ↦
            let place : length t.order ≡ pos = ground (arith, bytes-cmp_eq tube q) in
            rw (← place, ← same) (get_elem?-end t.order tube)
        | inr other ↦
            let before : Map.get q t.info ≡ some (refs, pos) =
              ground (arith, bytes-cmp_eq tube q) in
            get_elem?-append t.order (tube ∷ []) pos (v.stands q refs pos before)
      ];
  recorded = λ q pos h.
      let look = get-insert tube q (1, length t.order) t.info in
      elim (get_elem?-snoc t.order tube q pos h) [
        | inl at ↦
            let (refs, e) = v.recorded q pos at in (refs, ground (arith, bytes-cmp_eq tube q))
        | inr (place, same) ↦ (1, ground (arith, bytes-cmp_eq tube q))
      ];
}

pub add_job-IsPlaced : (t : TubeList) (tube : TubeName) → IsPlaced t → IsPlaced (add_job tube t)
unfolding add_job
add_job-IsPlaced t tube v = elim (Bool-cases (eqb tube default_tube)) [
  | inl d ↦ rw (add_job, d) v
  | inr d ↦ elim (Option-cases (Map.get tube t.info)) [
    | inl n ↦ rw (add_job, d, n) (insert-IsPlaced t tube n v)
    | inr ((refs, pos), e) ↦ rw (add_job, d, e) (modify-IsPlaced t tube incr64 v)
  ]
]

-- The tube that stands last is taken out.
last-IsPlaced :
    (init : List TubeName) (tube : TubeName) (refs : ℕ) (info : Map TubeName (ℕ × ℕ))
    → IsPlaced (record { order = init ++ tube ∷ []; info = info })
    → Map.get tube info ≡ some (refs, length init)
    → IsPlaced (record { order = init; info = Map.remove tube info })
last-IsPlaced init tube refs info v e = record {
  stands = λ q r pos h.
      let (other, before) = get-remove-some tube q info (r, pos) h in
      elim (get_elem?-snoc init tube q pos (v.stands q r pos before)) [
        | inl at ↦ at
        | inr (place, same) ↦ absurd (other same)
      ];
  recorded = λ q pos at.
      let (r, before) = v.recorded q pos (get_elem?-append init (tube ∷ []) pos at) in
      let inside = get_elem?-bound init pos at in
      let other : tube ≢ q = λ same.
        let both = sym (subst (λ k. Map.get k info ≡ some (refs, length init)) same e) ∙ before in
        let place : length init ≡ pos = ground arith in omega arith in
      (r, get-remove_other tube q info other ∙ before);
}

-- The last tube takes the place of the one that is taken out.
module _ (init : List TubeName) (y tube : TubeName) (i refs : ℕ) (info : Map TubeName (ℕ × ℕ))
    (v : IsPlaced (record { order = init ++ y ∷ []; info = info }))
    (at : get_elem? init i ≡ some tube) where
  place_of :
      (q : TubeName) (p : ℕ) (r k : ℕ)
      → get_elem? (init ++ y ∷ []) p ≡ some q
      → Map.get q info ≡ some (r, k)
      → p ≡ k
  place_of q p r k h e = let (r', e') = v.recorded q p h in let both = sym e' ∙ e in ground arith

  last_other : tube ≢ y
  last_other same =
      let inside = get_elem?-bound init i at in
      let (r, e) = v.recorded y (length init) (get_elem?-end init y) in
      let here =
        place_of y i r (length init) (get_elem?-append init (y ∷ []) i (at ∙ ap some same)) e in
      omega arith

  swapped_stands :
      (q : TubeName) (r pos : ℕ)
      → Map.get q (Map.modify y (λ e. (e.0, i)) (Map.remove tube info)) ≡ some (r, pos)
      → get_elem? (set init i y) pos ≡ some q
  swapped_stands q r pos h =
      let inside = get_elem?-bound init i at in
      let ((r', p), e, changed) =
        get-modify-some y q (Map.remove tube info) (λ e. (e.0, i)) (r, pos) h in
      let (other, before) = get-remove-some tube q info (r', p) e in
      elim changed [
        | inl (same, e') ↦
            let place : i ≡ pos = ground arith in
            rw (← place, ← same) (get_elem?-set_self init i y inside)
        | inr (ne, e') ↦
            let place : p ≡ pos = ground arith in
            let stood = v.stands q r' p before in
            elim (get_elem?-snoc init y q p stood) [
              | inl kept ↦
                  let apart : i ≢ p =
                    λ same. other (some-inj (sym at ∙ ap (get_elem? init) same ∙ kept)) in
                  rw (← place) (get_elem?-set_ne init y apart ∙ kept)
              | inr (end, same) ↦ absurd (ne same)
            ]
      ]

  swapped_recorded :
      (q : TubeName) (pos : ℕ)
      → get_elem? (set init i y) pos ≡ some q
      → (r : ℕ) × (Map.get q (Map.modify y (λ e. (e.0, i)) (Map.remove tube info)) ≡ some (r, pos))
  swapped_recorded q pos h = elim (Bool-cases (i == pos)) [
    | inl t ↦
        let inside = get_elem?-bound init i at in
        let same : i ≡ pos = ground arith in
        let moved : y ≡ q =
          some-inj
            (sym (get_elem?-set_self init i y inside) ∙ ap (get_elem? (set init i y)) same ∙ h) in
        let (r, e) = v.recorded y (length init) (get_elem?-end init y) in
        let kept = get-remove_other tube y info last_other ∙ e in
        let done = get-modify_self y (Map.remove tube info) (λ e. (e.0, i)) (r, length init) kept in
        (r, rw (← moved, ← same) done)
    | inr f ↦
        let apart : i ≢ pos = λ same. ground arith in
        let kept = sym (get_elem?-set_ne init y apart) ∙ h in
        let inside = get_elem?-bound init pos kept in
        let whole = get_elem?-append init (y ∷ []) pos kept in
        let (r, e) = v.recorded q pos whole in
        let (r', e') = v.recorded tube i (get_elem?-append init (y ∷ []) i at) in
        let other : tube ≢ q = λ same.
          apart (place_of q i r pos (get_elem?-append init (y ∷ []) i (at ∙ ap some same)) e) in
        let unmoved : y ≢ q = λ same.
          let end = place_of q (length init) r pos (get_elem?-end init y ∙ ap some same) e in
          omega arith in
        (
          r,
          get-modify_other y q (Map.remove tube info) (λ e. (e.0, i)) unmoved
              ∙ get-remove_other tube q info other
              ∙ e,
        )
  ]

  swapped-IsPlaced :
      IsPlaced (record {
        order = set init i y;
        info = Map.modify y (λ e. (e.0, i)) (Map.remove tube info);
      })
  swapped-IsPlaced = record { stands = swapped_stands; recorded = swapped_recorded }

get_elem?-past : (xs : List TubeName) → get_elem? xs (length xs) ≡ none
get_elem?-past [] = refl
get_elem?-past (x ∷ xs) = get_elem?-past xs

taken_out :
    (t : TubeList) (tube : TubeName) (refs pos : ℕ)
    → IsPlaced t
    → Map.get tube t.info ≡ some (refs, pos)
    → (gone : TubeName) × (order : List TubeName) × (swap_remove pos t.order ≡ some (gone, order))
      × IsPlaced (record { order = order; info = moved_to pos order (Map.remove tube t.info) })
unfolding moved_to
taken_out t tube refs pos v e =
    let stood = v.stands tube refs pos e in
    let (init, y, split, how) = swap_remove-cases pos t.order (get_elem?-bound t.order pos stood) in
    let v' : IsPlaced (record { order = init ++ y ∷ []; info = t.info }) =
      subst (λ o. IsPlaced (record { order = o; info = t.info })) split v in
    let stood' = sym (ap (λ o. get_elem? o pos) split) ∙ stood in
    elim how [
      | inl (end, result) ↦
          let same : y ≡ tube =
            some-inj
              (sym (get_elem?-end init y) ∙ ap (get_elem? (init ++ y ∷ [])) (sym end) ∙ stood') in
          let v'' : IsPlaced (record { order = init ++ tube ∷ []; info = t.info }) =
            subst (λ x. IsPlaced (record { order = init ++ x ∷ []; info = t.info })) same v' in
          let e'' = subst (λ p. Map.get tube t.info ≡ some (refs, p)) end e in
          let past = ap (get_elem? init) end ∙ get_elem?-past init in
          (y, init, result, rw (moved_to, past) (last-IsPlaced init tube refs t.info v'' e''))
      | inr (x, at, result) ↦
          let same : x ≡ tube = some-inj (sym (get_elem?-append init (y ∷ []) pos at) ∙ stood') in
          let at' = at ∙ ap some same in
          let place = get_elem?-set_self init pos y (get_elem?-bound init pos at) in
          (
            x,
            set init pos y,
            result,
            rw (moved_to, place) (swapped-IsPlaced init y tube pos refs t.info v' at'),
          )
    ]

-- From a list in which every tube is recorded at the place where it stands, `remove_job` does not
-- panic, and leaves such a list.
pub remove_job-IsPlaced :
    (t : TubeList) (tube : TubeName)
    → IsPlaced t
    → (left : TubeList) × (remove_job tube t ≡ some left) × IsPlaced left
unfolding remove_job
remove_job-IsPlaced t tube v = elim (Option-cases (Map.get tube t.info)) [
  | inl n ↦ (t, rw (remove_job, n), v)
  | inr ((refs, pos), e) ↦ elim (Bool-cases (ltb 0 (decr64 refs))) [
    | inl more ↦ (_, rw (remove_job, e, more), modify-IsPlaced t tube decr64 v)
    | inr last ↦
        let (gone, order, result, placed) = taken_out t tube refs pos v e in
        (_, rw (remove_job, e, last, result), placed)
  ]
]
