-- ===== src/Engine/Tubes/Dispatchable.antt =====
-- engine.rs, `refresh_dispatchable`: the index of the tubes that `process_queue` looks at.
use beanstalkd_rust.Base.{
  ◌<◌, ◌↔◌, refl, not, List, [], ◌∷◌, length, is_empty, some-inj, and-true, ◌≡◌, ap, arith, sym,
  ◌∙◌, Bool, true, false, Bool-cases, inl, inr, if◌then◌else◌, Option, none, some, Option-cases,
  ◌==◌, subst, ◌⊎◌,
}
use mathlib.Core.Option
use beanstalkd_rust.Engine.Model.{TubeId, TubeState}
use beanstalkd_rust.Engine.State.{Engine, tube, modify_tube}
use beanstalkd_rust.Engine.Tubes.{wants_dispatch, same, refresh_dispatchable}
use beanstalkd_rust.Engine.Tubes.Pauses.{tube-modify_tube}
use beanstalkd_rust.Std.Order.{nat_ord}
use beanstalkd_rust.Std.Set
use beanstalkd_rust.Std.Set.{contains-insert, contains-remove}

-- Whether a tube is marked as dispatchable.
abbrev pub mark : Option TubeState → Bool
mark none = false
mark (some t) = t.dispatchable

-- There is such a tube, and it has a waiting connection and a ready job.
abbrev pub IsServed : Option TubeState → Type 0
IsServed o =
    (t : TubeState) × (o ≡ some t) × (0 < length t.waiting_conns.items) × (0 < length t.ready)

-- The index lists tube `q` exactly if the tube is marked.
unfoldable pub IsListed : Engine → TubeId → Type 0
IsListed e q = Set.contains q e.dispatchable ≡ mark (tube q e)

mark-unchanged : (want have : Bool) → same want have ≡ true → have ≡ want
unfolding same
mark-unchanged want have h = ground arith

set_mark : Bool → TubeState → TubeState
set_mark b t = record t { dispatchable = b }

remarked : TubeId → Bool → Engine → Engine
unfolding set_mark
remarked id want e = record (modify_tube id (set_mark want) e) {
  dispatchable = if want then Set.insert id e.dispatchable else Set.remove id e.dispatchable;
}

tube-remarked :
    (id q : TubeId) (want : Bool) (e : Engine)
    → tube q (remarked id want e)
      ≡ (if id == q then Option.map (set_mark want) (tube q e) else tube q e)
unfolding remarked tube
tube-remarked id q want e = tube-modify_tube id q (set_mark want) e

contains-remarked :
    (id q : TubeId) (want : Bool) (e : Engine)
    → Set.contains q (remarked id want e).dispatchable
      ≡ (if id == q then want else Set.contains q e.dispatchable)
unfolding remarked
contains-remarked id q true e = contains-insert id q e.dispatchable
contains-remarked id q false e = contains-remove id q e.dispatchable

remarked-IsListed :
    (id q : TubeId) (want : Bool) (e : Engine) (t : TubeState)
    → tube id e ≡ some t
    → IsListed e q
    → IsListed (remarked id want e) q
unfolding IsListed set_mark
remarked-IsListed id q want e t h listed = elim (Bool-cases (id == q)) [
  | inl b ↦
      let same_tube : id ≡ q = ground arith in
      let there : tube q e ≡ some t = ap (λ k. tube k e) (sym same_tube) ∙ h in
      rw (contains-remarked id q want e, tube-remarked id q want e, b, there)
  | inr b ↦ rw (contains-remarked id q want e, tube-remarked id q want e, b) listed
]

-- The engine after the mark of tube `id` is brought up to date.
refresh_dispatchable-remarked :
    (id : TubeId) (e : Engine) (t : TubeState)
    → tube id e ≡ some t
    → (refresh_dispatchable id e ≡ remarked id (wants_dispatch t) e)
      ⊎ ((refresh_dispatchable id e ≡ e) × (t.dispatchable ≡ wants_dispatch t))
unfolding refresh_dispatchable remarked set_mark
refresh_dispatchable-remarked id e t h =
    elim (Bool-cases (same (wants_dispatch t) t.dispatchable)) [
      | inl b ↦
          inr (rw (refresh_dispatchable, h, b), mark-unchanged (wants_dispatch t) t.dispatchable b)
      | inr b ↦ inl (rw (refresh_dispatchable, h, b))
    ]

refresh_dispatchable-none :
    (id : TubeId) (e : Engine) → tube id e ≡ none → refresh_dispatchable id e ≡ e
unfolding refresh_dispatchable
refresh_dispatchable-none id e h = rw (refresh_dispatchable, h)

remarked-mark :
    (id : TubeId) (want : Bool) (e : Engine) (t : TubeState)
    → tube id e ≡ some t
    → mark (tube id (remarked id want e)) ≡ want
unfolding set_mark
remarked-mark id want e t h =
    let self : (id == id) ≡ true = ground arith in rw (tube-remarked id id want e, self, h)

not-is_empty : {A : Type 0} (xs : List A) → (not (is_empty xs) ≡ true) ↔ (0 < length xs)
not-is_empty [] = (λ h. absurd (ground arith), λ h. absurd (omega arith))
not-is_empty (x ∷ xs) = (λ h. omega arith, λ h. refl)

wants_dispatch-both :
    (t : TubeState)
    → (wants_dispatch t ≡ true) ↔ ((0 < length t.waiting_conns.items) × (0 < length t.ready))
wants_dispatch-both t =
    let waiting = not-is_empty t.waiting_conns.items in
    let ready = not-is_empty t.ready in
    let both = and-true (not (is_empty t.waiting_conns.items)) (not (is_empty t.ready)) in
    (
      λ h. let (w, r) = both.0 h in (waiting.0 w, ready.0 r),
      λ h. both.1 (waiting.1 h.0, ready.1 h.1),
    )

refresh_dispatchable-mark :
    (id : TubeId) (e : Engine) (t : TubeState)
    → tube id e ≡ some t
    → mark (tube id (refresh_dispatchable id e)) ≡ wants_dispatch t
refresh_dispatchable-mark id e t h = elim (refresh_dispatchable-remarked id e t h) [
  | inl new ↦ ap (λ x. mark (tube id x)) new ∙ remarked-mark id (wants_dispatch t) e t h
  | inr (left, right) ↦ ap (λ x. mark (tube id x)) left ∙ (ap mark h ∙ right)
]

refresh_dispatchable-keeps :
    (id q : TubeId) (e : Engine) → IsListed e q → IsListed (refresh_dispatchable id e) q
refresh_dispatchable-keeps id q e listed = elim (Option-cases (tube id e)) [
  | inl n ↦ subst (λ x. IsListed x q) (sym (refresh_dispatchable-none id e n)) listed
  | inr (t, h) ↦ elim (refresh_dispatchable-remarked id e t h) [
    | inl new ↦
        subst (λ x. IsListed x q) (sym new) (remarked-IsListed id q (wants_dispatch t) e t h listed)
    | inr (left, right) ↦ subst (λ x. IsListed x q) (sym left) listed
  ]
]

refresh_dispatchable-IsServed :
    (id : TubeId) (e : Engine)
    → (mark (tube id (refresh_dispatchable id e)) ≡ true) ↔ IsServed (tube id e)
refresh_dispatchable-IsServed id e = elim (Option-cases (tube id e)) [
  | inl n ↦
      let gone = ap (λ x. mark (tube id x)) (refresh_dispatchable-none id e n) ∙ ap mark n in
      (λ h. absurd (ground arith), λ s. let (t, there, both, more) = s in absurd (ground arith))
  | inr (t, h) ↦
      let marked = refresh_dispatchable-mark id e t h in
      let both = wants_dispatch-both t in
      (
        λ k. let (w, r) = both.0 (sym marked ∙ k) in (t, h, w, r),
        λ s.
            let (u, there, w, r) = s in
            let same_tube : u ≡ t = some-inj (sym there ∙ h) in
            marked
            ∙ both.1 (
                subst (λ u. (0 < length u.waiting_conns.items) × (0 < length u.ready)) same_tube
                  (w, r)),
      )
]

-- If the index of dispatchable tubes agrees with the mark of tube `q`, then it still does after
-- `refresh_dispatchable` of any tube, and the refreshed tube is marked exactly if it is there and
-- has both a waiting connection and a ready job.
pub refresh_dispatchable-IsListed :
    (id q : TubeId) (e : Engine)
    → IsListed e q
    → IsListed (refresh_dispatchable id e) q
      × ((mark (tube id (refresh_dispatchable id e)) ≡ true) ↔ IsServed (tube id e))
refresh_dispatchable-IsListed id q e listed =
    (refresh_dispatchable-keeps id q e listed, refresh_dispatchable-IsServed id e)
