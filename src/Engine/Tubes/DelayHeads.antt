-- ===== src/Engine/Tubes/DelayHeads.antt =====
-- engine.rs, `refresh_delay_head`: the index of the first deadlines of the delayed jobs.
use beanstalkd_rust.Base.{
  ℕ, ◌≡◌, refl, ap, arith, sym, ◌∙◌, Bool, true, false, Bool-cases, inl, inr, if◌then◌else◌, Option,
  none, some, Option-cases, ◌==◌, subst, ◌⊎◌, List, first,
}
use mathlib.Core.Option
use beanstalkd_rust.Engine.Model.{TubeId, TubeState, Nanos}
use beanstalkd_rust.Engine.State.{Engine, tube, modify_tube}
use beanstalkd_rust.Engine.Tubes.{same_key, remove_key, insert_key, refresh_delay_head}
use beanstalkd_rust.Engine.Tubes.Pauses.{tube-modify_tube}
use beanstalkd_rust.Std.Order.{nat_ord, pair_ord}
use beanstalkd_rust.Std.Set
use beanstalkd_rust.Std.Set.{contains-insert, contains-remove}

-- Whether the time is `d`.
abbrev pub is_at : Nanos → Option Nanos → Bool
is_at d none = false
is_at d (some k) = k == d

-- The head that a tube has recorded, and the deadline of its first delayed job.
abbrev pub recorded : Option TubeState → Option Nanos
recorded none = none
recorded (some t) = t.delay_head

abbrev pub first_deadline : Option TubeState → Option Nanos
first_deadline none = none
first_deadline (some t) = Option.map (λ (p : Nanos × ℕ). p.0) (first t.delayed)

-- The index holds `d` for tube `q` exactly if the tube has recorded it.
unfoldable pub IsIndexed : Engine → TubeId → Nanos → Type 0
IsIndexed e q d = Set.contains (d, q) e.delay_heads ≡ is_at d (recorded (tube q e))

contains-remove_key :
    (old : Option Nanos) (id q : TubeId) (d : Nanos) (s : List (Nanos × TubeId))
    → Set.contains (d, q) (remove_key old id s) ≡ (
        if id == q
        then (if is_at d old then false else Set.contains (d, q) s)
        else Set.contains (d, q) s)
unfolding remove_key
contains-remove_key none id q d s = ground arith
contains-remove_key (some k) id q d s = ground (arith, contains-remove (k, id) (d, q) s)

contains-insert_key :
    (new : Option Nanos) (id q : TubeId) (d : Nanos) (s : List (Nanos × TubeId))
    → Set.contains (d, q) (insert_key new id s) ≡ (
        if id == q
        then (if is_at d new then true else Set.contains (d, q) s)
        else Set.contains (d, q) s)
unfolding insert_key
contains-insert_key none id q d s = ground arith
contains-insert_key (some k) id q d s = ground (arith, contains-insert (k, id) (d, q) s)

same_key-same : (a b : Option Nanos) → same_key a b ≡ true → a ≡ b
unfolding same_key
same_key-same none none h = refl
same_key-same none (some b) h = ground arith
same_key-same (some a) none h = ground arith
same_key-same (some a) (some b) h = ap some (ground arith)

record_head : Option Nanos → TubeState → TubeState
record_head head t = record t { delay_head = head }

reindexed : TubeId → Option Nanos → Option Nanos → Engine → Engine
unfolding record_head
reindexed id old new e = record (modify_tube id (record_head new) e) {
  delay_heads = insert_key new id (remove_key old id e.delay_heads);
}

tube-reindexed :
    (id q : TubeId) (old new : Option Nanos) (e : Engine)
    → tube q (reindexed id old new e)
      ≡ (if id == q then Option.map (record_head new) (tube q e) else tube q e)
unfolding reindexed tube
tube-reindexed id q old new e = tube-modify_tube id q (record_head new) e

contains-reindexed :
    (id q : TubeId) (d : Nanos) (old new : Option Nanos) (e : Engine)
    → Set.contains (d, q) e.delay_heads
      ≡ (if id == q then is_at d old else Set.contains (d, q) e.delay_heads)
    → Set.contains (d, q) (reindexed id old new e).delay_heads
      ≡ (if id == q then is_at d new else Set.contains (d, q) e.delay_heads)
unfolding reindexed
contains-reindexed id q d old new e h =
    let outer = contains-insert_key new id q d (remove_key old id e.delay_heads) in
    let inner = contains-remove_key old id q d e.delay_heads in ground arith

reindexed-IsIndexed :
    (id q : TubeId) (d : Nanos) (new : Option Nanos) (e : Engine) (t : TubeState)
    → tube id e ≡ some t
    → IsIndexed e q d
    → IsIndexed (reindexed id t.delay_head new e) q d
unfolding IsIndexed record_head
reindexed-IsIndexed id q d new e t h indexed = elim (Bool-cases (id == q)) [
  | inl b ↦
      let same_tube : id ≡ q = ground arith in
      let there : tube q e ≡ some t = ap (λ k. tube k e) (sym same_tube) ∙ h in
      let before : Set.contains (d, q) e.delay_heads
          ≡ (if id == q then is_at d t.delay_head else Set.contains (d, q) e.delay_heads) =
        rw b (indexed ∙ ap (λ o. is_at d (recorded o)) there) in
      rw (
        contains-reindexed id q d t.delay_head new e before,
        tube-reindexed id q t.delay_head new e,
        b,
        there,
      )
  | inr b ↦
      let before : Set.contains (d, q) e.delay_heads
          ≡ (if id == q then is_at d t.delay_head else Set.contains (d, q) e.delay_heads) =
        rw b in
      rw
        (
          contains-reindexed id q d t.delay_head new e before,
          tube-reindexed id q t.delay_head new e,
          b,
        )
        indexed
]

refresh_delay_head-reindexed :
    (id : TubeId) (e : Engine) (t : TubeState)
    → tube id e ≡ some t
    → (refresh_delay_head id e ≡ reindexed id t.delay_head (first_deadline (some t)) e)
      ⊎ ((refresh_delay_head id e ≡ e) × (first_deadline (some t) ≡ t.delay_head))
unfolding refresh_delay_head reindexed record_head
refresh_delay_head-reindexed id e t h =
    elim (Bool-cases (same_key (first_deadline (some t)) t.delay_head)) [
      | inl b ↦
          inr
            (rw (refresh_delay_head, h, b), same_key-same (first_deadline (some t)) t.delay_head b)
      | inr b ↦ inl (rw (refresh_delay_head, h, b))
    ]

refresh_delay_head-none :
    (id : TubeId) (e : Engine) → tube id e ≡ none → refresh_delay_head id e ≡ e
unfolding refresh_delay_head
refresh_delay_head-none id e h = rw (refresh_delay_head, h)

reindexed-recorded :
    (id : TubeId) (old new : Option Nanos) (e : Engine) (t : TubeState)
    → tube id e ≡ some t
    → recorded (tube id (reindexed id old new e)) ≡ new
unfolding record_head
reindexed-recorded id old new e t h =
    let self : (id == id) ≡ true = ground arith in rw (tube-reindexed id id old new e, self, h)

-- If the index of delay heads agrees with what tube `q` has recorded, at a time `d`, then it still
-- does after `refresh_delay_head` of any tube, and the refreshed tube has recorded the deadline of
-- the first of its delayed jobs.
pub refresh_delay_head-IsIndexed :
    (id q : TubeId) (d : Nanos) (e : Engine)
    → IsIndexed e q d
    → IsIndexed (refresh_delay_head id e) q d
      × (recorded (tube id (refresh_delay_head id e)) ≡ first_deadline (tube id e))
refresh_delay_head-IsIndexed id q d e indexed = elim (Option-cases (tube id e)) [
  | inl n ↦
      let left = refresh_delay_head-none id e n in
      (
        subst (λ x. IsIndexed x q d) (sym left) indexed,
        ap (λ x. recorded (tube id x)) left ∙ (ap recorded n ∙ sym (ap first_deadline n)),
      )
  | inr (t, h) ↦ elim (refresh_delay_head-reindexed id e t h) [
    | inl new ↦ (
      subst (λ x. IsIndexed x q d) (sym new)
          (reindexed-IsIndexed id q d (first_deadline (some t)) e t h indexed),
      ap (λ x. recorded (tube id x)) new
          ∙ (reindexed-recorded id t.delay_head (first_deadline (some t)) e t h
              ∙ sym (ap first_deadline h)),
    )
    | inr (left, right) ↦ (
      subst (λ x. IsIndexed x q d) (sym left) indexed,
      ap (λ x. recorded (tube id x)) left
          ∙ (ap recorded h ∙ (sym right ∙ sym (ap first_deadline h))),
    )
  ]
]
