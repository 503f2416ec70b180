-- ===== src/Engine/Queue/Priority.antt =====
-- engine.rs, `process_queue`: which job the search over the dispatchable tubes picks.
use beanstalkd_rust.Base.{
  ℕ, zero, suc, ◌≡◌, ◌≢◌, refl, ap, arith, sym, ◌∙◌, Bool, true, false, Bool-cases, inl, inr, ◌⊎◌,
  if◌then◌else◌, Option, none, some, Option-cases, List, [], ◌∷◌, get_elem?, first, ltb, some-inj,
  true-ne_false,
}
use Prim.Native.Nat.{Ordering}
use beanstalkd_rust.Engine.Model.{TubeId, TubeState}
use beanstalkd_rust.Engine.State.{Engine, tube}
use beanstalkd_rust.Engine.Queue.{Best, beats, consider, find_best}
use beanstalkd_rust.Proto.Types.{JobId}
use beanstalkd_rust.Std.Order.{nat_ord, pair_ord, pair_cmp}

-- What a tube has to give: the first of its ready jobs, unless it is paused.
abbrev pub slot_offer : Option TubeState → Option (ℕ × JobId)
slot_offer none = none
slot_offer (some t) = if ltb 0 t.pause then none else first t.ready

abbrev pub offer : Engine → TubeId → Option (ℕ × JobId)
offer e tid = slot_offer (tube tid e)

-- The job is not after `key`, by priority and then by id.
abbrev pub not_after : Best → ℕ × JobId → Bool
not_after none key = false
not_after (some (pri, id, tid)) key = elim (pair_cmp (pri, id) key) [
  | Ordering.gt ↦ false
  | _ ↦ true
]

consider-keeps :
    (tid : TubeId) (t : Option TubeState) (best : Best) (key : ℕ × JobId)
    → not_after best key ≡ true
    → not_after (consider tid t best) key ≡ true
unfolding consider beats
consider-keeps tid none best key h = h
consider-keeps tid (some t) none key h = ground arith
consider-keeps tid (some t) (some (p, i, b)) (kp, ki) h = ground arith

consider-takes :
    (tid : TubeId) (t : Option TubeState) (best : Best) (key : ℕ × JobId)
    → slot_offer t ≡ some key
    → not_after (consider tid t best) key ≡ true
unfolding consider beats
consider-takes tid none best key h = ground arith
consider-takes tid (some t) none (kp, ki) h = ground arith
consider-takes tid (some t) (some (p, i, b)) (kp, ki) h = ground arith

-- What the search holds is what it held or what the tube offers.
consider-source :
    (tid : TubeId) (t : Option TubeState) (best : Best)
    → (consider tid t best ≡ best)
      ⊎ ((key : ℕ × JobId) × (slot_offer t ≡ some key)
          × (consider tid t best ≡ some (key.0, key.1, tid)))
unfolding consider beats
consider-source tid none best = inl refl
consider-source tid (some t) best = elim (Bool-cases (ltb 0 t.pause)) [
  | inl p ↦ inl (rw p)
  | inr f ↦ elim (Option-cases (first t.ready)) [
    | inl n ↦ inl (rw (f, n))
    | inr (key, h) ↦ elim (Bool-cases (beats (key.0, key.1) best)) [
      | inl b ↦ inr (key, rw (f, h), rw (f, h, b))
      | inr b ↦ inl (rw (f, h, b))
    ]
  ]
]

find_best-keeps :
    (e : Engine) (tids : List TubeId) (best : Best) (key : ℕ × JobId)
    → not_after best key ≡ true
    → not_after (find_best e tids best) key ≡ true
unfolding find_best
find_best-keeps e [] best key h = h
find_best-keeps e (tid ∷ tids) best key h =
    find_best-keeps e tids (consider tid (tube tid e) best) key
      (consider-keeps tid (tube tid e) best key h)

find_best-least_from :
    (e : Engine) (tids : List TubeId) (best : Best) (n : ℕ) (tid : TubeId) (key : ℕ × JobId)
    → get_elem? tids n ≡ some tid
    → offer e tid ≡ some key
    → not_after (find_best e tids best) key ≡ true
unfolding find_best
find_best-least_from e [] best n tid key at h = ground arith
find_best-least_from e (x ∷ tids) best zero tid key at h =
    find_best-keeps e tids (consider x (tube x e) best) key
      (consider-takes x (tube x e) best key (ap (offer e) (some-inj at) ∙ h))
find_best-least_from e (x ∷ tids) best (suc n) tid key at h =
    find_best-least_from e tids (consider x (tube x e) best) n tid key at h

-- Where the result of the search comes from.
Sourced : Engine → List TubeId → Best → ℕ × JobId × TubeId → Type 0
Sourced e tids best (pri, id, tid) =
    (best ≡ some (pri, id, tid))
    ⊎ ((n : ℕ) × (get_elem? tids n ≡ some tid) × (offer e tid ≡ some (pri, id)))

find_best-source :
    (e : Engine) (tids : List TubeId) (best : Best) (pri : ℕ) (id : JobId) (tid : TubeId)
    → find_best e tids best ≡ some (pri, id, tid)
    → Sourced e tids best (pri, id, tid)
unfolding find_best Sourced
find_best-source e [] best pri id tid h = inl h
find_best-source e (x ∷ tids) best pri id tid h =
    elim (find_best-source e tids (consider x (tube x e) best) pri id tid h) [
      | inl held ↦ elim (consider-source x (tube x e) best) [
        | inl same ↦ inl (sym same ∙ held)
        | inr (key, offered, taken) ↦
            let k = some-inj (sym taken ∙ held) in
            inr (
              0,
              ap some (ap (λ b. b.2) k),
              sym (ap (offer e) (ap (λ b. b.2) k)) ∙ (offered ∙ ap (λ b. some (b.0, b.1)) k),
            )
      ]
      | inr (n, at, offered) ↦ inr (suc n, at, offered)
    ]

-- A job that some tube offers, `pri` and `id` with the tube's place `n` in the list.
pub record Picked (e : Engine) (tids : List TubeId) (key : ℕ × JobId) : Type 0 where
  pub pri : ℕ
  pub id : JobId
  pub tid : TubeId
  pub place : ℕ
  pub result : find_best e tids none ≡ some (pri, id, tid)
  pub listed : get_elem? tids place ≡ some tid
  pub offered : offer e tid ≡ some (pri, id)
  pub before : pair_cmp (pri, id) key ≢ Ordering.gt

not_after-first :
    (pri : ℕ) (id : JobId) (tid : TubeId) (key : ℕ × JobId)
    → not_after (some (pri, id, tid)) key ≡ true
    → pair_cmp (pri, id) key ≢ Ordering.gt
not_after-first pri id tid key h e =
    true-ne_false (sym h ∙ ap (λ o. elim o [ Ordering.gt ↦ false | _ ↦ true ]) e)

-- If a listed tube that is not paused has a ready job, then the search finds a job, the job is the
-- first ready job of a listed tube that is not paused, and it does not come after the given one by
-- priority and then by id.
pub find_best-Picked :
    (e : Engine) (tids : List TubeId) (n : ℕ) (tid : TubeId) (key : ℕ × JobId)
    → get_elem? tids n ≡ some tid
    → offer e tid ≡ some key
    → Picked e tids key
unfolding Sourced
find_best-Picked e tids n tid key at h =
    let least = find_best-least_from e tids none n tid key at h in
    elim (Option-cases (find_best e tids none)) [
      | inl nothing ↦ absurd (true-ne_false (sym least ∙ ap (λ b. not_after b key) nothing))
      | inr ((pri, id, t), found) ↦ elim (find_best-source e tids none pri id t found) [
        | inl held ↦ ground arith
        | inr (place, listed, offered) ↦ record {
          pri = pri;
          id = id;
          tid = t;
          place = place;
          result = found;
          listed = listed;
          offered = offered;
          before = not_after-first pri id t key (sym (ap (λ b. not_after b key) found) ∙ least);
        }
      ]
    ]
