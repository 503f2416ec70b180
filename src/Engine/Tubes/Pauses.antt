-- ===== src/Engine/Tubes/Pauses.antt =====
-- engine.rs, `clear_expired_pauses`: which pauses end, and what happens to the tubes.
use beanstalkd_rust.Base.{
  ◌≡◌, ◌≢◌, refl, ap, arith, sym, ◌∙◌, Bool, true, false, Bool-cases, inl, inr, if◌then◌else◌,
  Option, none, some, ◌==◌, List, [], ◌∷◌, any, ltb, get_elem?, set, get_elem?-set_self,
  get_elem?-set_ne, get_elem?-bound, ◌>>=◌, ◌||◌, subst,
}
use mathlib.Core.Option
use beanstalkd_rust.Engine.Model.{TubeId, Nanos, TubeState}
use beanstalkd_rust.Engine.State.{Engine, tube, modify_tube}
use beanstalkd_rust.Engine.Tubes.{unpause, clear_expired_pauses}

-- The pauses up to the first that ends after `now`, and those from it on.
unfoldable pub due : Nanos → List (Nanos × TubeId) → List (Nanos × TubeId)
due now [] = []
due now ((at, id) ∷ later) = let rest = due now later in if ltb now at then [] else (at, id) ∷ rest

unfoldable pub not_due : Nanos → List (Nanos × TubeId) → List (Nanos × TubeId)
not_due now [] = []
not_due now ((at, id) ∷ later) =
    let rest = not_due now later in if ltb now at then (at, id) ∷ later else rest

-- Whether tube `q` is among the tubes of the pauses.
unfoldable pub names : TubeId → List (Nanos × TubeId) → Bool
names q ps = any (λ p. p.1 == q) ps

abbrev pub unpaused : TubeState → TubeState
unpaused t = record t { pause = 0 }

live : Option (Option TubeState) → Option TubeState
live o = o >>= (λ t. t)

slot_self :
    (ts : List (Option TubeState)) (id : TubeId) (f : TubeState → TubeState)
    (o : Option (Option TubeState))
    → get_elem? ts id ≡ o
    → live (get_elem? (elim o [ some (some t) ↦ set ts id (some (f t)) | _ ↦ ts ]) id)
      ≡ Option.map f (live o)
unfolding live
slot_self ts id f none h = rw h
slot_self ts id f (some none) h = rw h
slot_self ts id f (some (some t)) h =
    rw (get_elem?-set_self ts id (some (f t)) (get_elem?-bound ts id h))

slot_other :
    (ts : List (Option TubeState)) (id q : TubeId) (f : TubeState → TubeState)
    (o : Option (Option TubeState))
    → id ≢ q
    → get_elem? (elim o [ some (some t) ↦ set ts id (some (f t)) | _ ↦ ts ]) q ≡ get_elem? ts q
slot_other ts id q f none ne = refl
slot_other ts id q f (some none) ne = refl
slot_other ts id q f (some (some t)) ne = get_elem?-set_ne ts (some (f t)) ne

pub tube-modify_self :
    (id : TubeId) (f : TubeState → TubeState) (e : Engine)
    → tube id (modify_tube id f e) ≡ Option.map f (tube id e)
unfolding tube modify_tube live
tube-modify_self id f e = slot_self e.tubes id f (get_elem? e.tubes id) refl

pub tube-modify_other :
    (id q : TubeId) (f : TubeState → TubeState) (e : Engine)
    → id ≢ q
    → tube q (modify_tube id f e) ≡ tube q e
unfolding tube modify_tube
tube-modify_other id q f e ne =
    ap (λ o. o >>= (λ t. t)) (slot_other e.tubes id q f (get_elem? e.tubes id) ne)

-- A tube after another is modified.
pub tube-modify_tube :
    (id q : TubeId) (f : TubeState → TubeState) (e : Engine)
    → tube q (modify_tube id f e) ≡ (if id == q then Option.map f (tube q e) else tube q e)
tube-modify_tube id q f e = elim (Bool-cases (id == q)) [
  | inl t ↦
      let same : q ≡ id = ground arith in
      rw t (
        subst (λ k. tube k (modify_tube id f e) ≡ Option.map f (tube k e)) (sym same)
          (tube-modify_self id f e))
  | inr n ↦ let other : id ≢ q = λ i. ground arith in rw n (tube-modify_other id q f e other)
]

unpause-pauses :
    (now : Nanos) (ps : List (Nanos × TubeId)) (e : Engine)
    → (unpause now ps e).pauses ≡ not_due now ps
unfolding unpause not_due
unpause-pauses now [] e = refl
unpause-pauses now ((at, id) ∷ later) e = elim (Bool-cases (ltb now at)) [
  | inl t ↦ rw (unpause, not_due, t)
  | inr f ↦ rw (unpause, not_due, f) (unpause-pauses now later _)
]

-- The tube with its pause ended if it is named.
ended : Bool → Option TubeState → Option TubeState
ended b o = if b then Option.map unpaused o else o

ended_or : (a b : Bool) (o : Option TubeState) → ended b (ended a o) ≡ ended (a || b) o
unfolding ended
ended_or true true none = refl
ended_or true true (some t) = refl
ended_or true false o = refl
ended_or false b o = refl

tube-set_pauses :
    (q : TubeId) (ps : List (Nanos × TubeId)) (e : Engine)
    → tube q (record e { pauses = ps }) ≡ tube q e
unfolding tube
tube-set_pauses q ps e = refl

unpause-tube :
    (now : Nanos) (ps : List (Nanos × TubeId)) (q : TubeId) (e : Engine)
    → tube q (unpause now ps e) ≡ ended (names q (due now ps)) (tube q e)
unfolding unpause due names ended
unpause-tube now [] q e = tube-set_pauses q [] e
unpause-tube now ((at, id) ∷ later) q e = elim (Bool-cases (ltb now at)) [
  | inl t ↦ rw (unpause, due, t) (tube-set_pauses q _ e)
  | inr f ↦
      rw (unpause, due, f)
        (unpause-tube now later q (modify_tube id unpaused e)
          ∙ (ap (ended (names q (due now later))) (tube-modify_tube id q unpaused e)
              ∙ ended_or (id == q) (names q (due now later)) (tube q e)))
]

-- `clear_expired_pauses` takes the pauses up to the first that ends after `now` out of the list,
-- and a tube has its pause set to 0 if one of those taken out names it, and is as before otherwise.
pub clear_expired_pauses-tubes :
    (now : Nanos) (e : Engine) (q : TubeId)
    → ((clear_expired_pauses now e).pauses ≡ not_due now e.pauses)
      × (tube q (clear_expired_pauses now e)
          ≡ (if names q (due now e.pauses) then Option.map unpaused (tube q e) else tube q e))
unfolding clear_expired_pauses ended
clear_expired_pauses-tubes now e q = (unpause-pauses now e.pauses e, unpause-tube now e.pauses q e)
