-- ===== src/Store/Replay/Live.antt =====
-- replay.rs, `apply`: the jobs that replay keeps are those that the records of a log leave alive.
use beanstalkd_rust.Base.{
  ℕ, ◌≡◌, refl, sym, ap, ◌∙◌, arith, Option, none, some, List, [], ◌∷◌, Bytes, Option-cases,
  some-inj, inl, inr, if◌then◌else◌,
}
use mathlib.Core.Option
use mathlib.Core.Path.{fun_ext}
use beanstalkd_rust.Engine.Model.{JobRecord}
use beanstalkd_rust.Proto.Types.{JobId, TubeName}
use beanstalkd_rust.Std.Map
use beanstalkd_rust.Std.Map.{Map, get-insert, get-remove, get-modify}
use beanstalkd_rust.Std.Order.{eqb, nat_ord, nat-cmp_eq}
use beanstalkd_rust.Store.Format.{Rec}
use beanstalkd_rust.Store.Replay.{
  ReplayState, ReplayJob, apply, apply_put, apply_update, apply_delete, counted, put_again, updated,
}
use beanstalkd_rust.Store.Replay.Total.{apply-IsPlaced}
use beanstalkd_rust.Store.TubeList.{TubeList, remove_job}
use beanstalkd_rust.Store.TubeList.Placed.{IsPlaced}

-- The jobs alive, each with its record, its tube and its body.
abbrev pub Live : Type 0
Live = JobId → Option (JobRecord × TubeName × Bytes)

-- What a record does to them.
unfoldable pub log_step : Rec → Live → Live
log_step (Rec.put r tube body) live q = if eqb r.id q then some (r, tube, body) else live q
log_step (Rec.update r) live q =
    if eqb r.id q then Option.map (λ e. (r, e.1, e.2)) (live q) else live q
log_step (Rec.delete i) live q = if eqb i q then none else live q

unfoldable pub log_steps : List Rec → Live → Live
unfolding log_step
log_steps [] live = live
log_steps (rec ∷ recs) live = log_steps recs (log_step rec live)

unfoldable pub view : Map JobId ReplayJob → Live
view jobs q = Option.map (λ j. (j.job, j.tube, j.body)) (Map.get q jobs)

-- Records with their segments, offsets and lengths, applied in turn.
unfoldable pub replay : List (Rec × ℕ × ℕ × ℕ) → ReplayState → Option ReplayState
unfolding apply
replay [] st = some st
replay ((rec, seg, off, len) ∷ recs) st = elim (apply rec seg off len st) [
  | none ↦ none
  | some st' ↦ replay recs st'
]

unfoldable pub recs_of : List (Rec × ℕ × ℕ × ℕ) → List Rec
recs_of [] = []
recs_of ((rec, seg, off, len) ∷ recs) = rec ∷ recs_of recs

apply_put-view :
    (r : JobRecord) (tube : TubeName) (body : Bytes) (seg off len : ℕ) (st : ReplayState)
    (q : JobId)
    → view (apply_put r tube body seg off len st).jobs q
      ≡ log_step (Rec.put r tube body) (view st.jobs) q
unfolding apply_put view log_step put_again
apply_put-view r tube body seg off len st q = elim (Option-cases (Map.get r.id st.jobs)) [
  | inl n ↦
      rw (apply_put, n)
        (ground (
          arith,
          get-insert r.id q
              (record {
                job = r;
                tube = tube;
                body = body;
                order = st.seq;
                seg = seg;
                off = off;
                put_len = len;
                used = len;
              })
              st.jobs,
        ))
  | inr (j, e) ↦
      rw (apply_put, e)
        (ground (arith, get-modify r.id q (put_again r tube body seg off len) st.jobs))
]

apply_delete-view :
    (i : JobId) (st : ReplayState) (tubes : TubeList) (q : JobId)
    → view (apply_delete i st tubes).jobs q ≡ log_step (Rec.delete i) (view st.jobs) q
unfolding apply_delete view log_step
apply_delete-view i st tubes q = ground (arith, get-remove i q st.jobs)

delete_missing-view :
    (i : JobId) (st : ReplayState) (q : JobId)
    → Map.get i st.jobs ≡ none
    → view st.jobs q ≡ log_step (Rec.delete i) (view st.jobs) q
unfolding view log_step
delete_missing-view i st q n = ground (arith, nat-cmp_eq i q)

apply_update-view :
    (r : JobRecord) (len : ℕ) (st : ReplayState) (q : JobId)
    → view (apply_update r len st).jobs q ≡ log_step (Rec.update r) (view st.jobs) q
unfolding apply_update updated view log_step
apply_update-view r len st q = ground (arith, get-modify r.id q (updated r len) st.jobs)

-- What `apply` keeps of the jobs is what the record leaves alive of them.
pub apply-view :
    (rec : Rec) (seg off len : ℕ) (st st' : ReplayState) (q : JobId)
    → apply rec seg off len st ≡ some st'
    → view st'.jobs q ≡ log_step rec (view st.jobs) q
unfolding apply
apply-view (Rec.put r tube body) seg off len st st' q h =
    ap (λ s. view s.jobs q) (sym (some-inj h))
    ∙ apply_put-view r tube body seg off len (counted (Rec.put r tube body) st) q
apply-view (Rec.update r) seg off len st st' q h =
    ap (λ s. view s.jobs q) (sym (some-inj h))
    ∙ apply_update-view r len (counted (Rec.update r) st) q
apply-view (Rec.delete i) seg off len st st' q h = elim (Option-cases (Map.get i st.jobs)) [
  | inl n ↦
      ap (λ s. view s.jobs q) (sym (some-inj (rw (apply, n) at h))) ∙ delete_missing-view i st q n
  | inr (j, e) ↦ elim (Option-cases (remove_job j.tube st.tubes)) [
    | inl panic ↦ let h' = rw (apply, e, panic) at h in ground arith
    | inr (tubes, result) ↦
        ap (λ s. view s.jobs q) (sym (some-inj (rw (apply, e, result) at h)))
        ∙ apply_delete-view i (counted (Rec.delete i) st) tubes q
  ]
]

apply-view_eq :
    (rec : Rec) (seg off len : ℕ) (st st' : ReplayState)
    → apply rec seg off len st ≡ some st'
    → view st'.jobs ≡ log_step rec (view st.jobs)
apply-view_eq rec seg off len st st' h = fun_ext (λ q. apply-view rec seg off len st st' q h)

-- From a state in which every tube is recorded at its place, any records are replayed without a
-- panic, and the jobs that replay keeps are those that the records leave alive, with their last
-- job record, tube and body.
pub replay-refines :
    (recs : List (Rec × ℕ × ℕ × ℕ)) (st : ReplayState)
    → IsPlaced st.tubes
    → (st' : ReplayState) × (replay recs st ≡ some st')
      × (view st'.jobs ≡ log_steps (recs_of recs) (view st.jobs))
      × IsPlaced st'.tubes
unfolding replay recs_of log_steps
replay-refines [] st v = (st, refl, refl, v)
replay-refines ((rec, seg, off, len) ∷ recs) st v =
    let (next, applied, placed) = apply-IsPlaced rec seg off len st v in
    let step = apply-view_eq rec seg off len st next applied in
    let (st', result, live, kept) = replay-refines recs next placed in
    (st', rw (replay, applied) result, live ∙ ap (log_steps (recs_of recs)) step, kept)
