-- ===== src/Store/Replay/Total.antt =====
-- replay.rs, `apply`: no record makes it panic.
use beanstalkd_rust.Base.{◌≡◌, refl, some, ℕ, Option-cases, inl, inr, Bytes}
use beanstalkd_rust.Engine.Model.{JobRecord}
use beanstalkd_rust.Proto.Types.{TubeName}
use beanstalkd_rust.Std.Map
use beanstalkd_rust.Std.Order.{nat_ord}
use beanstalkd_rust.Store.Format.{Rec}
use beanstalkd_rust.Store.Replay.{ReplayState, apply, apply_put, apply_delete, counted}
use beanstalkd_rust.Store.TubeList.Placed.{IsPlaced}
use beanstalkd_rust.Store.TubeList.Kept.{add_job-IsPlaced, remove_job-IsPlaced}

apply_put-IsPlaced :
    (r : JobRecord) (tube : TubeName) (body : Bytes) (seg off len : ℕ) (st : ReplayState)
    → IsPlaced st.tubes
    → IsPlaced (apply_put r tube body seg off len st).tubes
unfolding apply_put
apply_put-IsPlaced r tube body seg off len st v = elim (Option-cases (Map.get r.id st.jobs)) [
  | inl n ↦ rw (apply_put, n) (add_job-IsPlaced st.tubes tube v)
  | inr (j, e) ↦ rw (apply_put, e) v
]

-- Where every tube is recorded at its place, a record is applied without a panic, and every tube is
-- recorded at its place afterwards.
pub apply-IsPlaced :
    (rec : Rec) (seg off len : ℕ) (st : ReplayState)
    → IsPlaced st.tubes
    → (st' : ReplayState) × (apply rec seg off len st ≡ some st') × IsPlaced st'.tubes
unfolding apply
apply-IsPlaced (Rec.put r tube body) seg off len st v =
    (_, refl, apply_put-IsPlaced r tube body seg off len (counted (Rec.put r tube body) st) v)
apply-IsPlaced (Rec.update r) seg off len st v = (_, refl, v)
apply-IsPlaced (Rec.delete i) seg off len st v = elim (Option-cases (Map.get i st.jobs)) [
  | inl n ↦ (counted (Rec.delete i) st, rw (apply, n), v)
  | inr (j, e) ↦
      let (left, result, placed) = remove_job-IsPlaced st.tubes j.tube v in
      (apply_delete i (counted (Rec.delete i) st) left, rw (apply, e, result), placed)
]
