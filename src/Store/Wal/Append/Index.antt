-- ===== src/Store/Wal/Append/Index.antt =====
-- wal.rs: what `append` does to the index of jobs.
use mathlib.Core.Option
use beanstalkd_rust.Base.{
  ℕ, ◌≡◌, arith, Option, none, some, Option-cases, Bool-cases, inl, inr, if◌then◌else◌, ltb,
}
use beanstalkd_rust.Engine.Model.{JobRecord}
use beanstalkd_rust.Proto.Types.{JobId}
use beanstalkd_rust.Std.Map
use beanstalkd_rust.Std.Map.{Map, get-insert, get-remove, get-modify}
use beanstalkd_rust.Std.Order.{eqb, nat_ord, nat-cmp_eq}
use beanstalkd_rust.Store.Format.{Rec}
use beanstalkd_rust.Store.Format.Rounds.{rec_len}
use beanstalkd_rust.Store.Wal.{Inner, JobEntry}
use beanstalkd_rust.Store.Wal.Append.{
  seg_pos, unanchor, take_pending, index_put, index_update, index_delete, updated,
}

-- The entry of a job that was put at a place.
abbrev pub entry_at : JobRecord → ℕ → ℕ → ℕ → JobEntry
entry_at r seg off len = record { job = r; seg = seg; off = off; put_len = len; used = len }

-- What the index says of a job after a record that was written at a place.
abbrev pub indexed : Rec → ℕ → ℕ → Map JobId JobEntry → JobId → Option JobEntry
indexed (Rec.put r tube body) seg off jobs q =
    if eqb r.id q then some (entry_at r seg off (rec_len (Rec.put r tube body))) else Map.get q jobs
indexed (Rec.update r) seg off jobs q =
    if eqb r.id q then Option.map (updated r) (Map.get q jobs) else Map.get q jobs
indexed (Rec.delete i) seg off jobs q = if eqb i q then none else Map.get q jobs

jobs-unanchor : (seg : ℕ) (w : Inner) → (unanchor seg w).jobs ≡ w.jobs
unfolding unanchor
jobs-unanchor seg w = elim (Option-cases (seg_pos seg w.segs)) [
  | inl n ↦ rw (unanchor, n)
  | inr (p, e) ↦ rw (unanchor, e)
]

pub jobs-take_pending : (len : ℕ) (w : Inner) → (take_pending len w).jobs ≡ w.jobs
unfolding take_pending
jobs-take_pending len w = elim (Bool-cases (ltb 0 w.pending_puts)) [
  | inl t ↦ rw (take_pending, t)
  | inr f ↦ rw (take_pending, f)
]

pub get-index_put :
    (r : JobRecord) (seg off len : ℕ) (w : Inner) (q : JobId)
    → Map.get q (index_put r seg off len w).jobs
      ≡ (if eqb r.id q then some (entry_at r seg off len) else Map.get q w.jobs)
unfolding index_put
get-index_put r seg off len w q = elim (Option-cases (Map.get r.id w.jobs)) [
  | inl n ↦ rw (index_put, n) (get-insert r.id q (entry_at r seg off len) w.jobs)
  | inr (old, e) ↦
      rw (index_put, e, jobs-unanchor) (get-insert r.id q (entry_at r seg off len) w.jobs)
]

pub get-index_update :
    (r : JobRecord) (w : Inner) (q : JobId)
    → Map.get q (index_update r w).jobs
      ≡ (if eqb r.id q then Option.map (updated r) (Map.get q w.jobs) else Map.get q w.jobs)
unfolding index_update
get-index_update r w q = elim (Option-cases (Map.get r.id w.jobs)) [
  | inl n ↦ rw (index_update, n) (ground (arith, nat-cmp_eq r.id q))
  | inr (j, e) ↦ rw (index_update, e) (get-modify r.id q (updated r) w.jobs)
]

pub get-index_delete :
    (id : JobId) (w : Inner) (q : JobId)
    → Map.get q (index_delete id w).jobs ≡ (if eqb id q then none else Map.get q w.jobs)
unfolding index_delete
get-index_delete id w q = elim (Option-cases (Map.get id w.jobs)) [
  | inl n ↦ rw (index_delete, n) (ground (arith, nat-cmp_eq id q))
  | inr (j, e) ↦ rw (index_delete, e, jobs-unanchor) (get-remove id q w.jobs)
]
