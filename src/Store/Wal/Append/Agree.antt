-- ===== src/Store/Wal/Append/Agree.antt =====
-- wal.rs and replay.rs: the index that `append` keeps, and the jobs that replay finds.
use mathlib.Core.Option
use beanstalkd_rust.Base.{ℕ, ◌≡◌, ap, ◌∙◌, arith, some, Bytes, Option-cases, inl, inr, some-inj}
use beanstalkd_rust.Engine.Model.{JobRecord}
use beanstalkd_rust.Proto.Types.{JobId, TubeName}
use beanstalkd_rust.Std.Map
use beanstalkd_rust.Std.Map.{Map, get-insert, get-remove, get-modify}
use beanstalkd_rust.Std.Order.{nat_ord, nat-cmp_eq}
use beanstalkd_rust.Store.Format.{Rec, update_rec_len}
use beanstalkd_rust.Store.Format.Rounds.{rec_len}
use beanstalkd_rust.Store.Replay
use beanstalkd_rust.Store.Replay.{
  ReplayState, ReplayJob, apply, apply_put, apply_update, apply_delete, counted, put_again,
}
use beanstalkd_rust.Store.TubeList.{TubeList, remove_job}
use beanstalkd_rust.Store.Wal.{JobEntry}
use beanstalkd_rust.Store.Wal.Append
use beanstalkd_rust.Store.Wal.Append.Index.{indexed}
use beanstalkd_rust.Store.Wal.Open.{entry_of}

-- The index has the entries that `open` makes of the jobs replayed.
abbrev pub Agrees : Map JobId JobEntry → Map JobId ReplayJob → Type 0
Agrees jobs replayed = (q : JobId) → Map.get q jobs ≡ Option.map entry_of (Map.get q replayed)

module _ (jobs : Map JobId JobEntry) (seg off : ℕ) where
  put-Agrees :
      (r : JobRecord) (tube : TubeName) (body : Bytes) (st : ReplayState) (q : JobId)
      → Agrees jobs st.jobs
      → indexed (Rec.put r tube body) seg off jobs q
        ≡ Option.map entry_of
            (Map.get q (apply_put r tube body seg off (rec_len (Rec.put r tube body)) st).jobs)
  unfolding apply_put put_again entry_of
  put-Agrees r tube body st q h =
      let len = rec_len (Rec.put r tube body) in
      let before = h q in
      elim (Option-cases (Map.get r.id st.jobs)) [
        | inl n ↦
            rw (apply_put, n)
              (ground (
                arith,
                get-insert r.id q
                    (record {
                      job = r;
                      tube = tube;
                      body = body;
                      order = st.seq;
                      seg = seg;
                      off = off;
                      put_len = len;
                      used = len;
                    })
                    st.jobs,
              ))
        | inr (j, e) ↦
            rw (apply_put, e)
              (ground (
                arith,
                get-modify r.id q (put_again r tube body seg off len) st.jobs,
                nat-cmp_eq r.id q,
              ))
      ]

  update-Agrees :
      (r : JobRecord) (st : ReplayState) (q : JobId)
      → Agrees jobs st.jobs
      → indexed (Rec.update r) seg off jobs q
        ≡ Option.map entry_of (Map.get q (apply_update r update_rec_len st).jobs)
  unfolding apply_update Replay.updated Append.updated entry_of
  update-Agrees r st q h =
      let before = h q in
      ground (arith, get-modify r.id q (Replay.updated r update_rec_len) st.jobs)

  delete-Agrees :
      (i : JobId) (tubes : TubeList) (st : ReplayState) (q : JobId)
      → Agrees jobs st.jobs
      → indexed (Rec.delete i) seg off jobs q
        ≡ Option.map entry_of (Map.get q (apply_delete i st tubes).jobs)
  unfolding apply_delete
  delete-Agrees i tubes st q h = let before = h q in ground (arith, get-remove i q st.jobs)

  -- A record is indexed as it is replayed.
  pub indexed-apply :
      (rec : Rec) (st st' : ReplayState) (q : JobId)
      → Agrees jobs st.jobs
      → apply rec seg off (rec_len rec) st ≡ some st'
      → indexed rec seg off jobs q ≡ Option.map entry_of (Map.get q st'.jobs)
  unfolding apply rec_len
  indexed-apply (Rec.put r tube body) st st' q h e =
      put-Agrees r tube body (counted (Rec.put r tube body) st) q h
      ∙ ap (λ s. Option.map entry_of (Map.get q s.jobs)) (some-inj e)
  indexed-apply (Rec.update r) st st' q h e =
      update-Agrees r (counted (Rec.update r) st) q h
      ∙ ap (λ s. Option.map entry_of (Map.get q s.jobs)) (some-inj e)
  indexed-apply (Rec.delete i) st st' q h e = elim (Option-cases (Map.get i st.jobs)) [
    | inl n ↦
        let before = h q in
        let same = some-inj (rw (apply, n) at e) in
        ground (arith, nat-cmp_eq i q, h i) ∙ ap (λ s. Option.map entry_of (Map.get q s.jobs)) same
    | inr (j, found) ↦ elim (Option-cases (remove_job j.tube st.tubes)) [
      | inl panic ↦ let e' = rw (apply, found, panic) at e in ground arith
      | inr (tubes, result) ↦
          delete-Agrees i tubes (counted (Rec.delete i) st) q h
          ∙ ap (λ s. Option.map entry_of (Map.get q s.jobs))
              (some-inj (rw (apply, found, result) at e))
    ]
  ]
