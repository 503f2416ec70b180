-- ===== src/Engine/Commands/Put.antt =====
-- engine.rs: `cmd_put`, and the events `put_started` and `put_rejected` of its header.
use beanstalkd_rust.Base.{
  ℕ, Bool, true, false, Option, none, some, Bytes, max, ltb, if◌then◌else◌, incr64,
}
use beanstalkd_rust.Engine.Model.{Nanos, ConnId, TubeId, JobState, JobRec, PendingPut}
use beanstalkd_rust.Engine.State.{
  Engine, OpCounts, Run, conn, modify_conn, modify_tube, reply, journal_put,
}
use beanstalkd_rust.Engine.Indexes.{modify_ct, modify_stat, insert_ready, insert_delayed}
use beanstalkd_rust.Engine.Reserve.{connsetproducer, after_secs}
use beanstalkd_rust.Engine.Queue.{process_queue, use_tube_of}
use beanstalkd_rust.Proto.Types.{JobId, Response, PutRejection, response}
use beanstalkd_rust.Std.Order.{nat_ord}
use beanstalkd_rust.Std.Map

unfoldable pub modify_ops : (OpCounts → OpCounts) → Engine → Engine
modify_ops f e = record e { ops = f e.ops }

count_put : Engine → Engine
unfolding modify_ops
count_put = modify_ops (λ o. record o { cmd_put = incr64 o.cmd_put })

-- `next_job_id += 1`
unfoldable pub bump_job_id : Engine → Engine
bump_job_id e = record e { next_job_id = incr64 e.next_job_id }

set_pending : Option PendingPut → ConnId → Engine → Engine
set_pending p cid e = modify_conn cid (λ c. record c { pending_put = p }) e

-- `put_started`
unfoldable pub put_started : Nanos → ConnId → Bool → Engine → Engine
unfolding count_put bump_job_id set_pending
put_started now cid too_big e = elim (conn cid e) [
  | none ↦ e
  | some c ↦
      let counted = count_put e in
      let producing = connsetproducer cid counted in
      if too_big
      then set_pending (some (record { id = none; created_at = now })) cid counted
      else set_pending (some (record { id = some producing.next_job_id; created_at = now })) cid
          (bump_job_id producing)
]

-- The rejections that come after `connsetproducer` and `make_job`.
makes_job : PutRejection → Bool
makes_job PutRejection.expected_crlf = true
makes_job PutRejection.out_of_memory = true
makes_job _ = false

reject_unstarted : ConnId → PutRejection → Engine → Engine
unfolding count_put bump_job_id makes_job
reject_unstarted cid why e =
    let counted = count_put e in
    if makes_job why then bump_job_id (connsetproducer cid counted) else counted

-- `put_rejected`
unfoldable pub put_rejected : ConnId → PutRejection → Run → Run
unfolding set_pending reject_unstarted
put_rejected cid why r = elim (conn cid r.0) [
  | none ↦ r
  | some c ↦
      let taken = set_pending none cid r.0 in
      reply cid (response why)
        (elim c.pending_put [ none ↦ reject_unstarted cid why taken | some p ↦ taken ], r.1)
]

-- The job id and the creation time of a put, and the engine that has allotted them.
unfoldable pub new_id : Nanos → ConnId → Engine → JobId × Nanos × Engine
unfolding count_put bump_job_id
new_id now cid e =
    let producing = connsetproducer cid (count_put e) in
    (producing.next_job_id, now, bump_job_id producing)

unfoldable pub put_id : Nanos → ConnId → Engine → JobId × Nanos × Engine
unfolding new_id set_pending
put_id now cid e =
    let taken = set_pending none cid e in
    elim (conn cid e) [
      | none ↦ new_id now cid e
      | some c ↦ elim c.pending_put [
        | none ↦ new_id now cid taken
        | some p ↦ elim p.id [ none ↦ new_id now cid taken | some id ↦ (id, p.created_at, taken) ]
      ]
    ]

unfoldable pub new_job : JobId → TubeId → ℕ → ℕ → ℕ → Bytes → Nanos → Engine → JobRec
new_job id tid pri delay ttr body created_at e = record {
  id = id;
  tube = tid;
  pri = pri;
  delay = delay;
  ttr = ttr;
  body = body;
  created_at = created_at;
  deadline_at = 0;
  state = JobState.ready;
  reserver = none;
  list_seq = 0;
  reserve_ct = 0;
  timeout_ct = 0;
  release_ct = 0;
  bury_ct = 0;
  kick_ct = 0;
  file = if e.cfg.journal then e.binlog.current_index else 0;
}

-- `self.jobs.insert(id, …)`, and the reference that the tube holds.
unfoldable pub add_job : JobRec → Engine → Engine
add_job j e =
    modify_tube j.tube (λ t. record t { job_ref_ct = incr64 t.job_ref_ct })
      (record e { jobs = Map.insert j.id j e.jobs })

-- The new job is queued, recorded and offered to the waiting connections.
enqueue : TubeId → JobId → ℕ → Nanos → Run → Run
enqueue tid id delay now r =
    let queued =
      if ltb 0 delay
      then insert_delayed tid id (after_secs now delay) r.0
      else insert_ready tid id r.0 in
    process_queue now (journal_put id queued, r.1)

count_job : TubeId → Engine → Engine
unfolding modify_ct modify_stat
count_job tid e =
    modify_tube tid (modify_stat (λ s. record s { total_jobs_ct = incr64 s.total_jobs_ct }))
      (modify_ct (λ n. record n { total_jobs_ct = incr64 n.total_jobs_ct }) e)

unfoldable pub cmd_put : Nanos → ConnId → ℕ → ℕ → ℕ → Bytes → Run → Run
unfolding put_id new_job add_job enqueue count_job
cmd_put now cid pri delay ttr body r =
    let (id, created_at, e) = put_id now cid r.0 in
    let tid = use_tube_of cid e in
    let added = add_job (new_job id tid pri delay (max ttr 1) body created_at e) e in
    let queued = enqueue tid id delay now (added, r.1) in
    if e.draining
    then reply cid Response.draining (e, r.1)
    else reply cid (Response.inserted id) (count_job tid queued.0, queued.1)
