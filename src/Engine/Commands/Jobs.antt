-- ===== src/Engine/Commands/Jobs.antt =====
-- engine.rs: the commands on jobs: reserve, reserve-job, delete, release, bury, touch, kick and
-- kick-job.
use beanstalkd_rust.Base.{
  ℕ, zero, suc, ◌+◌, ◌-◌, Bool, false, not, ◌&&◌, Option, none, some, first, ltb, ◌==◌, is_empty,
  if◌then◌else◌, ◌>>=◌, incr64, incr32,
}
use mathlib.Core.Option
use beanstalkd_rust.Engine.Model.{Nanos, ConnId, TubeId, JobState, JobRec, ConnState}
use beanstalkd_rust.Engine.State.{
  Engine, Run, job, tube, modify_job, modify_conn, modify_tube, reply, journal_update,
  journal_delete,
}
use beanstalkd_rust.Engine.Tubes.{gc_tube_if_orphan, refresh_conn_tick}
use beanstalkd_rust.Engine.Indexes.{
  modify_stat, insert_ready, remove_ready, insert_delayed, remove_delayed, insert_buried,
  remove_buried, pop_buried_front,
}
use beanstalkd_rust.Engine.Reserve.{
  after_secs, do_reserve, do_unreserve, enqueue_waiting_conn, do_remove_waiting_conn, is_waiting,
  conn_deadline_soon, conn_ready, connsetworker,
}
use beanstalkd_rust.Engine.Queue.{
  process_queue, use_tube_of, reserved_by, reserved_reply, kick_to_ready, held_by,
}
use beanstalkd_rust.Engine.Commands.Put.{modify_ops}
use beanstalkd_rust.Proto.Types.{JobId, Response}
use beanstalkd_rust.Std.Order.{nat_ord, pair_ord}
use beanstalkd_rust.Std.Map
use beanstalkd_rust.Std.Set

count_reserve : Option ℕ → Engine → Engine
unfolding modify_ops
count_reserve none e = modify_ops (λ o. record o { cmd_reserve = incr64 o.cmd_reserve }) e
count_reserve (some t) e =
    modify_ops (λ o. record o { cmd_reserve_with_timeout = incr64 o.cmd_reserve_with_timeout }) e

-- `timeout == Some(0)`
is_zero : Option ℕ → Bool
is_zero none = false
is_zero (some t) = t == 0

-- The end of `cmd_reserve`: a time limit of 0 does not wait for the next tick.
finish_reserve : Nanos → ConnId → Option ℕ → Run → Run
unfolding is_zero
finish_reserve now cid timeout r =
    let soon = conn_deadline_soon cid now r.0 in
    let left : Run = (do_remove_waiting_conn cid r.0, r.1) in
    if is_zero timeout && is_waiting cid r.0
    then reply cid (if soon then Response.deadline_soon else Response.timed_out) left
    else r

unfoldable pub cmd_reserve : Nanos → ConnId → Option ℕ → Run → Run
unfolding count_reserve finish_reserve
cmd_reserve now cid timeout r =
    let e = connsetworker cid (count_reserve timeout r.0) in
    let waiting = enqueue_waiting_conn cid (Option.map (after_secs now) timeout) e in
    let served = finish_reserve now cid timeout (process_queue now (waiting, r.1)) in
    if conn_deadline_soon cid now e && not (conn_ready cid e)
    then reply cid Response.deadline_soon (e, r.1)
    else served

-- The job leaves the queue that its state names.
unfoldable pub unqueue : JobState → TubeId → JobId → Engine → Engine
unqueue JobState.ready tid id e = remove_ready tid id e
unqueue JobState.buried tid id e = remove_buried tid id e
unqueue JobState.delayed tid id e = remove_delayed tid id e
unqueue JobState.reserved tid id e = e

unfoldable pub reserve_queued : Nanos → ConnId → JobId → JobRec → Run → Run
unfolding unqueue
reserve_queued now cid id j r =
    let e = do_reserve cid id now (connsetworker cid (unqueue j.state j.tube id r.0)) in
    reply cid (reserved_reply id e) (e, r.1)

unfoldable pub cmd_reserve_job : Nanos → ConnId → JobId → Run → Run
unfolding reserve_queued
cmd_reserve_job now cid id r = elim (job id r.0) [
  | none ↦ reply cid Response.not_found r
  | some j ↦ elim j.state [
    | JobState.reserved ↦ reply cid Response.not_found r
    | _ ↦ reserve_queued now cid id j r
  ]
]

-- The job leaves the engine; its tube loses a reference, and may go with it.
erase_job : TubeId → JobId → Engine → Engine
unfolding modify_stat
erase_job tid id e =
    let released =
      modify_tube tid
        (λ t.
          modify_stat (λ s. record s { total_delete_ct = incr64 s.total_delete_ct })
            (record t { job_ref_ct = t.job_ref_ct - 1 }))
        e in
    gc_tube_if_orphan tid
      (journal_delete id (record released { jobs = Map.remove id released.jobs }))

-- A reserved job is given up only by the connection that holds it.
unfoldable pub give_up : ConnId → JobId → JobRec → Engine → Option Engine
unfolding unqueue held_by
give_up cid id j e = elim j.state [
  | JobState.reserved ↦ if held_by cid j then some (do_unreserve cid id e) else none
  | _ ↦ some (unqueue j.state j.tube id e)
]

unfoldable pub cmd_delete : ConnId → JobId → Run → Run
unfolding modify_ops give_up erase_job
cmd_delete cid id r =
    let counted = modify_ops (λ o. record o { cmd_delete = incr64 o.cmd_delete }) r.0 in
    elim (job id counted) [
      | none ↦ reply cid Response.not_found (counted, r.1)
      | some j ↦ elim (give_up cid id j counted) [
        | none ↦ reply cid Response.not_found (counted, r.1)
        | some e ↦ reply cid Response.deleted (erase_job j.tube id e, r.1)
      ]
    ]

requeue : TubeId → JobId → ℕ → Nanos → Engine → Engine
requeue tid id delay now e =
    if ltb 0 delay
    then journal_update id (insert_delayed tid id (after_secs now delay) e)
    else insert_ready tid id e

unfoldable pub cmd_release : Nanos → ConnId → JobId → ℕ → ℕ → Run → Run
unfolding modify_ops requeue
cmd_release now cid id pri delay r =
    let counted = modify_ops (λ o. record o { cmd_release = incr64 o.cmd_release }) r.0 in
    elim (reserved_by cid id counted) [
      | none ↦ reply cid Response.not_found (counted, r.1)
      | some tid ↦
          let freed = do_unreserve cid id counted in
          let marked =
            modify_job id
              (λ j. record j { pri = pri; delay = delay; release_ct = incr32 j.release_ct })
              freed in
          reply cid Response.released (process_queue now (requeue tid id delay now marked, r.1))
    ]

unfoldable pub cmd_bury : ConnId → JobId → ℕ → Run → Run
unfolding modify_ops
cmd_bury cid id pri r =
    let counted = modify_ops (λ o. record o { cmd_bury = incr64 o.cmd_bury }) r.0 in
    elim (reserved_by cid id counted) [
      | none ↦ reply cid Response.not_found (counted, r.1)
      | some tid ↦
          let freed = do_unreserve cid id counted in
          let marked = modify_job id (λ j. record j { pri = pri }) freed in
          reply cid Response.buried (journal_update id (insert_buried tid id marked), r.1)
    ]

ttr_of : Option JobRec → ℕ
ttr_of none = 1
ttr_of (some j) = j.ttr

old_deadline : Option JobRec → Nanos
old_deadline none = 0
old_deadline (some j) = j.deadline_at

reschedule : Nanos → Nanos → JobId → ConnState → ConnState
reschedule old new id c = record c {
  reserved_by_deadline = Set.insert (new, id) (Set.remove (old, id) c.reserved_by_deadline);
}

unfoldable pub cmd_touch : Nanos → ConnId → JobId → Run → Run
unfolding modify_ops ttr_of old_deadline reschedule
cmd_touch now cid id r =
    let counted = modify_ops (λ o. record o { cmd_touch = incr64 o.cmd_touch }) r.0 in
    elim (reserved_by cid id counted) [
      | none ↦ reply cid Response.not_found (counted, r.1)
      | some tid ↦
          let new = after_secs now (ttr_of (job id counted)) in
          let old = old_deadline (job id counted) in
          let marked = modify_job id (λ j. record j { deadline_at = new }) counted in
          let moved = modify_conn cid (reschedule old new id) marked in
          reply cid Response.touched (refresh_conn_tick cid moved, r.1)
    ]

-- The two loops of `cmd_kick`, which end early when the queue is empty. They count their rounds.
unfoldable pub kick_buried : ℕ → TubeId → Nanos → ℕ → Run → ℕ × Run
kick_buried zero tid now count r = (count, r)
kick_buried (suc n) tid now count r = elim (pop_buried_front tid r.0) [
  | none ↦ (count, r)
  | some (id, e) ↦ kick_buried n tid now (count + 1) (kick_to_ready tid id now (e, r.1))
]

first_delayed : TubeId → Engine → Option (Nanos × JobId)
first_delayed tid e = do t ← tube tid e; first t.delayed

unfoldable pub kick_delayed : ℕ → TubeId → Nanos → ℕ → Run → ℕ × Run
unfolding first_delayed
kick_delayed zero tid now count r = (count, r)
kick_delayed (suc n) tid now count r = elim (first_delayed tid r.0) [
  | none ↦ (count, r)
  | some (deadline, id) ↦
      kick_delayed n tid now (count + 1) (kick_to_ready tid id now (remove_delayed tid id r.0, r.1))
]

has_buried : TubeId → Engine → Bool
has_buried tid e = elim (tube tid e) [ none ↦ false | some t ↦ not (is_empty t.buried) ]

unfoldable pub cmd_kick : Nanos → ConnId → ℕ → Run → Run
unfolding modify_ops kick_buried kick_delayed has_buried
cmd_kick now cid n r =
    let counted = modify_ops (λ o. record o { cmd_kick = incr64 o.cmd_kick }) r.0 in
    let tid = use_tube_of cid counted in
    let buried = kick_buried n tid now 0 (counted, r.1) in
    let delayed = kick_delayed n tid now 0 (counted, r.1) in
    if has_buried tid counted
    then reply cid (Response.kicked buried.0) buried.1
    else reply cid (Response.kicked delayed.0) delayed.1

unfoldable pub cmd_kick_job : Nanos → ConnId → JobId → Run → Run
unfolding unqueue
cmd_kick_job now cid id r = elim (job id r.0) [
  | none ↦ reply cid Response.not_found r
  | some j ↦
      let kicked = kick_to_ready j.tube id now (unqueue j.state j.tube id r.0, r.1) in
      elim j.state [
        | JobState.buried ↦ reply cid Response.kicked_job kicked
        | JobState.delayed ↦ reply cid Response.kicked_job kicked
        | _ ↦ reply cid Response.not_found r
      ]
]
