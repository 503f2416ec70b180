-- ===== src/Engine/Recover.antt =====
-- engine.rs: `recover`, which rebuilds an engine from the jobs of the binlog.
use beanstalkd_rust.Base.{ℕ, Bool, none, List, [], ◌∷◌, max, ltb, any, if◌then◌else◌, incr64}
use beanstalkd_rust.Engine.Model.{
  Nanos, TubeId, EngineConfig, JobState, JobRec, JobRecord, RecordState, Recovery, RecoveredJob,
}
use beanstalkd_rust.Engine.State.{Engine}
use beanstalkd_rust.Engine.Tubes.{find_or_make_tube}
use beanstalkd_rust.Engine.Indexes.{insert_ready, insert_delayed, insert_buried}
use beanstalkd_rust.Engine.Commands.Put.{add_job}
use beanstalkd_rust.Engine.Input.{new}
use beanstalkd_rust.Proto.Types.{TubeName}
use beanstalkd_rust.Std.Order.{eqb, nat_ord, bytes_ord}
use beanstalkd_rust.Std.Map

-- `live_tubes.contains(name)`
holds_job : List RecoveredJob → TubeName → Bool
holds_job jobs name = any (λ (rj : RecoveredJob). eqb rj.tube name) jobs

make_tubes : List RecoveredJob → List TubeName → Engine → Engine
unfolding holds_job
make_tubes jobs [] e = e
make_tubes jobs (name ∷ names) e =
    make_tubes jobs names (if holds_job jobs name then (find_or_make_tube name e).1 else e)

unfoldable pub recovered_rec : RecoveredJob → TubeId → JobRec
recovered_rec rj tid =
    let r = rj.job in
    record {
      id = r.id;
      tube = tid;
      pri = r.pri;
      delay = r.delay;
      ttr = max r.ttr 1;
      body = rj.body;
      created_at = r.created_at;
      deadline_at = 0;
      state = JobState.ready;
      reserver = none;
      list_seq = 0;
      reserve_ct = r.reserve_ct;
      timeout_ct = r.timeout_ct;
      release_ct = r.release_ct;
      bury_ct = r.bury_ct;
      kick_ct = r.kick_ct;
      file = 0;
    }

-- A delayed job that is due comes back ready.
queue_recovered : Nanos → TubeId → JobRecord → Engine → Engine
queue_recovered now tid r e = elim r.state [
  | RecordState.buried ↦ insert_buried tid r.id e
  | RecordState.delayed ↦
      if ltb now r.deadline_at
      then insert_delayed tid r.id r.deadline_at e
      else insert_ready tid r.id e
  | RecordState.ready ↦ insert_ready tid r.id e
]

recover_job : Nanos → RecoveredJob → Engine → Engine
unfolding recovered_rec queue_recovered
recover_job now rj e =
    let (tid, made) = find_or_make_tube rj.tube e in
    queue_recovered now tid rj.job (add_job (recovered_rec rj tid) made)

-- Only the first job with an id is kept. The number is the highest id so far.
unfoldable pub recover_jobs : Nanos → List RecoveredJob → ℕ × Engine → ℕ × Engine
unfolding recover_job
recover_jobs now [] s = s
recover_jobs now (rj ∷ rest) s =
    recover_jobs now rest (
      if Map.contains_key rj.job.id s.1.jobs
      then s
      else (max s.0 rj.job.id, recover_job now rj s.1))

unfoldable pub recover : Nanos → EngineConfig → Recovery → Engine
unfolding make_tubes recover_jobs
recover now cfg recovery =
    let made = make_tubes recovery.jobs recovery.tube_order (new now cfg) in
    let (max_id, e) = recover_jobs now recovery.jobs (0, made) in
    record e { next_job_id = max (max recovery.next_id (incr64 max_id)) 1 }
