-- ===== src/Engine/Commands/Info.antt =====
-- engine.rs: the commands that change nothing but their counter: peek, stats and list. `snapshot`
-- shares what they report.
use beanstalkd_rust.Base.{
  ℕ, ◌-◌, ◌/◌, Option, none, some, List, [], ◌∷◌, map, first, length, ltb, take, if◌then◌else◌,
  ◌>>=◌, incr64,
}
use beanstalkd_rust.Engine.Model.{
  Nanos, ConnId, TubeId, JobState, JobRec, TubeState, SysSnapshot, Snapshot, state_name,
  nanos_per_sec,
}
use beanstalkd_rust.Engine.State.{Engine, Run, job, conn, tube, tube_name, reply}
use beanstalkd_rust.Engine.Queue.{use_tube_of, peek_used_tube}
use beanstalkd_rust.Engine.Commands.Put.{modify_ops}
use beanstalkd_rust.Proto.Types.{JobId, TubeName, Response}
use beanstalkd_rust.Proto.Stats.{
  StatsJob, StatsTube, StatsServer, stats_job_yaml, stats_tube_yaml, stats_server_yaml, yaml_list,
}
use beanstalkd_rust.Std.Order.{nat_ord, bytes_ord}
use beanstalkd_rust.Std.Map

unfoldable pub cmd_peek : ConnId → JobId → Run → Run
unfolding modify_ops
cmd_peek cid id r =
    let e = modify_ops (λ o. record o { cmd_peek = incr64 o.cmd_peek }) r.0 in
    reply cid (elim (job id e) [ none ↦ Response.not_found | some j ↦ Response.found id j.body ])
      (e, r.1)

second : Option (ℕ × JobId) → Option JobId
second none = none
second (some (k, id)) = some id

unfoldable pub cmd_peek_ready : ConnId → Run → Run
unfolding modify_ops second
cmd_peek_ready cid r =
    let e = modify_ops (λ o. record o { cmd_peek_ready = incr64 o.cmd_peek_ready }) r.0 in
    reply cid (peek_used_tube cid (λ t. second (first t.ready)) e) (e, r.1)

unfoldable pub cmd_peek_delayed : ConnId → Run → Run
unfolding modify_ops second
cmd_peek_delayed cid r =
    let e = modify_ops (λ o. record o { cmd_peek_delayed = incr64 o.cmd_peek_delayed }) r.0 in
    reply cid (peek_used_tube cid (λ t. second (first t.delayed)) e) (e, r.1)

unfoldable pub cmd_peek_buried : ConnId → Run → Run
unfolding modify_ops second
cmd_peek_buried cid r =
    let e = modify_ops (λ o. record o { cmd_peek_buried = incr64 o.cmd_peek_buried }) r.0 in
    reply cid (peek_used_tube cid (λ t. second (first t.buried)) e) (e, r.1)

-- Whole seconds from `a` to `b`, and 0 if `b` is not after `a`: the `i128` difference is divided
-- towards 0 and cut off at 0.
secs_between : Nanos → Nanos → ℕ
secs_between a b = (b - a) / nanos_per_sec

time_left : JobRec → Nanos → ℕ
unfolding secs_between
time_left j now = elim j.state [
  | JobState.reserved ↦ secs_between now j.deadline_at
  | JobState.delayed ↦ secs_between now j.deadline_at
  | _ ↦ 0
]

unfoldable pub build_stats_job : JobId → Nanos → Engine → Option StatsJob
unfolding time_left
build_stats_job id now e = do
  j ← job id e
  some (record {
    id = j.id;
    tube = tube_name j.tube e;
    state = state_name j.state;
    pri = j.pri;
    age = secs_between j.created_at now;
    delay = j.delay;
    ttr = j.ttr;
    time_left = time_left j now;
    file = j.file;
    reserves = j.reserve_ct;
    timeouts = j.timeout_ct;
    releases = j.release_ct;
    buries = j.bury_ct;
    kicks = j.kick_ct;
  })

unfoldable pub stats_tube_of : TubeState → Nanos → StatsTube
stats_tube_of t now = record {
  name = t.name;
  current_jobs_urgent = t.stat.urgent_ct;
  current_jobs_ready = length t.ready;
  current_jobs_reserved = t.stat.reserved_ct;
  current_jobs_delayed = length t.delayed;
  current_jobs_buried = t.stat.buried_ct;
  total_jobs = t.stat.total_jobs_ct;
  current_using = t.using_ct;
  current_watching = t.watching_ct;
  current_waiting = t.stat.waiting_ct;
  cmd_delete = t.stat.total_delete_ct;
  cmd_pause_tube = t.stat.pause_ct;
  pause = t.pause / nanos_per_sec;
  pause_time_left = if ltb 0 t.pause then (t.unpause_at - now) / nanos_per_sec else 0;
}

unfoldable pub build_stats_tube : TubeName → Nanos → Engine → Option StatsTube
build_stats_tube name now e = do
  tid ← Map.get name e.tube_ids
  t ← tube tid e
  some (stats_tube_of t now)

unfoldable pub build_stats_server : SysSnapshot → Nanos → Engine → StatsServer
build_stats_server snap now e = record {
  current_jobs_urgent = e.ct.urgent_ct;
  current_jobs_ready = e.ct.ready_ct;
  current_jobs_reserved = e.ct.reserved_ct;
  current_jobs_delayed = e.ct.delayed_ct;
  current_jobs_buried = e.ct.buried_ct;
  cmd_put = e.ops.cmd_put;
  cmd_peek = e.ops.cmd_peek;
  cmd_peek_ready = e.ops.cmd_peek_ready;
  cmd_peek_delayed = e.ops.cmd_peek_delayed;
  cmd_peek_buried = e.ops.cmd_peek_buried;
  cmd_reserve = e.ops.cmd_reserve;
  cmd_reserve_with_timeout = e.ops.cmd_reserve_with_timeout;
  cmd_delete = e.ops.cmd_delete;
  cmd_release = e.ops.cmd_release;
  cmd_use = e.ops.cmd_use;
  cmd_watch = e.ops.cmd_watch;
  cmd_ignore = e.ops.cmd_ignore;
  cmd_bury = e.ops.cmd_bury;
  cmd_kick = e.ops.cmd_kick;
  cmd_touch = e.ops.cmd_touch;
  cmd_stats = e.ops.cmd_stats;
  cmd_stats_job = e.ops.cmd_stats_job;
  cmd_stats_tube = e.ops.cmd_stats_tube;
  cmd_list_tubes = e.ops.cmd_list_tubes;
  cmd_list_tube_used = e.ops.cmd_list_tube_used;
  cmd_list_tubes_watched = e.ops.cmd_list_tubes_watched;
  cmd_pause_tube = e.ops.cmd_pause_tube;
  job_timeouts = e.ct.timeout_ct;
  total_jobs = e.ct.total_jobs_ct;
  max_job_size = e.cfg.max_job_size;
  current_tubes = length e.tube_order.items;
  current_connections = e.ct.cur_conns;
  current_producers = e.ct.cur_producers;
  current_workers = e.ct.cur_workers;
  current_waiting = e.ct.waiting_ct;
  total_connections = e.ct.tot_conns;
  pid = snap.pid;
  version = snap.version;
  rusage_utime = snap.rusage_utime;
  rusage_stime = snap.rusage_stime;
  uptime = (now - e.start) / nanos_per_sec;
  binlog_oldest_index = e.binlog.oldest_index;
  binlog_current_index = e.binlog.current_index;
  binlog_records_migrated = e.binlog.records_migrated;
  binlog_records_written = e.binlog.records_written;
  binlog_max_size = e.cfg.binlog_max_size;
  draining = e.draining;
  id = snap.id;
  hostname = snap.hostname;
  os = snap.os;
  platform = snap.platform;
}

unfoldable pub cmd_stats_job : Nanos → ConnId → JobId → Run → Run
unfolding modify_ops
cmd_stats_job now cid id r =
    let e = modify_ops (λ o. record o { cmd_stats_job = incr64 o.cmd_stats_job }) r.0 in
    reply cid
      (elim (build_stats_job id now e) [
        | none ↦ Response.not_found
        | some s ↦ Response.ok (stats_job_yaml s)
      ])
      (e, r.1)

unfoldable pub cmd_stats_tube : Nanos → ConnId → TubeName → Run → Run
unfolding modify_ops
cmd_stats_tube now cid name r =
    let e = modify_ops (λ o. record o { cmd_stats_tube = incr64 o.cmd_stats_tube }) r.0 in
    reply cid
      (elim (build_stats_tube name now e) [
        | none ↦ Response.not_found
        | some s ↦ Response.ok (stats_tube_yaml s)
      ])
      (e, r.1)

unfoldable pub cmd_stats : SysSnapshot → Nanos → ConnId → Run → Run
unfolding modify_ops
cmd_stats snap now cid r =
    let e = modify_ops (λ o. record o { cmd_stats = incr64 o.cmd_stats }) r.0 in
    reply cid (Response.ok (stats_server_yaml (build_stats_server snap now e))) (e, r.1)

names_of : Engine → List TubeId → List TubeName
names_of e = map (λ t. tube_name t e)

unfoldable pub tube_names : Engine → List TubeName
unfolding names_of
tube_names e = names_of e e.tube_order.items

unfoldable pub watched_tube_names : ConnId → Engine → List TubeName
unfolding names_of
watched_tube_names cid e = elim (conn cid e) [ none ↦ [] | some c ↦ names_of e c.watch.items ]

unfoldable pub cmd_list_tubes : ConnId → Run → Run
unfolding modify_ops
cmd_list_tubes cid r =
    let e = modify_ops (λ o. record o { cmd_list_tubes = incr64 o.cmd_list_tubes }) r.0 in
    reply cid (Response.ok (yaml_list (tube_names e))) (e, r.1)

unfoldable pub cmd_list_tube_used : ConnId → Run → Run
unfolding modify_ops
cmd_list_tube_used cid r =
    let e = modify_ops (λ o. record o { cmd_list_tube_used = incr64 o.cmd_list_tube_used }) r.0 in
    reply cid (Response.using (tube_name (use_tube_of cid e) e)) (e, r.1)

unfoldable pub cmd_list_tubes_watched : ConnId → Run → Run
unfolding modify_ops
cmd_list_tubes_watched cid r =
    let e =
      modify_ops (λ o. record o { cmd_list_tubes_watched = incr64 o.cmd_list_tubes_watched }) r.0 in
    reply cid (Response.ok (yaml_list (watched_tube_names cid e))) (e, r.1)

report : Engine → Nanos → List TubeId → List StatsTube
report e now [] = []
report e now (tid ∷ tids) =
    let rest = report e now tids in
    elim (tube tid e) [ none ↦ rest | some t ↦ stats_tube_of t now ∷ rest ]

unfoldable pub snapshot_limited : SysSnapshot → Nanos → ℕ → Engine → Snapshot
unfolding report
snapshot_limited snap now max_tubes e = record {
  server = build_stats_server snap now e;
  tubes = report e now (take max_tubes e.tube_order.items);
}
