-- ===== src/Engine/Input.antt =====
-- engine.rs: `new`, the connection events, `handle`, `apply_input` and `recover`.
mod Replies
mod Records
pub mod Held
pub mod Reserving
pub mod Reads
pub mod Ownership
pub mod Missing
pub mod Draining
use beanstalkd_rust.Base.{◌-◌, false, Option, none, some, List, [], ◌∷◌, if◌then◌else◌, incr32}
use beanstalkd_rust.Engine.Ms
use beanstalkd_rust.Engine.Model.{
  Nanos, ConnId, EngineConfig, EngineInput, ConnState, SysSnapshot, new_conn,
}
use beanstalkd_rust.Engine.State.{
  Engine, Run, on, job, conn, modify_conn, modify_tube, reply, set_draining,
}
use beanstalkd_rust.Engine.Tubes.{default_tube_id, find_or_make_tube, remove_key}
use beanstalkd_rust.Engine.Indexes.{modify_ct, insert_ready}
use beanstalkd_rust.Engine.Reserve.{do_unreserve, do_remove_waiting_conn, is_waiting, for_tubes}
use beanstalkd_rust.Engine.Queue.{process_queue}
use beanstalkd_rust.Engine.Tick.{tick}
use beanstalkd_rust.Engine.Commands.Put.{put_started, put_rejected, cmd_put}
use beanstalkd_rust.Engine.Commands.Tubes.{
  cmd_use, cmd_watch, cmd_ignore, cmd_pause_tube, cmd_pause_tube_bad_name, drop_use, drop_watch,
}
use beanstalkd_rust.Engine.Commands.Jobs.{
  cmd_reserve, cmd_reserve_job, cmd_delete, cmd_release, cmd_bury, cmd_touch, cmd_kick,
  cmd_kick_job,
}
use beanstalkd_rust.Engine.Commands.Info.{
  cmd_peek, cmd_peek_ready, cmd_peek_delayed, cmd_peek_buried, cmd_stats_job, cmd_stats_tube,
  cmd_stats, cmd_list_tubes, cmd_list_tube_used, cmd_list_tubes_watched,
}
use beanstalkd_rust.Proto.Types.{JobId, Command, Response, default_tube}
use beanstalkd_rust.Std.Order.{nat_ord, pair_ord, bytes_ord}
use beanstalkd_rust.Std.Map

-- The struct before `new` makes the default tube.
blank : Nanos → EngineConfig → Engine
blank now cfg = record {
  cfg = cfg;
  start = now;
  draining = false;
  next_job_id = 1;
  jobs = [];
  next_list_seq = 0;
  tubes = [];
  free_tube_ids = [];
  tube_ids = [];
  tube_order = Ms.new;
  conns = [];
  conn_ticks = [];
  delay_heads = [];
  pauses = [];
  dispatchable = [];
  ct = record {
    ready_ct = 0;
    urgent_ct = 0;
    reserved_ct = 0;
    buried_ct = 0;
    delayed_ct = 0;
    waiting_ct = 0;
    total_jobs_ct = 0;
    timeout_ct = 0;
    cur_conns = 0;
    tot_conns = 0;
    cur_producers = 0;
    cur_workers = 0;
  };
  ops = record {
    cmd_put = 0;
    cmd_peek = 0;
    cmd_peek_ready = 0;
    cmd_peek_delayed = 0;
    cmd_peek_buried = 0;
    cmd_reserve = 0;
    cmd_reserve_with_timeout = 0;
    cmd_delete = 0;
    cmd_release = 0;
    cmd_use = 0;
    cmd_watch = 0;
    cmd_ignore = 0;
    cmd_bury = 0;
    cmd_kick = 0;
    cmd_touch = 0;
    cmd_stats = 0;
    cmd_stats_job = 0;
    cmd_stats_tube = 0;
    cmd_list_tubes = 0;
    cmd_list_tube_used = 0;
    cmd_list_tubes_watched = 0;
    cmd_pause_tube = 0;
  };
  journal = [];
  binlog = record {
    oldest_index = 0;
    current_index = 0;
    records_written = 0;
    records_migrated = 0;
  };
  local_conns = none;
}

-- `Engine::new`
unfoldable pub new : Nanos → EngineConfig → Engine
unfolding blank
new now cfg = (find_or_make_tube default_tube (blank now cfg)).1

-- The key in `conn_ticks` of the connection that `insert` replaced.
forget_ticks : ConnId → Option ConnState → List (Nanos × ConnId) → List (Nanos × ConnId)
forget_ticks cid none s = s
forget_ticks cid (some old) s = remove_key old.tick_key cid s

unfoldable pub connect : ConnId → Engine → Engine
unfolding modify_ct forget_ticks
connect cid e =
    let referenced =
      modify_tube default_tube_id
        (λ t. record t { using_ct = incr32 t.using_ct; watching_ct = incr32 t.watching_ct }) e in
    modify_ct (λ n. record n { cur_conns = incr32 n.cur_conns; tot_conns = incr32 n.tot_conns })
      (record referenced {
        conns = Map.insert cid (new_conn default_tube_id) e.conns;
        conn_ticks = forget_ticks cid (conn cid e) e.conn_ticks;
      })

-- One reserved job of a closing connection goes back to its tube.
give_back : Nanos → ConnId → JobId → Run → Run
give_back now cid id r =
    let freed = do_unreserve cid id r.0 in
    process_queue now
      (elim (job id freed) [ none ↦ freed | some j ↦ insert_ready j.tube id freed ], r.1)

unfoldable pub give_back_all : Nanos → ConnId → List JobId → Run → Run
unfolding give_back
give_back_all now cid [] r = r
give_back_all now cid (id ∷ ids) r = give_back_all now cid ids (give_back now cid id r)

reserved_of : Option ConnState → List JobId
reserved_of none = []
reserved_of (some c) = Map.values c.reserved

-- Clears the watch list, and drops the references in the order of deletion.
unwatch_all : ConnId → Engine → Engine
unfolding drop_watch for_tubes
unwatch_all cid e = elim (conn cid e) [
  | none ↦ e
  | some c ↦
      let (watched, empty) = Ms.clear_in_delete_order c.watch in
      for_tubes drop_watch watched (modify_conn cid (λ c. record c { watch = empty }) e)
]

unuse : ConnId → Engine → Engine
unfolding drop_use
unuse cid e = elim (conn cid e) [ none ↦ e | some c ↦ drop_use c.use_tube e ]

remove_conn : ConnId → Engine → Engine
unfolding modify_ct
remove_conn cid e = elim (conn cid e) [
  | none ↦ e
  | some c ↦
      let removed = record e {
        conns = Map.remove cid e.conns;
        conn_ticks = remove_key c.tick_key cid e.conn_ticks;
      } in
      modify_ct
        (λ n. record n {
          cur_producers = if c.is_producer then n.cur_producers - 1 else n.cur_producers;
          cur_workers = if c.is_worker then n.cur_workers - 1 else n.cur_workers;
        })
        removed
]

close : ConnId → Engine → Engine
unfolding unwatch_all unuse remove_conn modify_ct
close cid e =
    modify_ct (λ n. record n { cur_conns = n.cur_conns - 1 })
      (remove_conn cid (unuse cid (unwatch_all cid e)))

unfoldable pub disconnect : Nanos → ConnId → Run → Run
unfolding give_back_all reserved_of close
disconnect now cid r =
    let left = do_remove_waiting_conn cid r.0 in
    let freed = give_back_all now cid (reserved_of (conn cid left)) (left, r.1) in
    if Map.contains_key cid r.0.conns then (close cid freed.0, freed.1) else r

unfoldable pub half_close : ConnId → Run → Run
half_close cid r =
    if is_waiting cid r.0
    then reply cid Response.timed_out (do_remove_waiting_conn cid r.0, r.1)
    else r

dispatch_command : SysSnapshot → Nanos → ConnId → Command → Run → Run
dispatch_command snap now cid (Command.put pri delay ttr body) r =
    cmd_put now cid pri delay ttr body r
dispatch_command snap now cid (Command.use_tube name) r = cmd_use cid name r
dispatch_command snap now cid Command.reserve r = cmd_reserve now cid none r
dispatch_command snap now cid (Command.reserve_with_timeout t) r = cmd_reserve now cid (some t) r
dispatch_command snap now cid (Command.reserve_job id) r = cmd_reserve_job now cid id r
dispatch_command snap now cid (Command.delete id) r = cmd_delete cid id r
dispatch_command snap now cid (Command.release id pri delay) r = cmd_release now cid id pri delay r
dispatch_command snap now cid (Command.bury id pri) r = cmd_bury cid id pri r
dispatch_command snap now cid (Command.touch id) r = cmd_touch now cid id r
dispatch_command snap now cid (Command.watch name) r = cmd_watch cid name r
dispatch_command snap now cid (Command.ignore name) r = cmd_ignore cid name r
dispatch_command snap now cid (Command.peek id) r = cmd_peek cid id r
dispatch_command snap now cid Command.peek_ready r = cmd_peek_ready cid r
dispatch_command snap now cid Command.peek_delayed r = cmd_peek_delayed cid r
dispatch_command snap now cid Command.peek_buried r = cmd_peek_buried cid r
dispatch_command snap now cid (Command.kick n) r = cmd_kick now cid n r
dispatch_command snap now cid (Command.kick_job id) r = cmd_kick_job now cid id r
dispatch_command snap now cid (Command.stats_job id) r = cmd_stats_job now cid id r
dispatch_command snap now cid (Command.stats_tube name) r = cmd_stats_tube now cid name r
dispatch_command snap now cid Command.stats r = cmd_stats snap now cid r
dispatch_command snap now cid Command.list_tubes r = cmd_list_tubes cid r
dispatch_command snap now cid Command.list_tube_used r = cmd_list_tube_used cid r
dispatch_command snap now cid Command.list_tubes_watched r = cmd_list_tubes_watched cid r
dispatch_command snap now cid Command.quit r = r
dispatch_command snap now cid (Command.pause_tube name delay) r =
    cmd_pause_tube now cid name delay r
dispatch_command snap now cid Command.pause_tube_bad_name r = cmd_pause_tube_bad_name cid r

-- `snap` is what `SysInfo::snapshot` answers during the call; only `stats` reads it.
unfoldable pub handle : SysSnapshot → Nanos → ConnId → Command → Run → Run
unfolding dispatch_command
handle snap now cid cmd r =
    if Map.contains_key cid r.0.conns then dispatch_command snap now cid cmd r else r

unfoldable pub run_input : SysSnapshot → Nanos → EngineInput → Run → Run
run_input snap now (EngineInput.connect cid) r = on (connect cid) r
run_input snap now (EngineInput.disconnect cid) r = disconnect now cid r
run_input snap now (EngineInput.half_close cid) r = half_close cid r
run_input snap now (EngineInput.put_started cid too_big) r = on (put_started now cid too_big) r
run_input snap now (EngineInput.put_rejected cid why) r = put_rejected cid why r
run_input snap now (EngineInput.command cid cmd) r = handle snap now cid cmd r
run_input snap now EngineInput.tick r = r
run_input snap now (EngineInput.set_draining draining) r = on (set_draining draining) r

-- One input, then the tick.
unfoldable pub apply_input : SysSnapshot → Nanos → EngineInput → Run → Run
unfolding run_input
apply_input snap now input r = tick now (run_input snap now input r)
