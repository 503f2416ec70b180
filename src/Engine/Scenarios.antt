-- ===== src/Engine/Scenarios.antt =====
-- Runs of the engine on concrete inputs, and the states that the witnesses use.
use beanstalkd_rust.Base.{ℕ, ◌≡◌, refl, false, List, [], ◌∷◌, codes, incr64, incr32, saturating_add}
use beanstalkd_rust.Engine.Model.{EngineConfig, EngineInput, SysSnapshot, Nanos}
use beanstalkd_rust.Engine.State.{Run}
use beanstalkd_rust.Engine.Ms
use beanstalkd_rust.Engine.Model.{owns, state_name, new_tube, refs, new_conn, soonest_reserved}
use beanstalkd_rust.Engine.State.{
  job, conn, modify_job, modify_conn, tube, modify_tube, tube_name, wants_reply, reply, job_record,
  journal_put, journal_update, journal_delete, take_journal, set_draining, set_binlog_stats,
  set_local_conns,
}
use beanstalkd_rust.Engine.Tubes.{
  find_or_make_tube, remove_key, insert_key, gc_tube_if_orphan, refresh_dispatchable, same_key,
  refresh_delay_head, conn_tickat, refresh_conn_tick, clear_expired_pauses,
}
use beanstalkd_rust.Engine.Indexes.{
  modify_ct, modify_stat, insert_ready, pri_of, deadline_of, remove_ready, is_delayed,
  insert_delayed, remove_delayed, insert_buried, maps_to, remove_buried, pop_buried_front,
}
use beanstalkd_rust.Engine.Reserve.{
  after_secs, do_reserve, do_unreserve, for_tubes, enqueue_waiting_conn, do_remove_waiting_conn,
  is_waiting, conn_deadline_soon, conn_ready, connsetproducer, connsetworker,
}
use beanstalkd_rust.Engine.Queue.{
  beats, find_best, body_of, reserved_reply, take_waiter, give, assign, dispatch, total_ready,
  process_queue, find_head, soonest_delayed_job, kick_to_ready, use_tube_of, peek_used_tube,
  held_by, reserved_by,
}
use beanstalkd_rust.Engine.Tick.{
  expire_job, soonest_of, expire_jobs, wait_expired, end_wait, conn_timeout, next_deadline,
  ready_delayed, total_delayed, next_due, conn_timeouts, tick,
}
use beanstalkd_rust.Engine.Input.{
  new, connect, give_back_all, disconnect, half_close, handle, run_input, apply_input,
}
use beanstalkd_rust.Engine.Commands.Put.{
  modify_ops, bump_job_id, put_started, put_rejected, put_id, new_job, add_job, cmd_put,
}
use beanstalkd_rust.Engine.Commands.Tubes.{
  drop_use, cmd_use, watches, watch_len, cmd_watch, drop_watch, cmd_ignore, pause_nanos,
  count_pause, cmd_pause_tube, cmd_pause_tube_bad_name,
}
use beanstalkd_rust.Engine.Commands.Jobs.{
  cmd_reserve, unqueue, cmd_reserve_job, give_up, cmd_delete, cmd_release, cmd_bury, cmd_touch,
  kick_buried, kick_delayed, cmd_kick, cmd_kick_job,
}
use beanstalkd_rust.Engine.Commands.Info.{
  cmd_peek, cmd_peek_ready, cmd_peek_delayed, cmd_peek_buried, build_stats_job, stats_tube_of,
  build_stats_tube, cmd_stats_job, cmd_stats_tube, cmd_stats, tube_names, watched_tube_names,
  cmd_list_tubes, cmd_list_tube_used, cmd_list_tubes_watched, snapshot_limited,
}
use beanstalkd_rust.Std.Map
use beanstalkd_rust.Std.Set
use beanstalkd_rust.Proto.Types.{Command, Response}

abbrev pub no_info : SysSnapshot
no_info = record {
  pid = 1;
  version = codes "0.5.0";
  rusage_utime = (0, 0);
  rusage_stime = (0, 0);
  id = codes "a";
  hostname = codes "h";
  os = codes "os";
  platform = codes "p";
}

abbrev pub small_config : EngineConfig
small_config = record { max_job_size = 65535; binlog_max_size = 10485760; journal = false }

unfoldable pub run_inputs : Nanos → List EngineInput → Run → Run
unfolding Ms.pop Ms.swap_remove Ms.new Ms.append Ms.remove_at Ms.take Ms.clear_in_delete_order
    Ms.position Ms.remove_item Ms.remove Ms.has owns state_name new_tube refs new_conn
    soonest_reserved job conn modify_job modify_conn tube modify_tube tube_name wants_reply reply
    job_record journal_put journal_update journal_delete take_journal set_draining set_binlog_stats
    set_local_conns find_or_make_tube remove_key insert_key gc_tube_if_orphan refresh_dispatchable
    same_key refresh_delay_head conn_tickat refresh_conn_tick clear_expired_pauses modify_ct
    modify_stat insert_ready pri_of deadline_of remove_ready is_delayed insert_delayed
    remove_delayed insert_buried maps_to remove_buried pop_buried_front after_secs do_reserve
    do_unreserve for_tubes enqueue_waiting_conn do_remove_waiting_conn is_waiting conn_deadline_soon
    conn_ready connsetproducer connsetworker beats find_best body_of reserved_reply take_waiter give
    assign dispatch total_ready process_queue find_head soonest_delayed_job kick_to_ready
    use_tube_of peek_used_tube held_by reserved_by expire_job soonest_of expire_jobs wait_expired
    end_wait conn_timeout next_deadline ready_delayed total_delayed next_due conn_timeouts tick new
    connect give_back_all disconnect half_close handle run_input apply_input modify_ops bump_job_id
    put_started put_rejected put_id new_job add_job cmd_put drop_use cmd_use watches watch_len
    cmd_watch drop_watch cmd_ignore pause_nanos count_pause cmd_pause_tube cmd_pause_tube_bad_name
    cmd_reserve unqueue cmd_reserve_job give_up cmd_delete cmd_release cmd_bury cmd_touch
    kick_buried kick_delayed cmd_kick cmd_kick_job cmd_peek cmd_peek_ready cmd_peek_delayed
    cmd_peek_buried build_stats_job stats_tube_of build_stats_tube cmd_stats_job cmd_stats_tube
    cmd_stats tube_names watched_tube_names cmd_list_tubes cmd_list_tube_used cmd_list_tubes_watched
    snapshot_limited incr64 incr32 saturating_add Map.get Map.insert Map.remove Map.modify
    Set.contains Set.insert Set.remove
run_inputs now [] r = r
run_inputs now (i ∷ is) r = run_inputs now is (apply_input no_info now i r)

abbrev pub fresh : Run
fresh = (new 0 small_config, [])

cmd : ℕ → Command → EngineInput
cmd = EngineInput.command

abbrev pub body : List ℕ
body = codes "hi"

-- A put that wakes a waiting connection, a second job of higher priority, and a delete.
script : List EngineInput
unfolding cmd
script =
    EngineInput.connect 1
    ∷ EngineInput.connect 2
    ∷ cmd 2 Command.reserve
    ∷ cmd 1 (Command.put 10 0 60 body)
    ∷ cmd 1 (Command.put 9 0 60 body)
    ∷ cmd 1 (Command.put 8 0 60 body)
    ∷ cmd 2 Command.reserve
    ∷ cmd 2 (Command.delete 1)
    ∷ EngineInput.disconnect 2
    ∷ cmd 1 Command.peek_ready
    ∷ []

script_runs :
    (run_inputs 5 script fresh).1
    ≡ (2, Response.reserved 1 body)
      ∷ (1, Response.inserted 1)
      ∷ (1, Response.inserted 2)
      ∷ (1, Response.inserted 3)
      ∷ (2, Response.reserved 3 body)
      ∷ (2, Response.deleted)
      ∷ (1, Response.found 3 body)
      ∷ []
unfolding script run_inputs
script_runs = refl
