-- ===== src/Proto/Stats.antt =====
-- crates/proto/src/stats.rs: the payloads of stats, stats-job, stats-tube and the list commands.
use beanstalkd_rust.Base.{ℕ, Bool, ◌≡◌, refl, List, [], ◌∷◌, ◌++◌, Bytes, codes, if◌then◌else◌}
use beanstalkd_rust.Proto.Types.{TubeName}
use beanstalkd_rust.Proto.Decimal.{decimal, decimal6}

pub record StatsJob : Type 0 where
  pub id : ℕ
  pub tube : TubeName
  pub state : Bytes
  pub pri : ℕ
  pub age : ℕ
  pub delay : ℕ
  pub ttr : ℕ
  pub time_left : ℕ
  pub file : ℕ
  pub reserves : ℕ
  pub timeouts : ℕ
  pub releases : ℕ
  pub buries : ℕ
  pub kicks : ℕ

pub record StatsTube : Type 0 where
  pub name : TubeName
  pub current_jobs_urgent : ℕ
  pub current_jobs_ready : ℕ
  pub current_jobs_reserved : ℕ
  pub current_jobs_delayed : ℕ
  pub current_jobs_buried : ℕ
  pub total_jobs : ℕ
  pub current_using : ℕ
  pub current_watching : ℕ
  pub current_waiting : ℕ
  pub cmd_delete : ℕ
  pub cmd_pause_tube : ℕ
  pub pause : ℕ
  pub pause_time_left : ℕ

pub record StatsServer : Type 0 where
  pub current_jobs_urgent : ℕ
  pub current_jobs_ready : ℕ
  pub current_jobs_reserved : ℕ
  pub current_jobs_delayed : ℕ
  pub current_jobs_buried : ℕ
  pub cmd_put : ℕ
  pub cmd_peek : ℕ
  pub cmd_peek_ready : ℕ
  pub cmd_peek_delayed : ℕ
  pub cmd_peek_buried : ℕ
  pub cmd_reserve : ℕ
  pub cmd_reserve_with_timeout : ℕ
  pub cmd_delete : ℕ
  pub cmd_release : ℕ
  pub cmd_use : ℕ
  pub cmd_watch : ℕ
  pub cmd_ignore : ℕ
  pub cmd_bury : ℕ
  pub cmd_kick : ℕ
  pub cmd_touch : ℕ
  pub cmd_stats : ℕ
  pub cmd_stats_job : ℕ
  pub cmd_stats_tube : ℕ
  pub cmd_list_tubes : ℕ
  pub cmd_list_tube_used : ℕ
  pub cmd_list_tubes_watched : ℕ
  pub cmd_pause_tube : ℕ
  pub job_timeouts : ℕ
  pub total_jobs : ℕ
  pub max_job_size : ℕ
  pub current_tubes : ℕ
  pub current_connections : ℕ
  pub current_producers : ℕ
  pub current_workers : ℕ
  pub current_waiting : ℕ
  pub total_connections : ℕ
  pub pid : ℕ
  pub version : Bytes
  pub rusage_utime : ℕ × ℕ
  pub rusage_stime : ℕ × ℕ
  pub uptime : ℕ
  pub binlog_oldest_index : ℕ
  pub binlog_current_index : ℕ
  pub binlog_records_migrated : ℕ
  pub binlog_records_written : ℕ
  pub binlog_max_size : ℕ
  pub draining : Bool
  pub id : Bytes
  pub hostname : Bytes
  pub os : Bytes
  pub platform : Bytes

-- One line of a format string, with a number, a quoted text, or a text.
num : Bytes → ℕ → Bytes
num name n = name ++ codes ": " ++ decimal n ++ codes "\n"

quoted : Bytes → Bytes → Bytes
quoted name s = name ++ codes ": \"" ++ s ++ codes "\"\n"

plain : Bytes → Bytes → Bytes
plain name s = name ++ codes ": " ++ s ++ codes "\n"

-- `{}.{:06}`
seconds : Bytes → ℕ × ℕ → Bytes
seconds name t = name ++ codes ": " ++ decimal t.0 ++ codes "." ++ decimal6 t.1 ++ codes "\n"

-- `StatsJob::to_yaml`
unfoldable pub stats_job_yaml : StatsJob → Bytes
unfolding num quoted plain seconds
stats_job_yaml s =
    codes "---\n"
    ++ num (codes "id") s.id
    ++ quoted (codes "tube") s.tube
    ++ plain (codes "state") s.state
    ++ num (codes "pri") s.pri
    ++ num (codes "age") s.age
    ++ num (codes "delay") s.delay
    ++ num (codes "ttr") s.ttr
    ++ num (codes "time-left") s.time_left
    ++ num (codes "file") s.file
    ++ num (codes "reserves") s.reserves
    ++ num (codes "timeouts") s.timeouts
    ++ num (codes "releases") s.releases
    ++ num (codes "buries") s.buries
    ++ num (codes "kicks") s.kicks

-- `StatsTube::to_yaml`
unfoldable pub stats_tube_yaml : StatsTube → Bytes
unfolding num quoted plain seconds
stats_tube_yaml s =
    codes "---\n"
    ++ quoted (codes "name") s.name
    ++ num (codes "current-jobs-urgent") s.current_jobs_urgent
    ++ num (codes "current-jobs-ready") s.current_jobs_ready
    ++ num (codes "current-jobs-reserved") s.current_jobs_reserved
    ++ num (codes "current-jobs-delayed") s.current_jobs_delayed
    ++ num (codes "current-jobs-buried") s.current_jobs_buried
    ++ num (codes "total-jobs") s.total_jobs
    ++ num (codes "current-using") s.current_using
    ++ num (codes "current-watching") s.current_watching
    ++ num (codes "current-waiting") s.current_waiting
    ++ num (codes "cmd-delete") s.cmd_delete
    ++ num (codes "cmd-pause-tube") s.cmd_pause_tube
    ++ num (codes "pause") s.pause
    ++ num (codes "pause-time-left") s.pause_time_left

-- `StatsServer::to_yaml`
unfoldable pub stats_server_yaml : StatsServer → Bytes
unfolding num quoted plain seconds
stats_server_yaml s =
    codes "---\n"
    ++ num (codes "current-jobs-urgent") s.current_jobs_urgent
    ++ num (codes "current-jobs-ready") s.current_jobs_ready
    ++ num (codes "current-jobs-reserved") s.current_jobs_reserved
    ++ num (codes "current-jobs-delayed") s.current_jobs_delayed
    ++ num (codes "current-jobs-buried") s.current_jobs_buried
    ++ num (codes "cmd-put") s.cmd_put
    ++ num (codes "cmd-peek") s.cmd_peek
    ++ num (codes "cmd-peek-ready") s.cmd_peek_ready
    ++ num (codes "cmd-peek-delayed") s.cmd_peek_delayed
    ++ num (codes "cmd-peek-buried") s.cmd_peek_buried
    ++ num (codes "cmd-reserve") s.cmd_reserve
    ++ num (codes "cmd-reserve-with-timeout") s.cmd_reserve_with_timeout
    ++ num (codes "cmd-delete") s.cmd_delete
    ++ num (codes "cmd-release") s.cmd_release
    ++ num (codes "cmd-use") s.cmd_use
    ++ num (codes "cmd-watch") s.cmd_watch
    ++ num (codes "cmd-ignore") s.cmd_ignore
    ++ num (codes "cmd-bury") s.cmd_bury
    ++ num (codes "cmd-kick") s.cmd_kick
    ++ num (codes "cmd-touch") s.cmd_touch
    ++ num (codes "cmd-stats") s.cmd_stats
    ++ num (codes "cmd-stats-job") s.cmd_stats_job
    ++ num (codes "cmd-stats-tube") s.cmd_stats_tube
    ++ num (codes "cmd-list-tubes") s.cmd_list_tubes
    ++ num (codes "cmd-list-tube-used") s.cmd_list_tube_used
    ++ num (codes "cmd-list-tubes-watched") s.cmd_list_tubes_watched
    ++ num (codes "cmd-pause-tube") s.cmd_pause_tube
    ++ num (codes "job-timeouts") s.job_timeouts
    ++ num (codes "total-jobs") s.total_jobs
    ++ num (codes "max-job-size") s.max_job_size
    ++ num (codes "current-tubes") s.current_tubes
    ++ num (codes "current-connections") s.current_connections
    ++ num (codes "current-producers") s.current_producers
    ++ num (codes "current-workers") s.current_workers
    ++ num (codes "current-waiting") s.current_waiting
    ++ num (codes "total-connections") s.total_connections
    ++ num (codes "pid") s.pid
    ++ quoted (codes "version") s.version
    ++ seconds (codes "rusage-utime") s.rusage_utime
    ++ seconds (codes "rusage-stime") s.rusage_stime
    ++ num (codes "uptime") s.uptime
    ++ num (codes "binlog-oldest-index") s.binlog_oldest_index
    ++ num (codes "binlog-current-index") s.binlog_current_index
    ++ num (codes "binlog-records-migrated") s.binlog_records_migrated
    ++ num (codes "binlog-records-written") s.binlog_records_written
    ++ num (codes "binlog-max-size") s.binlog_max_size
    ++ plain (codes "draining") (if s.draining then codes "true" else codes "false")
    ++ plain (codes "id") s.id
    ++ quoted (codes "hostname") s.hostname
    ++ quoted (codes "os") s.os
    ++ quoted (codes "platform") s.platform

-- The loop of `yaml_list`.
push_names : List TubeName → Bytes → Bytes
push_names [] s = s
push_names (name ∷ names) s = push_names names (s ++ codes "- " ++ name ++ codes "\n")

unfoldable pub yaml_list : List TubeName → Bytes
unfolding push_names
yaml_list names = push_names names (codes "---\n")

yaml_list_runs : yaml_list (codes "default" ∷ codes "mail" ∷ []) ≡ codes "---\n- default\n- mail\n"
unfolding yaml_list
yaml_list_runs = refl
