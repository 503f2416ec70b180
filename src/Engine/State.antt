-- ===== src/Engine/State.antt =====
-- The `Engine` struct of crates/engine/src/engine.rs, its replies and its journal. The counters of
-- the struct stand in two records, `ct` and `ops`. `sys` is no field: the answer of
-- `SysInfo::snapshot` is an argument of what reads it.
use beanstalkd_rust.Base.{
  ℕ, Bool, true, Option, none, some, List, [], ◌∷◌, ◌++◌, get_elem?, set, if◌then◌else◌, ◌>>=◌,
}
use beanstalkd_rust.Engine.Ms.{Ms}
use beanstalkd_rust.Engine.Model.{
  Nanos, ConnId, TubeId, Outbox, LocalConns, owns, EngineConfig, RecordState, JobRecord,
  JournalEntry, BinlogStats, JobState, JobRec, TubeState, ConnState,
}
use beanstalkd_rust.Proto.Types.{JobId, TubeName, Response, default_tube}
use beanstalkd_rust.Std.Order.{nat_ord}
use beanstalkd_rust.Std.Map
use beanstalkd_rust.Std.Map.{Map}

-- The global counters.
pub record Counts : Type 0 where
  pub ready_ct : ℕ
  pub urgent_ct : ℕ
  pub reserved_ct : ℕ
  pub buried_ct : ℕ
  pub delayed_ct : ℕ
  pub waiting_ct : ℕ
  pub total_jobs_ct : ℕ
  pub timeout_ct : ℕ
  pub cur_conns : ℕ
  pub tot_conns : ℕ
  pub cur_producers : ℕ
  pub cur_workers : ℕ

-- `op_ct`, one counter for each command that `stats` reports.
pub record OpCounts : Type 0 where
  pub cmd_put : ℕ
  pub cmd_peek : ℕ
  pub cmd_peek_ready : ℕ
  pub cmd_peek_delayed : ℕ
  pub cmd_peek_buried : ℕ
  pub cmd_reserve : ℕ
  pub cmd_reserve_with_timeout : ℕ
  pub cmd_delete : ℕ
  pub cmd_release : ℕ
  pub cmd_use : ℕ
  pub cmd_watch : ℕ
  pub cmd_ignore : ℕ
  pub cmd_bury : ℕ
  pub cmd_kick : ℕ
  pub cmd_touch : ℕ
  pub cmd_stats : ℕ
  pub cmd_stats_job : ℕ
  pub cmd_stats_tube : ℕ
  pub cmd_list_tubes : ℕ
  pub cmd_list_tube_used : ℕ
  pub cmd_list_tubes_watched : ℕ
  pub cmd_pause_tube : ℕ

pub record Engine : Type 0 where
  pub cfg : EngineConfig
  pub start : Nanos
  pub draining : Bool
  pub next_job_id : JobId
  pub jobs : Map JobId JobRec
  pub next_list_seq : ℕ
  pub tubes : List (Option TubeState)
  pub free_tube_ids : List TubeId
  pub tube_ids : Map TubeName TubeId
  pub tube_order : Ms TubeId
  pub conns : Map ConnId ConnState
  pub conn_ticks : List (Nanos × ConnId)
  pub delay_heads : List (Nanos × TubeId)
  pub pauses : List (Nanos × TubeId)
  pub dispatchable : List TubeId
  pub ct : Counts
  pub ops : OpCounts
  pub journal : List JournalEntry
  pub binlog : BinlogStats
  pub local_conns : Option LocalConns

-- An engine with the replies that it has produced so far: what `&mut self` and `out` hold.
abbrev pub Run : Type 0
Run = Engine × Outbox

-- A method without `out`, in a run.
abbrev pub on : (Engine → Engine) → Run → Run
on f r = (f r.0, r.1)

unfoldable pub job : JobId → Engine → Option JobRec
job id e = Map.get id e.jobs

unfoldable pub conn : ConnId → Engine → Option ConnState
conn cid e = Map.get cid e.conns

-- `if let Some(j) = self.jobs.get_mut(&id) { … }`, and so for connections.
unfoldable pub modify_job : JobId → (JobRec → JobRec) → Engine → Engine
modify_job id f e = record e { jobs = Map.modify id f e.jobs }

unfoldable pub modify_conn : ConnId → (ConnState → ConnState) → Engine → Engine
modify_conn cid f e = record e { conns = Map.modify cid f e.conns }

-- `Engine::tube`
unfoldable pub tube : TubeId → Engine → Option TubeState
tube id e = do t ← get_elem? e.tubes id; t

-- Applies `f` in a live slot.
abbrev pub modify_slot :
    List (Option TubeState) → TubeId → (TubeState → TubeState) → List (Option TubeState)
modify_slot ts id f = elim (get_elem? ts id) [ some (some t) ↦ set ts id (some (f t)) | _ ↦ ts ]

-- `if let Some(t) = self.tube_mut(id) { … }`
unfoldable pub modify_tube : TubeId → (TubeState → TubeState) → Engine → Engine
modify_tube id f e = record e { tubes = modify_slot e.tubes id f }

unfoldable pub tube_name : TubeId → Engine → TubeName
unfolding tube
tube_name id e = elim (tube id e) [ none ↦ default_tube | some t ↦ t.name ]

unfoldable pub wants_reply : ConnId → Engine → Bool
wants_reply cid e = elim e.local_conns [ none ↦ true | some l ↦ owns l cid ]

-- `reply` and `reply_with`: they differ only in when the response is built.
unfoldable pub reply : ConnId → Response → Run → Run
unfolding wants_reply
reply cid r run = if wants_reply cid run.0 then (run.0, run.1 ++ (cid, r) ∷ []) else run

-- The persistent state of a job; a reserved job is recorded as ready.
record_state : JobState → Nanos → RecordState × Nanos
record_state JobState.ready d = (RecordState.ready, 0)
record_state JobState.reserved d = (RecordState.ready, 0)
record_state JobState.delayed d = (RecordState.delayed, d)
record_state JobState.buried d = (RecordState.buried, 0)

unfoldable pub job_record : JobRec → JobRecord
unfolding record_state
job_record j = record {
  id = j.id;
  pri = j.pri;
  delay = j.delay;
  ttr = j.ttr;
  created_at = j.created_at;
  deadline_at = (record_state j.state j.deadline_at).1;
  state = (record_state j.state j.deadline_at).0;
  reserve_ct = j.reserve_ct;
  timeout_ct = j.timeout_ct;
  release_ct = j.release_ct;
  bury_ct = j.bury_ct;
  kick_ct = j.kick_ct;
}

push_entry : JournalEntry → Engine → Engine
push_entry entry e = record e { journal = e.journal ++ entry ∷ [] }

unfoldable pub journal_put : JobId → Engine → Engine
unfolding push_entry
journal_put id e =
    if e.cfg.journal
    then elim (job id e) [
      | none ↦ e
      | some j ↦ push_entry (JournalEntry.put (job_record j) (tube_name j.tube e) j.body) e
    ]
    else e

unfoldable pub journal_update : JobId → Engine → Engine
unfolding push_entry
journal_update id e =
    if e.cfg.journal
    then elim (job id e) [ none ↦ e | some j ↦ push_entry (JournalEntry.update (job_record j)) e ]
    else e

unfoldable pub journal_delete : JobId → Engine → Engine
unfolding push_entry
journal_delete id e = if e.cfg.journal then push_entry (JournalEntry.delete id) e else e

-- `take_journal`: the entries, moved to the end of the caller's buffer.
unfoldable pub take_journal : Engine → List JournalEntry → Engine × List JournalEntry
take_journal e buf = (record e { journal = [] }, buf ++ e.journal)

unfoldable pub set_draining : Bool → Engine → Engine
set_draining on e = record e { draining = on }

unfoldable pub set_binlog_stats : BinlogStats → Engine → Engine
set_binlog_stats stats e = record e { binlog = stats }

unfoldable pub set_local_conns : Option LocalConns → Engine → Engine
set_local_conns l e = record e { local_conns = l }
