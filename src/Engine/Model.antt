-- ===== src/Engine/Model.antt =====
-- crates/engine/src/model.rs and the public types of crates/engine/src/lib.rs.
use beanstalkd_rust.Base.{
  ℕ, ◌+◌, ◌*◌, ◌^◌, ◌/◌, Bool, false, Option, none, List, [], Bytes, ◌==◌, codes, first,
}
use beanstalkd_rust.Engine.Ms
use beanstalkd_rust.Engine.Ms.{Ms}
use beanstalkd_rust.Proto.Types.{
  JobId, TubeName, Response, Command, PutRejection, default_max_job_size,
}
use beanstalkd_rust.Proto.Stats.{StatsServer, StatsTube}
use beanstalkd_rust.Std.Map.{Map}

abbrev pub Nanos : Type 0
Nanos = ℕ

abbrev pub ConnId : Type 0
ConnId = ℕ

abbrev pub TubeId : Type 0
TubeId = ℕ

abbrev pub nanos_per_sec : Nanos
nanos_per_sec = 1_000_000_000

-- `SAFETY_MARGIN`
abbrev pub safety_margin : Nanos
safety_margin = nanos_per_sec

abbrev pub Outbox : Type 0
Outbox = List (ConnId × Response)

pub record LocalConns : Type 0 where
  pub node_shift : ℕ
  pub node : ℕ

-- `LocalConns::owns`; `>>` is a division by a power of two.
unfoldable pub owns : LocalConns → ConnId → Bool
owns l conn = conn / 2 ^ l.node_shift == l.node

pub record SysSnapshot : Type 0 where
  pub pid : ℕ
  pub version : Bytes
  pub rusage_utime : ℕ × ℕ
  pub rusage_stime : ℕ × ℕ
  pub id : Bytes
  pub hostname : Bytes
  pub os : Bytes
  pub platform : Bytes

pub record EngineConfig : Type 0 where
  pub max_job_size : ℕ
  pub binlog_max_size : ℕ
  pub journal : Bool

-- `EngineConfig::default`
unfoldable pub default_config : EngineConfig
default_config = record {
  max_job_size = default_max_job_size;
  binlog_max_size = 10 * 2 ^ 20;
  journal = false;
}

pub data RecordState : Type 0 where
  ready delayed buried : RecordState

pub record JobRecord : Type 0 where
  pub id : JobId
  pub pri : ℕ
  pub delay : ℕ
  pub ttr : ℕ
  pub created_at : Nanos
  pub deadline_at : Nanos
  pub state : RecordState
  pub reserve_ct : ℕ
  pub timeout_ct : ℕ
  pub release_ct : ℕ
  pub bury_ct : ℕ
  pub kick_ct : ℕ

pub data JournalEntry : Type 0 where
  put : JobRecord → TubeName → Bytes → JournalEntry
  update : JobRecord → JournalEntry
  delete : JobId → JournalEntry

pub record RecoveredJob : Type 0 where
  pub job : JobRecord
  pub tube : TubeName
  pub body : Bytes

pub record Recovery : Type 0 where
  pub jobs : List RecoveredJob
  pub next_id : JobId
  pub tube_order : List TubeName

pub record BinlogStats : Type 0 where
  pub oldest_index : ℕ
  pub current_index : ℕ
  pub records_written : ℕ
  pub records_migrated : ℕ

pub record Snapshot : Type 0 where
  pub server : StatsServer
  pub tubes : List StatsTube

pub data EngineInput : Type 0 where
  connect : ConnId → EngineInput
  disconnect : ConnId → EngineInput
  half_close : ConnId → EngineInput
  put_started : ConnId → Bool → EngineInput
  put_rejected : ConnId → PutRejection → EngineInput
  command : ConnId → Command → EngineInput
  tick : EngineInput
  set_draining : Bool → EngineInput

pub data JobState : Type 0 where
  ready reserved delayed buried : JobState

pub record JobRec : Type 0 where
  pub id : JobId
  pub tube : TubeId
  pub pri : ℕ
  pub delay : ℕ
  pub ttr : ℕ
  pub body : Bytes
  pub created_at : Nanos
  pub deadline_at : Nanos
  pub state : JobState
  pub reserver : Option ConnId
  pub list_seq : ℕ
  pub reserve_ct : ℕ
  pub timeout_ct : ℕ
  pub release_ct : ℕ
  pub bury_ct : ℕ
  pub kick_ct : ℕ
  pub file : ℕ

-- `JobRec::state_name`
unfoldable pub state_name : JobState → Bytes
state_name JobState.ready = codes "ready"
state_name JobState.reserved = codes "reserved"
state_name JobState.delayed = codes "delayed"
state_name JobState.buried = codes "buried"

pub record TubeStat : Type 0 where
  pub urgent_ct : ℕ
  pub buried_ct : ℕ
  pub reserved_ct : ℕ
  pub waiting_ct : ℕ
  pub pause_ct : ℕ
  pub total_delete_ct : ℕ
  pub total_jobs_ct : ℕ

pub record TubeState : Type 0 where
  pub name : TubeName
  pub ready : List (ℕ × JobId)
  pub delayed : List (Nanos × JobId)
  pub buried : Map ℕ JobId
  pub waiting_conns : Ms ConnId
  pub using_ct : ℕ
  pub watching_ct : ℕ
  pub job_ref_ct : ℕ
  pub stat : TubeStat
  pub pause : Nanos
  pub unpause_at : Nanos
  pub pos : ℕ
  pub delay_head : Option Nanos
  pub dispatchable : Bool

-- `TubeState::new`
unfoldable pub new_tube : TubeName → ℕ → TubeState
new_tube name pos = record {
  name = name;
  ready = [];
  delayed = [];
  buried = [];
  waiting_conns = Ms.new;
  using_ct = 0;
  watching_ct = 0;
  job_ref_ct = 0;
  stat = record {
    urgent_ct = 0;
    buried_ct = 0;
    reserved_ct = 0;
    waiting_ct = 0;
    pause_ct = 0;
    total_delete_ct = 0;
    total_jobs_ct = 0;
  };
  pause = 0;
  unpause_at = 0;
  pos = pos;
  delay_head = none;
  dispatchable = false;
}

-- `TubeState::refs`
unfoldable pub refs : TubeState → ℕ
refs t = t.using_ct + t.watching_ct + t.job_ref_ct

pub record PendingPut : Type 0 where
  pub id : Option JobId
  pub created_at : Nanos

pub record ConnState : Type 0 where
  pub use_tube : TubeId
  pub watch : Ms TubeId
  pub is_producer : Bool
  pub is_worker : Bool
  pub waiting : Bool
  pub wait_deadline : Option Nanos
  pub reserved : Map ℕ JobId
  pub reserved_by_deadline : List (Nanos × JobId)
  pub pending_put : Option PendingPut
  pub tick_key : Option Nanos

-- `ConnState::new`
unfoldable pub new_conn : TubeId → ConnState
new_conn default = record {
  use_tube = default;
  watch = Ms.append default Ms.new;
  is_producer = false;
  is_worker = false;
  waiting = false;
  wait_deadline = none;
  reserved = [];
  reserved_by_deadline = [];
  pending_put = none;
  tick_key = none;
}

-- `ConnState::soonest_reserved`
unfoldable pub soonest_reserved : ConnState → Option (Nanos × JobId)
soonest_reserved c = first c.reserved_by_deadline
