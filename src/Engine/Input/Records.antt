-- ===== src/Engine/Input/Records.antt =====
-- engine.rs: the operations that leave the job records alone, and what `do_reserve` does to them.
use beanstalkd_rust.Base.{
  ℕ, ◌≡◌, refl, Bool-cases, inl, inr, Option, some, Option-cases, first, incr64,
}
use mathlib.Core.Option
use beanstalkd_rust.Engine.Model.{ConnId, ConnState, TubeId, Nanos, JobRec, JobState, LocalConns}
use beanstalkd_rust.Engine.State.{Engine, job, conn, tube, modify_job, modify_conn, modify_tube}
use beanstalkd_rust.Engine.Tubes.{
  refresh_dispatchable, refresh_delay_head, refresh_conn_tick, same, wants_dispatch, same_key,
  conn_tickat,
}
use beanstalkd_rust.Engine.Indexes.{
  modify_ct, remove_ready, remove_delayed, remove_buried, is_delayed, deadline_of, maps_to,
}
use beanstalkd_rust.Engine.Reserve.{after_secs, take_job, do_reserve, connsetworker}
use beanstalkd_rust.Engine.Commands.Jobs.{unqueue}
use beanstalkd_rust.Proto.Types.{JobId}
use beanstalkd_rust.Std.Order.{nat_ord, pair_ord}
use beanstalkd_rust.Std.Map
use beanstalkd_rust.Std.Map.{Map, get-modify}

-- The job records, the next sequence number, and who gets replies.
abbrev pub Records : Type 0
Records = Map JobId JobRec × ℕ × Option LocalConns

abbrev pub records : Engine → Records
records e = (e.jobs, e.next_list_seq, e.local_conns)

-- These, and the connections.
abbrev pub kept : Engine → Records × Map ConnId ConnState
kept e = (records e, e.conns)

pub refresh_dispatchable-kept :
    (tid : TubeId) (e : Engine) → kept (refresh_dispatchable tid e) ≡ kept e
unfolding refresh_dispatchable modify_tube
refresh_dispatchable-kept tid e = elim (Option-cases (tube tid e)) [
  | inl n ↦ rw (refresh_dispatchable, n)
  | inr (t, h) ↦ elim (Bool-cases (same (wants_dispatch t) t.dispatchable)) [
    | inl b ↦ rw (refresh_dispatchable, h, b)
    | inr b ↦ rw (refresh_dispatchable, h, b)
  ]
]

pub refresh_delay_head-kept : (tid : TubeId) (e : Engine) → kept (refresh_delay_head tid e) ≡ kept e
unfolding refresh_delay_head modify_tube
refresh_delay_head-kept tid e = elim (Option-cases (tube tid e)) [
  | inl n ↦ rw (refresh_delay_head, n)
  | inr (t, h) ↦
      elim (Bool-cases
        (same_key (Option.map (λ (p : Nanos × ℕ). p.0) (first t.delayed)) t.delay_head)) [
          | inl b ↦ rw (refresh_delay_head, h, b)
          | inr b ↦ rw (refresh_delay_head, h, b)
        ]
]

pub refresh_conn_tick-records :
    (cid : ConnId) (e : Engine) → records (refresh_conn_tick cid e) ≡ records e
unfolding refresh_conn_tick modify_conn
refresh_conn_tick-records cid e = elim (Option-cases (conn cid e)) [
  | inl n ↦ rw (refresh_conn_tick, n)
  | inr (c, h) ↦ elim (Bool-cases (same_key (conn_tickat c) c.tick_key)) [
    | inl b ↦ rw (refresh_conn_tick, h, b)
    | inr b ↦ rw (refresh_conn_tick, h, b)
  ]
]

pub connsetworker-records : (cid : ConnId) (e : Engine) → records (connsetworker cid e) ≡ records e
unfolding connsetworker modify_conn modify_ct
connsetworker-records cid e = elim (Option-cases (conn cid e)) [
  | inl n ↦ rw (connsetworker, n)
  | inr (c, h) ↦ elim (Bool-cases c.is_worker) [
    | inl t ↦ rw (connsetworker, h, t)
    | inr f ↦ rw (connsetworker, h, f)
  ]
]

pub remove_ready-kept :
    (tid : TubeId) (id : JobId) (e : Engine) → kept (remove_ready tid id e) ≡ kept e
unfolding remove_ready modify_ct modify_tube
remove_ready-kept tid id e = refresh_dispatchable-kept tid _

pub remove_delayed-kept :
    (tid : TubeId) (id : JobId) (e : Engine) → kept (remove_delayed tid id e) ≡ kept e
unfolding remove_delayed modify_ct modify_tube
remove_delayed-kept tid id e = elim (Bool-cases (is_delayed tid (deadline_of (job id e), id) e)) [
  | inl b ↦ rw (remove_delayed, b) (refresh_delay_head-kept tid _)
  | inr b ↦ rw (remove_delayed, b) (refresh_delay_head-kept tid _)
]

pub remove_buried-kept :
    (tid : TubeId) (id : JobId) (e : Engine) → kept (remove_buried tid id e) ≡ kept e
unfolding remove_buried modify_ct modify_tube
remove_buried-kept tid id e = elim (Option-cases (job id e)) [
  | inl n ↦ rw (remove_buried, n)
  | inr (j, h) ↦ elim (Option-cases (tube tid e)) [
    | inl n ↦ rw (remove_buried, h, n)
    | inr (t, k) ↦ elim (Bool-cases (maps_to j.list_seq id t.buried)) [
      | inl b ↦ rw (remove_buried, h, k, b)
      | inr b ↦ rw (remove_buried, h, k, b)
    ]
  ]
]

pub unqueue-kept :
    (s : JobState) (tid : TubeId) (id : JobId) (e : Engine) → kept (unqueue s tid id e) ≡ kept e
unfolding unqueue
unqueue-kept JobState.ready tid id e = remove_ready-kept tid id e
unqueue-kept JobState.buried tid id e = remove_buried-kept tid id e
unqueue-kept JobState.delayed tid id e = remove_delayed-kept tid id e
unqueue-kept JobState.reserved tid id e = refl

pub do_reserve-records :
    (cid : ConnId) (id : JobId) (now : Nanos) (e : Engine) (j : JobRec)
    → job id e ≡ some j
    → records (do_reserve cid id now e) ≡ (
      Map.modify id (take_job cid (after_secs now j.ttr) e.next_list_seq) e.jobs,
      incr64 e.next_list_seq,
      e.local_conns,
    )
unfolding do_reserve modify_job modify_conn modify_ct modify_tube
do_reserve-records cid id now e j h = rw (do_reserve, h) (refresh_conn_tick-records cid _)
