-- ===== src/Engine/Reserve.antt =====
-- engine.rs: reservations (`do_reserve`, `do_unreserve`) and the wait lists
-- (`enqueue_waiting_conn`, `do_remove_waiting_conn`).
use beanstalkd_rust.Base.{
  ℕ, ◌-◌, ◌*◌, Bool, true, false, Option, none, some, List, [], ◌∷◌, if◌then◌else◌, incr64, incr32,
  saturating_add, any, not, is_empty, leb,
}
use beanstalkd_rust.Engine.Ms
use beanstalkd_rust.Engine.Model.{
  Nanos, ConnId, TubeId, JobState, JobRec, TubeState, ConnState, nanos_per_sec, safety_margin,
  soonest_reserved,
}
use beanstalkd_rust.Engine.State.{Engine, job, conn, tube, modify_job, modify_conn, modify_tube}
use beanstalkd_rust.Engine.Tubes.{refresh_conn_tick, refresh_dispatchable}
use beanstalkd_rust.Engine.Indexes.{modify_ct, modify_stat, maps_to}
use beanstalkd_rust.Proto.Types.{JobId}
use beanstalkd_rust.Std.Order.{nat_ord, pair_ord}
use beanstalkd_rust.Std.Set
use beanstalkd_rust.Std.Map

-- `now.saturating_add((secs as Nanos) * NANOS_PER_SEC)`; the product of a `u32` fits in a `u64`.
unfoldable pub after_secs : Nanos → ℕ → Nanos
after_secs now secs = saturating_add now (secs * nanos_per_sec)

unfoldable pub take_job : ConnId → Nanos → ℕ → JobRec → JobRec
take_job cid deadline seq j = record j {
  state = JobState.reserved;
  reserver = some cid;
  deadline_at = deadline;
  reserve_ct = incr32 j.reserve_ct;
  list_seq = seq;
}

unfoldable pub hold : ℕ → Nanos → JobId → ConnState → ConnState
hold seq deadline id c = record c {
  reserved = Map.insert seq id c.reserved;
  reserved_by_deadline = Set.insert (deadline, id) c.reserved_by_deadline;
}

unfoldable pub do_reserve : ConnId → JobId → Nanos → Engine → Engine
unfolding take_job hold modify_ct modify_stat
do_reserve cid id now e = elim (job id e) [
  | none ↦ e
  | some j ↦
      let deadline = after_secs now j.ttr in
      let seq = e.next_list_seq in
      let numbered = record e { next_list_seq = incr64 e.next_list_seq } in
      let taken = modify_job id (take_job cid deadline seq) numbered in
      let held = modify_conn cid (hold seq deadline id) taken in
      let counted = modify_ct (λ c. record c { reserved_ct = incr64 c.reserved_ct }) held in
      refresh_conn_tick cid (
        modify_tube j.tube (modify_stat (λ s. record s { reserved_ct = incr64 s.reserved_ct }))
          counted)
]

-- The reservation of job `id` under `seq` and `deadline` leaves the connection's lists.
unhold : ℕ → Nanos → JobId → ConnState → ConnState
unhold seq deadline id c = record c {
  reserved = if maps_to seq id c.reserved then Map.remove seq c.reserved else c.reserved;
  reserved_by_deadline = Set.remove (deadline, id) c.reserved_by_deadline;
}

-- What `do_unreserve` does for a job that is not there.
unhold_missing : JobId → ConnState → ConnState
unhold_missing id c = record c { reserved_by_deadline = Set.remove (0, id) c.reserved_by_deadline }

unfoldable pub do_unreserve : ConnId → JobId → Engine → Engine
unfolding unhold unhold_missing modify_ct modify_stat
do_unreserve cid id e = elim (job id e) [
  | none ↦ refresh_conn_tick cid (
      modify_ct (λ c. record c { reserved_ct = c.reserved_ct - 1 })
        (modify_conn cid (unhold_missing id) e))
  | some j ↦
      let freed = modify_job id (λ j. record j { reserver = none }) e in
      let dropped = modify_conn cid (unhold j.list_seq j.deadline_at id) freed in
      let counted = modify_ct (λ c. record c { reserved_ct = c.reserved_ct - 1 }) dropped in
      refresh_conn_tick cid (
        modify_tube j.tube (modify_stat (λ s. record s { reserved_ct = s.reserved_ct - 1 }))
          counted)
]

-- `for &t in &watched.items { … }`
unfoldable pub for_tubes : (TubeId → Engine → Engine) → List TubeId → Engine → Engine
for_tubes body [] e = e
for_tubes body (t ∷ ts) e = for_tubes body ts (body t e)

add_waiter : ConnId → TubeState → TubeState
unfolding modify_stat
add_waiter cid t =
    modify_stat (λ s. record s { waiting_ct = incr64 s.waiting_ct })
      (record t { waiting_conns = Ms.append cid t.waiting_conns })

join_tube : ConnId → TubeId → Engine → Engine
unfolding add_waiter
join_tube cid t e = refresh_dispatchable t (modify_tube t (add_waiter cid) e)

-- The source takes the watch list out of the connection during the loop; nothing reads it there.
unfoldable pub enqueue_waiting_conn : ConnId → Option Nanos → Engine → Engine
unfolding join_tube for_tubes modify_ct
enqueue_waiting_conn cid wait_deadline e = elim (conn cid e) [
  | none ↦ e
  | some c ↦
      let marked =
        modify_conn cid (λ c. record c { waiting = true; wait_deadline = wait_deadline }) e in
      let counted = modify_ct (λ n. record n { waiting_ct = incr64 n.waiting_ct }) marked in
      refresh_conn_tick cid (for_tubes (join_tube cid) c.watch.items counted)
]

drop_waiter : ConnId → TubeState → TubeState
unfolding modify_stat
drop_waiter cid t =
    modify_stat (λ s. record s { waiting_ct = s.waiting_ct - 1 })
      (record t { waiting_conns = Ms.remove cid t.waiting_conns })

leave_tube : ConnId → TubeId → Engine → Engine
unfolding drop_waiter
leave_tube cid t e = refresh_dispatchable t (modify_tube t (drop_waiter cid) e)

unfoldable pub do_remove_waiting_conn : ConnId → Engine → Engine
unfolding leave_tube for_tubes modify_ct
do_remove_waiting_conn cid e = elim (conn cid e) [
  | none ↦ e
  | some c ↦
      let marked = modify_conn cid (λ c. record c { waiting = false; wait_deadline = none }) e in
      let counted = modify_ct (λ n. record n { waiting_ct = n.waiting_ct - 1 }) marked in
      let left = refresh_conn_tick cid (for_tubes (leave_tube cid) c.watch.items counted) in
      if c.waiting then left else e
]

-- `self.conns.get(&cid).map(|c| c.waiting).unwrap_or(false)`
unfoldable pub is_waiting : ConnId → Engine → Bool
is_waiting cid e = elim (conn cid e) [ none ↦ false | some c ↦ c.waiting ]

unfoldable pub conn_deadline_soon : ConnId → Nanos → Engine → Bool
unfolding soonest_reserved
conn_deadline_soon cid now e = elim (conn cid e) [
  | none ↦ false
  | some c ↦ elim (soonest_reserved c) [
    | none ↦ false
    | some (deadline, id) ↦ leb (deadline - safety_margin) now
  ]
]

has_ready : Engine → TubeId → Bool
has_ready e t = elim (tube t e) [ none ↦ false | some ts ↦ not (is_empty ts.ready) ]

unfoldable pub conn_ready : ConnId → Engine → Bool
unfolding has_ready
conn_ready cid e = elim (conn cid e) [ none ↦ false | some c ↦ any (has_ready e) c.watch.items ]

unfoldable pub connsetproducer : ConnId → Engine → Engine
unfolding modify_ct
connsetproducer cid e = elim (conn cid e) [
  | none ↦ e
  | some c ↦
      if c.is_producer
      then e
      else modify_ct (λ n. record n { cur_producers = incr32 n.cur_producers })
          (modify_conn cid (λ c. record c { is_producer = true }) e)
]

unfoldable pub connsetworker : ConnId → Engine → Engine
unfolding modify_ct
connsetworker cid e = elim (conn cid e) [
  | none ↦ e
  | some c ↦
      if c.is_worker
      then e
      else modify_ct (λ n. record n { cur_workers = incr32 n.cur_workers })
          (modify_conn cid (λ c. record c { is_worker = true }) e)
]
