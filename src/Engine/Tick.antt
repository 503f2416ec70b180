-- ===== src/Engine/Tick.antt =====
-- engine.rs: `conn_timeout`, `tick` and `next_deadline`.
use beanstalkd_rust.Base.{
  ℕ, zero, suc, ◌+◌, Bool, true, false, Option, none, some, List, [], ◌∷◌, if◌then◌else◌, ◌>>=◌,
  length, ltb, leb, min, incr32, incr64,
}
use beanstalkd_rust.Engine.Model.{Nanos, ConnId, TubeState, ConnState, soonest_reserved}
use beanstalkd_rust.Engine.State.{Engine, Run, job, conn, modify_job, reply}
use beanstalkd_rust.Engine.Indexes.{modify_ct, insert_ready, remove_delayed}
use beanstalkd_rust.Engine.Reserve.{
  do_unreserve, do_remove_waiting_conn, is_waiting, conn_deadline_soon,
}
use beanstalkd_rust.Engine.Queue.{process_queue, soonest_delayed_job}
use beanstalkd_rust.Proto.Types.{JobId, Response}
use beanstalkd_rust.Std.Order.{nat_ord}
use beanstalkd_rust.Std.Set

-- One overdue job goes back to its tube.
unfoldable pub expire_job : ConnId → JobId → Nanos → Run → Run
unfolding modify_ct
expire_job cid id now r =
    let freed = do_unreserve cid id r.0 in
    let counted = modify_ct (λ n. record n { timeout_ct = incr64 n.timeout_ct }) freed in
    let marked = modify_job id (λ j. record j { timeout_ct = incr32 j.timeout_ct }) counted in
    process_queue now
      (elim (job id r.0) [ none ↦ marked | some j ↦ insert_ready j.tube id marked ], r.1)

unfoldable pub soonest_of : ConnId → Engine → Option (Nanos × JobId)
unfolding soonest_reserved
soonest_of cid e = do c ← conn cid e; soonest_reserved c

-- The first loop of `conn_timeout`.
unfoldable pub expire_jobs : ℕ → ConnId → Nanos → Run → Run
unfolding expire_job soonest_of
expire_jobs zero cid now r = r
expire_jobs (suc fuel) cid now r = elim (soonest_of cid r.0) [
  | none ↦ r
  | some (deadline, id) ↦ elim (ltb deadline now) [
    | true ↦ expire_jobs fuel cid now (expire_job cid id now r)
    | false ↦ r
  ]
]

-- Whether the connection's own time limit has passed.
unfoldable pub wait_expired : ConnId → Nanos → Engine → Bool
wait_expired cid now e = elim (conn cid e) [
  | none ↦ false
  | some c ↦ elim c.wait_deadline [ none ↦ false | some wd ↦ leb wd now ]
]

-- A waiting connection is told DEADLINE_SOON, or TIMED_OUT if its time limit has passed.
unfoldable pub end_wait : ConnId → Nanos → Run → Run
unfolding is_waiting wait_expired
end_wait cid now r =
    let left : Run = (do_remove_waiting_conn cid r.0, r.1) in
    if is_waiting cid r.0
    then (if conn_deadline_soon cid now r.0
        then reply cid Response.deadline_soon left
        else if wait_expired cid now r.0
        then reply cid Response.timed_out left
        else r)
    else r

reserved_len : Option ConnState → ℕ
reserved_len none = 0
reserved_len (some c) = length c.reserved_by_deadline

-- Each round removes one of the connection's entries that are overdue, and a job that it is given
-- meanwhile is not overdue: the number of its entries is enough fuel.
unfoldable pub conn_timeout : ConnId → Nanos → Run → Run
unfolding expire_jobs end_wait reserved_len
conn_timeout cid now r =
    end_wait cid now (expire_jobs (suc (reserved_len (conn cid r.0))) cid now r)

sooner : Option Nanos → Option Nanos → Option Nanos
sooner none b = b
sooner (some a) none = some a
sooner (some a) (some b) = some (min a b)

head_time : List (Nanos × ℕ) → Option Nanos
head_time [] = none
head_time ((t, id) ∷ later) = some t

unfoldable pub next_deadline : Engine → Option Nanos
unfolding sooner head_time
next_deadline e =
    sooner (head_time e.delay_heads) (sooner (head_time e.pauses) (head_time e.conn_ticks))

-- The loop over delayed jobs that are due.
unfoldable pub ready_delayed : ℕ → Nanos → Run → Run
ready_delayed zero now r = r
ready_delayed (suc fuel) now r = elim (soonest_delayed_job r.0) [
  | none ↦ r
  | some (deadline, tid, id) ↦ elim (ltb now deadline) [
    | true ↦ r
    | false ↦
        ready_delayed fuel now
          (process_queue now (insert_ready tid id (remove_delayed tid id r.0), r.1))
  ]
]

slot_delayed : Option TubeState → ℕ
slot_delayed none = 0
slot_delayed (some t) = length t.delayed

unfoldable pub total_delayed : List (Option TubeState) → ℕ
unfolding slot_delayed
total_delayed [] = 0
total_delayed (t ∷ ts) = slot_delayed t + total_delayed ts

-- The first connection that is due and not yet handled in this tick. The index is in order of
-- time, so what `take_while` stops at is what the test leaves out.
unfoldable pub next_due : Nanos → List ConnId → List (Nanos × ConnId) → Option ConnId
next_due now processed [] = none
next_due now processed ((t, cid) ∷ later) =
    let rest = next_due now processed later in
    if leb t now then (if Set.contains cid processed then rest else some cid) else none

unfoldable pub conn_timeouts : ℕ → Nanos → List ConnId → Run → Run
unfolding next_due
conn_timeouts zero now processed r = r
conn_timeouts (suc fuel) now processed r = elim (next_due now processed r.0.conn_ticks) [
  | none ↦ r
  | some cid ↦ conn_timeouts fuel now (cid ∷ processed) (conn_timeout cid now r)
]

due : Option Nanos → Nanos → Bool
due none now = false
due (some d) now = leb d now

-- Every connection is handled at most once, so their number is enough fuel for the last loop.
unfoldable pub tick : Nanos → Run → Run
unfolding ready_delayed total_delayed conn_timeouts due next_deadline head_time
tick now r =
    let delayed = ready_delayed (suc (total_delayed r.0.tubes)) now r in
    let unpaused =
      if due (head_time delayed.0.pauses) now then process_queue now delayed else delayed in
    let done = conn_timeouts (suc (length unpaused.0.conns)) now [] unpaused in
    if due (next_deadline r.0) now then done else r
