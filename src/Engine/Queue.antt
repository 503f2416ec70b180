-- ===== src/Engine/Queue.antt =====
-- engine.rs: `process_queue`, which hands ready jobs to waiting connections, and the look-ups of
-- `soonest_delayed_job`, `peek_used_tube` and `reserved_by`.
pub mod Priority
use beanstalkd_rust.Base.{
  ℕ, zero, suc, ◌+◌, Bool, true, false, Option, none, some, List, [], ◌∷◌, Bytes, if◌then◌else◌,
  ◌>>=◌, length, ltb, ◌==◌, first, Ordering, incr32,
}
use beanstalkd_rust.Engine.Ms
use beanstalkd_rust.Engine.Model.{Nanos, ConnId, TubeId, JobState, JobRec, TubeState}
use beanstalkd_rust.Engine.State.{
  Engine, Run, job, conn, tube, modify_job, modify_tube, reply, journal_update,
}
use beanstalkd_rust.Engine.Tubes.{refresh_dispatchable, clear_expired_pauses, default_tube_id}
use beanstalkd_rust.Engine.Indexes.{remove_ready, insert_ready}
use beanstalkd_rust.Engine.Reserve.{do_reserve, do_remove_waiting_conn}
use beanstalkd_rust.Proto.Types.{JobId, Response}
use beanstalkd_rust.Std.Order.{nat_ord, pair_ord, pair_cmp}

-- Priority, job and tube of the best ready job so far.
abbrev pub Best : Type 0
Best = Option (ℕ × JobId × TubeId)

-- `best.is_none_or(|(bp, bid, _)| (pri, id) < (bp, bid))`
unfoldable pub beats : ℕ × JobId → Best → Bool
beats key none = true
beats key (some (bp, bid, t)) = elim (pair_cmp key (bp, bid)) [ Ordering.lt ↦ true | _ ↦ false ]

-- A paused tube, and one with no ready job, is passed over.
consider : TubeId → Option TubeState → Best → Best
unfolding beats
consider tid none best = best
consider tid (some t) best = if ltb 0 t.pause then best else elim (first t.ready) [
  | none ↦ best
  | some (pri, id) ↦ if beats (pri, id) best then some (pri, id, tid) else best
]

-- The loop over `dispatchable`.
unfoldable pub find_best : Engine → List TubeId → Best → Best
unfolding consider
find_best e [] best = best
find_best e (tid ∷ tids) best = find_best e tids (consider tid (tube tid e) best)

unfoldable pub body_of : JobId → Engine → Bytes
body_of id e = elim (job id e) [ none ↦ [] | some j ↦ j.body ]

-- `reserved_reply`
unfoldable pub reserved_reply : JobId → Engine → Response
unfolding body_of
reserved_reply id e = Response.reserved id (body_of id e)

-- `tube_mut(tube).and_then(|t| t.waiting_conns.take())`
unfoldable pub take_waiter : TubeId → Engine → Option (ConnId × Engine)
take_waiter tid e = do
  t ← tube tid e
  (cid, waiting) ← Ms.take t.waiting_conns
  some (cid, modify_tube tid (λ t. record t { waiting_conns = waiting }) e)

-- Connection `cid` stops waiting, reserves job `id` and is told so.
unfoldable pub give : ConnId → JobId → Nanos → Run → Run
unfolding reserved_reply
give cid id now r =
    let e = do_reserve cid id now (do_remove_waiting_conn cid r.0) in
    reply cid (reserved_reply id e) (e, r.1)

-- One round of the loop of `process_queue` for the best job.
unfoldable pub assign : TubeId → JobId → Nanos → Run → Run
unfolding take_waiter give
assign tid id now r =
    let e = remove_ready tid id r.0 in
    elim (take_waiter tid e) [
      | none ↦ (refresh_dispatchable tid e, r.1)
      | some (cid, e') ↦ give cid id now (refresh_dispatchable tid e', r.1)
    ]

unfoldable pub dispatch : ℕ → Nanos → Run → Run
unfolding find_best assign
dispatch zero now r = r
dispatch (suc fuel) now r = elim (find_best r.0 r.0.dispatchable none) [
  | none ↦ r
  | some (pri, id, tid) ↦ dispatch fuel now (assign tid id now r)
]

slot_ready : Option TubeState → ℕ
slot_ready none = 0
slot_ready (some t) = length t.ready

-- The number of ready entries of all tubes: each round of the loop removes one.
unfoldable pub total_ready : List (Option TubeState) → ℕ
unfolding slot_ready
total_ready [] = 0
total_ready (t ∷ ts) = slot_ready t + total_ready ts

unfoldable pub process_queue : Nanos → Run → Run
unfolding dispatch total_ready
process_queue now r =
    let e = clear_expired_pauses now r.0 in dispatch (suc (total_ready e.tubes)) now (e, r.1)

-- `best.is_none_or(|(pos, _)| t.pos < pos)`
earlier : ℕ → Option (ℕ × TubeId) → Bool
earlier pos none = true
earlier pos (some (best, t)) = ltb pos best

-- Among the tubes whose head is due at `deadline`, the first in the tube list.
unfoldable pub find_head :
    Engine → Nanos → List (Nanos × TubeId) → Option (ℕ × TubeId) → Option (ℕ × TubeId)
unfolding earlier
find_head e deadline [] best = best
find_head e deadline ((d, tid) ∷ heads) best = find_head e deadline heads (
    if d == deadline
    then elim (tube tid e) [
      | none ↦ best
      | some t ↦ if earlier t.pos best then some (t.pos, tid) else best
    ]
    else best)

unfoldable pub soonest_delayed_job : Engine → Option (Nanos × TubeId × JobId)
unfolding find_head
soonest_delayed_job e = do
  (deadline, first_tube) ← first e.delay_heads
  (pos, tid) ← find_head e deadline e.delay_heads none
  t ← tube tid e
  (d, id) ← first t.delayed
  some (d, tid, id)

unfoldable pub kick_to_ready : TubeId → JobId → Nanos → Run → Run
kick_to_ready tid id now r =
    let kicked = modify_job id (λ j. record j { kick_ct = incr32 j.kick_ct }) r.0 in
    process_queue now (journal_update id (insert_ready tid id kicked), r.1)

unfoldable pub use_tube_of : ConnId → Engine → TubeId
use_tube_of cid e = elim (conn cid e) [ none ↦ default_tube_id | some c ↦ c.use_tube ]

unfoldable pub peek_used_tube : ConnId → (TubeState → Option JobId) → Engine → Response
unfolding body_of use_tube_of
peek_used_tube cid pick e = elim (tube (use_tube_of cid e) e >>= pick) [
  | none ↦ Response.not_found
  | some id ↦ Response.found id (body_of id e)
]

is_reserved : JobState → Bool
is_reserved JobState.reserved = true
is_reserved _ = false

-- `j.reserver == Some(cid)`
unfoldable pub held_by : ConnId → JobRec → Bool
held_by cid j = elim j.reserver [ none ↦ false | some c ↦ c == cid ]

-- The tube of `id` if `cid` holds its reservation.
unfoldable pub reserved_by : ConnId → JobId → Engine → Option TubeId
unfolding is_reserved held_by
reserved_by cid id e = elim (job id e) [
  | none ↦ none
  | some j ↦ if held_by cid j then (if is_reserved j.state then some j.tube else none) else none
]
