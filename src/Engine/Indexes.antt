-- ===== src/Engine/Indexes.antt =====
-- engine.rs: `insert_ready` to `pop_buried_front`, which move a job between the queues of its tube.
-- Each keeps the job's state, the tube's queue, the counters and the tube indexes together.
use beanstalkd_rust.Base.{
  ℕ, ◌-◌, Bool, false, Option, none, some, List, first, ltb, ◌==◌, if◌then◌else◌, ◌>>=◌, incr64,
  incr32,
}
use beanstalkd_rust.Engine.Model.{Nanos, TubeId, JobState, JobRec, TubeState, TubeStat}
use beanstalkd_rust.Engine.State.{Engine, Counts, job, tube, modify_job, modify_tube}
use beanstalkd_rust.Engine.Tubes.{refresh_dispatchable, refresh_delay_head}
use beanstalkd_rust.Proto.Types.{JobId, urgent_threshold}
use beanstalkd_rust.Std.Order.{nat_ord, pair_ord}
use beanstalkd_rust.Std.Set
use beanstalkd_rust.Std.Map

unfoldable pub modify_ct : (Counts → Counts) → Engine → Engine
modify_ct f e = record e { ct = f e.ct }

unfoldable pub modify_stat : (TubeStat → TubeStat) → TubeState → TubeState
modify_stat f t = record t { stat = f t.stat }

-- `if pri < URGENT_THRESHOLD { n += 1 }`
abbrev pub count_urgent : ℕ → ℕ → ℕ
count_urgent pri n = if ltb pri urgent_threshold then incr64 n else n

abbrev pub discount_urgent : ℕ → ℕ → ℕ
discount_urgent pri n = if ltb pri urgent_threshold then n - 1 else n

add_ready : ℕ → JobId → TubeState → TubeState
unfolding modify_stat
add_ready pri id t =
    modify_stat (λ s. record s { urgent_ct = count_urgent pri s.urgent_ct })
      (record t { ready = Set.insert (pri, id) t.ready })

unfoldable pub insert_ready : TubeId → JobId → Engine → Engine
unfolding add_ready modify_ct
insert_ready tid id e = elim (job id e) [
  | none ↦ e
  | some j ↦
      let queued = modify_job id (λ j. record j { state = JobState.ready; reserver = none }) e in
      let listed = modify_tube tid (add_ready j.pri id) queued in
      refresh_dispatchable tid (
        modify_ct
          (λ c. record c {
            ready_ct = incr64 c.ready_ct;
            urgent_ct = count_urgent j.pri c.urgent_ct;
          })
          listed)
]

drop_ready : ℕ → JobId → TubeState → TubeState
unfolding modify_stat
drop_ready pri id t =
    modify_stat (λ s. record s { urgent_ct = discount_urgent pri s.urgent_ct })
      (record t { ready = Set.remove (pri, id) t.ready })

-- `self.jobs.get(&id).map(|j| j.pri).unwrap_or(0)`, and so for the deadline.
unfoldable pub pri_of : Option JobRec → ℕ
pri_of none = 0
pri_of (some j) = j.pri

unfoldable pub deadline_of : Option JobRec → Nanos
deadline_of none = 0
deadline_of (some j) = j.deadline_at

unfoldable pub remove_ready : TubeId → JobId → Engine → Engine
unfolding drop_ready modify_ct pri_of
remove_ready tid id e =
    let pri = pri_of (job id e) in
    refresh_dispatchable tid (
      modify_ct
        (λ c. record c { ready_ct = c.ready_ct - 1; urgent_ct = discount_urgent pri c.urgent_ct })
        (modify_tube tid (drop_ready pri id) e))

-- Whether tube `tid` is there and `key` is among its delayed jobs.
unfoldable pub is_delayed : TubeId → Nanos × JobId → Engine → Bool
is_delayed tid key e = elim (tube tid e) [ none ↦ false | some t ↦ Set.contains key t.delayed ]

-- `insert` tells whether the entry is new; only then is it counted.
list_delayed : TubeId → Nanos × JobId → Engine → Engine
unfolding modify_ct is_delayed
list_delayed tid key e = elim (tube tid e) [
  | none ↦ e
  | some t ↦
      let listed = modify_tube tid (λ t. record t { delayed = Set.insert key t.delayed }) e in
      if Set.contains key t.delayed
      then listed
      else modify_ct (λ c. record c { delayed_ct = incr64 c.delayed_ct }) listed
]

unfoldable pub insert_delayed : TubeId → JobId → Nanos → Engine → Engine
unfolding list_delayed
insert_delayed tid id deadline e = refresh_delay_head tid (
    list_delayed tid (deadline, id)
      (modify_job id
        (λ j. record j { state = JobState.delayed; reserver = none; deadline_at = deadline }) e))

unfoldable pub remove_delayed : TubeId → JobId → Engine → Engine
unfolding modify_ct is_delayed deadline_of
remove_delayed tid id e =
    let key : Nanos × JobId = (deadline_of (job id e), id) in
    let unlisted = modify_tube tid (λ t. record t { delayed = Set.remove key t.delayed }) e in
    refresh_delay_head tid (
      if is_delayed tid key e
      then modify_ct (λ c. record c { delayed_ct = c.delayed_ct - 1 }) unlisted
      else unlisted)

add_buried : ℕ → JobId → TubeState → TubeState
unfolding modify_stat
add_buried seq id t =
    modify_stat (λ s. record s { buried_ct = incr64 s.buried_ct })
      (record t { buried = Map.insert seq id t.buried })

bury_record : ℕ → JobRec → JobRec
bury_record seq j = record j {
  state = JobState.buried;
  reserver = none;
  bury_ct = incr32 j.bury_ct;
  list_seq = seq;
}

unfoldable pub insert_buried : TubeId → JobId → Engine → Engine
unfolding add_buried modify_ct bury_record
insert_buried tid id e =
    let seq = e.next_list_seq in
    modify_ct (λ c. record c { buried_ct = incr64 c.buried_ct })
      (modify_tube tid (add_buried seq id)
        (modify_job id (bury_record seq) (record e { next_list_seq = incr64 e.next_list_seq })))

drop_buried : ℕ → TubeState → TubeState
unfolding modify_stat
drop_buried seq t =
    modify_stat (λ s. record s { buried_ct = s.buried_ct - 1 })
      (record t { buried = Map.remove seq t.buried })

-- `m.get(&seq) == Some(&id)`
unfoldable pub maps_to : ℕ → JobId → List (ℕ × JobId) → Bool
maps_to seq id m = elim (Map.get seq m) [ none ↦ false | some j ↦ j == id ]

-- The Boolean result of `remove_buried` is not used by its callers.
unfoldable pub remove_buried : TubeId → JobId → Engine → Engine
unfolding drop_buried modify_ct maps_to
remove_buried tid id e = elim (job id e) [
  | none ↦ e
  | some j ↦ elim (tube tid e) [
    | none ↦ e
    | some t ↦
        if maps_to j.list_seq id t.buried
        then modify_ct (λ c. record c { buried_ct = c.buried_ct - 1 })
            (modify_tube tid (drop_buried j.list_seq) e)
        else e
  ]
]

unfoldable pub pop_buried_front : TubeId → Engine → Option (JobId × Engine)
unfolding drop_buried modify_ct
pop_buried_front tid e = do
  t ← tube tid e
  (seq, id) ← first t.buried
  some (
    id,
    modify_ct (λ c. record c { buried_ct = c.buried_ct - 1 }) (modify_tube tid (drop_buried seq) e),
  )
