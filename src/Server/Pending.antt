-- ===== src/Server/Pending.antt =====
-- crates/server/src/pending.rs: the TLS connections that have not authenticated, and their limit.
pub mod Guards
use beanstalkd_rust.Base.{
  ℕ, ◌+◌, ◌-◌, ◌*◌, ◌^◌, ◌%◌, Bool, true, false, Option, none, some, List, [], ◌∷◌, ltb, leb,
  max_u64, incr64, saturating_add, if◌then◌else◌,
}

-- An `Instant` is a number of nanoseconds.
abbrev pub reject_log_interval : ℕ
reject_log_interval = 1000000000

pub record RejectLog : Type 0 where
  pub last : Option ℕ
  pub unreported : ℕ

abbrev pub no_log : RejectLog
no_log = record { last = none; unreported = 0 }

unfoldable pub line_due : ℕ → Option ℕ → Bool
line_due now none = true
line_due now (some t) = leb reject_log_interval (now - t)

unfoldable pub note : ℕ → RejectLog → RejectLog × Option ℕ
unfolding line_due saturating_add
note now log =
    let unreported = saturating_add log.unreported 1 in
    if line_due now log.last
    then (record { last = some now; unreported = 0 }, some unreported)
    else (record log { unreported = unreported }, none)

pub record ServerCounters : Type 0 where
  pub max_pending : ℕ
  pub pending : ℕ
  pub pending_rejected : ℕ
  pub auth_timeouts : ℕ
  pub auth_failures : ℕ
  pub reject_log : RejectLog

unfoldable pub new : ℕ → ServerCounters
new max_pending = record {
  max_pending = max_pending;
  pending = 0;
  pending_rejected = 0;
  auth_timeouts = 0;
  auth_failures = 0;
  reject_log = no_log;
}

-- The atomic update with which `try_acquire` begins: the connection is counted if there is room.
unfoldable pub acquire : ServerCounters → Option ServerCounters
acquire c =
    if ltb c.pending c.max_pending then some (record c { pending = c.pending + 1 }) else none

unfoldable pub count_rejected : ServerCounters → ServerCounters
unfolding incr64
count_rejected c = record c { pending_rejected = incr64 c.pending_rejected }

unfoldable pub note_rejected : ℕ → ServerCounters → ServerCounters × Option ℕ
unfolding note
note_rejected now c =
    let (log, report) = note now c.reject_log in (record c { reject_log = log }, report)

-- `drop` of a `PendingGuard`; `fetch_sub` wraps.
unfoldable pub drop_guard : ServerCounters → ServerCounters
drop_guard c = record c { pending = (c.pending + max_u64) % 2 ^ 64 }

unfoldable pub auth_timed_out : ServerCounters → ServerCounters
unfolding incr64
auth_timed_out c = record c { auth_timeouts = incr64 c.auth_timeouts }

unfoldable pub auth_failed : ServerCounters → ServerCounters
unfolding incr64
auth_failed c = record c { auth_failures = incr64 c.auth_failures }

-- The atomic actions of the tasks that share the counters.
pub data Action : Type 0 where
  try_acquire count report dropped timed_out failed : Action

-- The counters, the guards that are alive, the refused tasks that are still to count the
-- rejection and those that are still to note it, and all that was counted and logged so far.
pub record Tasks : Type 0 where
  pub counters : ServerCounters
  pub guards : ℕ
  pub to_count : ℕ
  pub to_note : ℕ
  pub counted : ℕ
  pub logged : ℕ

unfoldable pub started : ℕ → Tasks
unfolding new
started max_pending = record {
  counters = new max_pending;
  guards = 0;
  to_count = 0;
  to_note = 0;
  counted = 0;
  logged = 0;
}

reported : Option ℕ → ℕ
reported none = 0
reported (some n) = n

-- The action of a task at `now`; none if no task is where it can take it.
unfoldable pub act : ℕ → Action → Tasks → Option Tasks
unfolding acquire count_rejected note_rejected drop_guard auth_timed_out auth_failed reported
act now Action.try_acquire t = elim (acquire t.counters) [
  | some c ↦ some (record t { counters = c; guards = t.guards + 1 })
  | none ↦ some (record t { to_count = t.to_count + 1 })
]
act now Action.count t =
    if ltb 0 t.to_count
    then some (record t {
      counters = count_rejected t.counters;
      to_count = t.to_count - 1;
      to_note = t.to_note + 1;
      counted = t.counted + 1;
    })
    else none
act now Action.report t =
    let (c, line) = note_rejected now t.counters in
    if ltb 0 t.to_note
    then some
        (record t { counters = c; to_note = t.to_note - 1; logged = t.logged + reported line })
    else none
act now Action.dropped t =
    if ltb 0 t.guards
    then some (record t { counters = drop_guard t.counters; guards = t.guards - 1 })
    else none
act now Action.timed_out t = some (record t { counters = auth_timed_out t.counters })
act now Action.failed t = some (record t { counters = auth_failed t.counters })

-- Actions one after another, in whatever order the tasks take them.
unfoldable pub run : List (ℕ × Action) → Tasks → Option Tasks
unfolding act
run [] t = some t
run ((now, action) ∷ actions) t = elim (act now action t) [ some t' ↦ run actions t' | none ↦ none ]
