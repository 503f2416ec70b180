-- ===== src/Server/Pending/Guards.antt =====
-- pending.rs: whatever the order of the tasks' actions, the counters tell the truth.
use beanstalkd_rust.Base.{
  ℕ, ◌+◌, ◌-◌, ◌%◌, ◌^◌, ◌≤◌, ◌<◌, ◌≡◌, refl, arith, true, some, List, [], ◌∷◌, ltb, Option-cases,
  inl, inr, some-inj, incr64, saturating_add, subst, is_some, ◌↔◌,
}
use beanstalkd_rust.Server.Pending.{
  Action, Tasks, started, new, acquire, count_rejected, note_rejected, note, line_due, drop_guard,
  auth_timed_out, auth_failed, reported, act, run,
}

-- The pending connections are the guards that are alive, never more than allowed, and every
-- rejection that was counted is in a log line, waits for one or is yet to be noted.
pub record AreCounted (max_pending : ℕ) (t : Tasks) : Type 0 where
  pub limit : t.counters.max_pending ≡ max_pending
  pub pending : t.counters.pending ≡ t.guards
  pub bounded : t.guards ≤ max_pending
  pub rejected : t.counters.pending_rejected ≡ t.counted % 2 ^ 64
  pub noted :
      t.counted < 2 ^ 64 → t.logged + t.counters.reject_log.unreported + t.to_note ≡ t.counted

module _ (max_pending : ℕ) (words : max_pending < 2 ^ 64) where
  started-AreCounted : AreCounted max_pending (started max_pending)
  unfolding started new
  started-AreCounted = record {
    limit = refl;
    pending = refl;
    bounded = omega arith;
    rejected = refl;
    noted = λ h. refl;
  }

  act-AreCounted :
      (now : ℕ) (action : Action) (t t' : Tasks)
      → AreCounted max_pending t
      → act now action t ≡ some t'
      → AreCounted max_pending t'
  unfolding act acquire count_rejected note_rejected note line_due drop_guard auth_timed_out
      auth_failed reported incr64 saturating_add
  act-AreCounted now action t t' h e =
      let limit = h.limit in
      let pending = h.pending in
      let bounded = h.bounded in
      let rejected = h.rejected in
      let noted = h.noted in
      record {
        limit = ground arith;
        pending = ground arith;
        bounded = ground arith;
        rejected = ground arith;
        noted = λ few. ground arith;
      }

  run-AreCounted :
      (actions : List (ℕ × Action)) (t t' : Tasks)
      → AreCounted max_pending t
      → run actions t ≡ some t'
      → AreCounted max_pending t'
  unfolding run
  run-AreCounted [] t t' h e = subst (AreCounted max_pending) (some-inj e) h
  run-AreCounted ((now, action) ∷ actions) t t' h e = elim (Option-cases (act now action t)) [
    | inl stuck ↦ let e' = rw (run, stuck) at e in ground arith
    | inr (mid, acted) ↦
        run-AreCounted actions mid t' (act-AreCounted now action t mid h acted)
          (rw (run, acted) at e)
  ]

  -- In whatever order the tasks act from the start, the pending connections are the guards that
  -- are alive, never more than allowed; the rejections are counted, and up to 2^64 of them each one
  -- counted is in a log line, waits for one or is yet to be noted; and a connection is admitted
  -- exactly if there are fewer guards than allowed. The limit is a 64-bit number.
  pub run-Admits :
      (actions : List (ℕ × Action)) (t : Tasks)
      → run actions (started max_pending) ≡ some t
      → AreCounted max_pending t
        × ((is_some (acquire t.counters) ≡ true) ↔ (t.guards < max_pending))
  unfolding acquire
  run-Admits actions t e =
      let h = run-AreCounted actions (started max_pending) t started-AreCounted e in
      let limit = h.limit in let pending = h.pending in (h, ground arith)

  -- At any time that the tasks can come to, a guard that is alive can be dropped, and a connection
  -- that is accepted then is admitted. The limit is a 64-bit number.
  pub run-freed :
      (actions : List (ℕ × Action)) (t : Tasks) (now later : ℕ)
      → run actions (started max_pending) ≡ some t
      → 0 < t.guards
      → (t' t'' : Tasks) × (act now Action.dropped t ≡ some t')
        × (act later Action.try_acquire t' ≡ some t'')
        × (t'.guards + 1 ≡ t.guards)
        × (t''.guards ≡ t.guards)
  unfolding act acquire drop_guard
  run-freed actions t now later e alive =
      let h = run-AreCounted actions (started max_pending) t started-AreCounted e in
      let limit = h.limit in
      let pending = h.pending in
      let bounded = h.bounded in
      let c = drop_guard t.counters in
      let there : ltb 0 t.guards ≡ true = ground arith in
      let room : ltb c.pending c.max_pending ≡ true = ground arith in
      let fewer : t.guards - 1 + 1 ≡ t.guards = omega arith in
      (
        record t { counters = c; guards = t.guards - 1 },
        record t { counters = record c { pending = c.pending + 1 }; guards = t.guards - 1 + 1 },
        rw (act, there),
        rw (act, acquire, room),
        fewer,
        fewer,
      )
