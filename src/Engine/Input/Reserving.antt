-- ===== src/Engine/Input/Reserving.antt =====
-- engine.rs: `reserve-job` on a job that nobody has reserved, and what it does to the jobs.
use beanstalkd_rust.Base.{
  sym, subst, Option-cases, is_some, true-ne_false, min, ◌+◌, ◌*◌, ◌-◌, ◌%◌, ◌^◌, saturating_add,
  incr32, ◌≡◌, ◌≢◌, refl, ap, arith, ◌∙◌, true, false, Bool-cases, inl, inr, if◌then◌else◌, some,
  ◌==◌, ◌⊎◌,
}
use mathlib.Core.Option
use beanstalkd_rust.Engine.Model.{ConnId, ConnState, Nanos, SysSnapshot, JobRec, JobState}
use beanstalkd_rust.Engine.State.{Engine, Run, reply, job, conn}
use beanstalkd_rust.Engine.Input.Held.{Holds, connsetworker-known, do_reserve-Holds}
use beanstalkd_rust.Engine.Reserve.{after_secs, take_job, do_reserve, connsetworker}
use beanstalkd_rust.Engine.Queue.{reserved_by, held_by, body_of, reserved_reply}
use beanstalkd_rust.Engine.Commands.Jobs.{unqueue, cmd_reserve_job, reserve_queued}
use beanstalkd_rust.Engine.Input.{handle, dispatch_command}
use beanstalkd_rust.Engine.Input.Replies.{reply-engine, reply-same}
use beanstalkd_rust.Proto.Types.{Command, Response, JobId}
use beanstalkd_rust.Std.Order.{nat_ord, pair_ord, eqb}
use beanstalkd_rust.Std.Map
use beanstalkd_rust.Std.Map.{Map, get-modify}
use beanstalkd_rust.Engine.Input.Records.{connsetworker-records, unqueue-kept, do_reserve-records}

-- The deadline of a job reserved at `now`: its seconds to run later, or the end of time.
abbrev pub deadline : Nanos → JobRec → Nanos
deadline now j = min (now + j.ttr * 1000000000) (2 ^ 64 - 1)

-- The job record of a reservation by `cid`: who holds it until when, how often the job has been
-- reserved, and its place in the order of the reservations.
abbrev pub taken : ConnId → Nanos → Engine → JobRec → JobRec
taken cid now e j = record j {
  state = JobState.reserved;
  reserver = some cid;
  deadline_at = deadline now j;
  reserve_ct = (j.reserve_ct + 1) % 2 ^ 32;
  list_seq = e.next_list_seq;
}

take_job-taken :
    (cid : ConnId) (now : Nanos) (e : Engine) (j : JobRec)
    → take_job cid (after_secs now j.ttr) e.next_list_seq j ≡ taken cid now e j
unfolding take_job after_secs saturating_add incr32
take_job-taken cid now e j = refl

-- Connection `cid` holds job `id` and lists it, the other jobs are as before, and the reply has the
-- body.
pub record Reserves (cid : ConnId) (id : JobId) (now : Nanos) (j : JobRec) (before after : Run)
    : Type 0 where
  pub holder : reserved_by cid id after.0 ≡ some j.tube
  pub jobs :
      (q : JobId)
      → job q after.0 ≡ (if eqb id q then some (taken cid now before.0 j) else job q before.0)
  pub lists : Holds cid before.0.next_list_seq (deadline now j) id after.0
  pub replies : after.1 ≡ (reply cid (Response.reserved id j.body) before).1

eqb-same : (id : JobId) → eqb id id ≡ true
eqb-same id = ground arith

modify-found :
    (id q : JobId) (f : JobRec → JobRec) (m : Map JobId JobRec) (j : JobRec)
    → Map.get id m ≡ some j
    → Map.get q (Map.modify id f m) ≡ (if eqb id q then some (f j) else Map.get q m)
modify-found id q f m j h = get-modify id q f m ∙ cases (Bool-cases (eqb id q))
  where
    cases :
        (eqb id q ≡ true) ⊎ (eqb id q ≡ false)
        → (if eqb id q then Option.map f (Map.get q m) else Map.get q m)
          ≡ (if eqb id q then some (f j) else Map.get q m)
    cases (inl t) = let e : q ≡ id = ground arith in rw (t, e, h)
    cases (inr n) = rw n

reserved_by-taken :
    (cid : ConnId) (id : JobId) (now : Nanos) (before : Engine) (j : JobRec) (e : Engine)
    → job id e ≡ some (taken cid now before j)
    → reserved_by cid id e ≡ some j.tube
unfolding reserved_by held_by
reserved_by-taken cid id now before j e h =
    let self : (cid == cid) ≡ true = ground arith in rw (reserved_by, h, self)

reserved_reply-taken :
    (cid : ConnId) (id : JobId) (now : Nanos) (before : Engine) (j : JobRec) (e : Engine)
    → job id e ≡ some (taken cid now before j)
    → reserved_reply id e ≡ Response.reserved id j.body
unfolding reserved_reply body_of
reserved_reply-taken cid id now before j e h = rw (reserved_reply, body_of, h)

reserve_queued-Reserves :
    (now : Nanos) (cid : ConnId) (id : JobId) (j : JobRec) (c : ConnState) (r : Run)
    → job id r.0 ≡ some j
    → conn cid r.0 ≡ some c
    → Reserves cid id now j r (reserve_queued now cid id j r)
unfolding reserve_queued job conn after_secs saturating_add
reserve_queued-Reserves now cid id j c r h known =
    let e0 = connsetworker cid (unqueue j.state j.tube id r.0) in
    let unqueued = unqueue-kept j.state j.tube id r.0 in
    let same_records = connsetworker-records cid _ ∙ ap (λ w. w.0) unqueued in
    let (c', worker) =
      connsetworker-known cid (unqueue j.state j.tube id r.0) c
        (ap (λ w. Map.get cid w.1) unqueued ∙ known) in
    let there : job id e0 ≡ some j = ap (λ w. Map.get id w.0) same_records ∙ h in
    let e = do_reserve cid id now e0 in
    let done = do_reserve-records cid id now e0 j there in
    let modified =
      ap (λ w. w.0) done
      ∙ ap (λ w. Map.modify id (take_job cid (after_secs now j.ttr) w.1) w.0) same_records in
    let all : (q : JobId) → job q e ≡ (if eqb id q then some (taken cid now r.0 j) else job q r.0) =
      λ q.
        ap (Map.get q) modified
        ∙ modify-found id q _ r.0.jobs j h
        ∙ ap (λ k. if eqb id q then some k else job q r.0) (take_job-taken cid now r.0 j) in
    let mine : job id e ≡ some (taken cid now r.0 j) =
      all id ∙ ap (λ b. if b then some (taken cid now r.0 j) else job id r.0) (eqb-same id) in
    let held : Holds cid r.0.next_list_seq (deadline now j) id e =
      subst (λ n. Holds cid n (deadline now j) id e) (ap (λ w. w.1) same_records)
        (do_reserve-Holds cid id now e0 j c' there worker) in
    let out = reply cid (reserved_reply id e) (e, r.1) in
    let left : out.0 ≡ e = reply-engine cid (reserved_reply id e) (e, r.1) in
    record {
      holder = ap (reserved_by cid id) left ∙ reserved_by-taken cid id now r.0 j e mine;
      jobs = λ q. ap (job q) left ∙ all q;
      lists = subst (Holds cid r.0.next_list_seq (deadline now j) id) (sym left) held;
      replies =
          reply-same cid (reserved_reply id e) e r.0 r.1
            (ap (λ w. w.2) done ∙ ap (λ w. w.2) same_records)
          ∙ ap (λ x. (reply cid x r).1) (reserved_reply-taken cid id now r.0 j e mine);
    }

reserve_or_refuse-idle :
    (now : Nanos) (cid : ConnId) (id : JobId) (j : JobRec) (r : Run) (s : JobState)
    → s ≢ JobState.reserved
    → (elim s [
      | JobState.reserved ↦ reply cid Response.not_found r
      | _ ↦ reserve_queued now cid id j r
    ])
      ≡ reserve_queued now cid id j r
reserve_or_refuse-idle now cid id j r JobState.ready h = refl
reserve_or_refuse-idle now cid id j r JobState.reserved h = absurd (h refl)
reserve_or_refuse-idle now cid id j r JobState.delayed h = refl
reserve_or_refuse-idle now cid id j r JobState.buried h = refl

cmd_reserve_job-idle :
    (now : Nanos) (cid : ConnId) (id : JobId) (j : JobRec) (r : Run)
    → job id r.0 ≡ some j
    → j.state ≢ JobState.reserved
    → cmd_reserve_job now cid id r ≡ reserve_queued now cid id j r
unfolding cmd_reserve_job
cmd_reserve_job-idle now cid id j r h idle =
    rw (cmd_reserve_job, h) (reserve_or_refuse-idle now cid id j r j.state idle)

-- A known connection that asks by `reserve-job` for a job that nobody has reserved gets it: the
-- job's record says who holds it, that it is due the job's time to run after `now` or at the end of
-- time, and one more reservation modulo 2^32; the connection lists the job among its reservations,
-- and by its deadline; no other job changes, and the reply is RESERVED with the body.
pub handle-reserve_job :
    (snap : SysSnapshot) (now : Nanos) (cid : ConnId) (id : JobId) (j : JobRec) (r : Run)
    → Map.contains_key cid r.0.conns ≡ true
    → job id r.0 ≡ some j
    → j.state ≢ JobState.reserved
    → Reserves cid id now j r (handle snap now cid (Command.reserve_job id) r)
unfolding handle dispatch_command conn
handle-reserve_job snap now cid id j r known h idle = elim (Option-cases (conn cid r.0)) [
  | inl gone ↦ absurd (true-ne_false (sym known ∙ ap is_some gone))
  | inr (c, there) ↦
      rw (known, cmd_reserve_job-idle now cid id j r h idle)
        (reserve_queued-Reserves now cid id j c r h there)
]
