-- ===== src/Engine/Input/Draining.antt =====
-- engine.rs: `put` on an engine that drains.
use beanstalkd_rust.Base.{
  ℕ, ◌≡◌, ap, ◌∙◌, Bool, true, Bool-cases, inl, inr, Option, Option-cases, Bytes, List,
}
use beanstalkd_rust.Engine.Model.{
  ConnId, Nanos, SysSnapshot, JobRec, TubeState, LocalConns, JournalEntry,
}
use beanstalkd_rust.Engine.State.{Engine, Run, reply, conn, modify_conn}
use beanstalkd_rust.Engine.Indexes.{modify_ct}
use beanstalkd_rust.Engine.Reserve.{connsetproducer}
use beanstalkd_rust.Engine.Commands.Put.{modify_ops, bump_job_id, new_id, put_id, cmd_put}
use beanstalkd_rust.Engine.Input.{handle, dispatch_command}
use beanstalkd_rust.Engine.Input.Replies.{reply-engine, reply-same}
use beanstalkd_rust.Proto.Types.{Command, Response, JobId}
use beanstalkd_rust.Std.Order.{nat_ord}
use beanstalkd_rust.Std.Map
use beanstalkd_rust.Std.Map.{Map}

-- What a `put` would change: jobs, tubes and journal; with who gets replies, and draining itself.
abbrev pub Work : Type 0
Work = Map JobId JobRec × List (Option TubeState) × List JournalEntry × Option LocalConns × Bool

abbrev pub work : Engine → Work
work e = (e.jobs, e.tubes, e.journal, e.local_conns, e.draining)

connsetproducer-work : (cid : ConnId) (e : Engine) → work (connsetproducer cid e) ≡ work e
unfolding connsetproducer modify_conn modify_ct
connsetproducer-work cid e = elim (Option-cases (conn cid e)) [
  | inl n ↦ rw (connsetproducer, n)
  | inr (c, h) ↦ elim (Bool-cases c.is_producer) [
    | inl t ↦ rw (connsetproducer, h, t)
    | inr f ↦ rw (connsetproducer, h, f)
  ]
]

new_id-work : (now : Nanos) (cid : ConnId) (e : Engine) → work (new_id now cid e).2 ≡ work e
unfolding new_id bump_job_id modify_ops
new_id-work now cid e = connsetproducer-work cid _

put_id-work : (now : Nanos) (cid : ConnId) (e : Engine) → work (put_id now cid e).2 ≡ work e
unfolding put_id modify_conn
put_id-work now cid e = elim (Option-cases (conn cid e)) [
  | inl n ↦ rw (put_id, n) (new_id-work now cid e)
  | inr (c, h) ↦ elim (Option-cases c.pending_put) [
    | inl n ↦ rw (put_id, h, n) (new_id-work now cid _)
    | inr (p, k) ↦ elim (Option-cases p.id) [
      | inl n ↦ rw (put_id, h, k, n) (new_id-work now cid _)
      | inr (id, m) ↦ rw (put_id, h, k, m)
    ]
  ]
]

cmd_put-draining :
    (now : Nanos) (cid : ConnId) (pri delay ttr : ℕ) (body : Bytes) (r : Run)
    → (put_id now cid r.0).2.draining ≡ true
    → cmd_put now cid pri delay ttr body r
      ≡ reply cid Response.draining ((put_id now cid r.0).2, r.1)
unfolding cmd_put
cmd_put-draining now cid pri delay ttr body r h = rw (cmd_put, h)

-- An engine that drains answers a known connection's `put` with DRAINING and takes no job: its
-- jobs, its tubes and its journal stay as they are.
pub handle-put_draining :
    (snap : SysSnapshot) (now : Nanos) (cid : ConnId) (pri delay ttr : ℕ) (body : Bytes) (r : Run)
    → Map.contains_key cid r.0.conns ≡ true
    → r.0.draining ≡ true
    → (work (handle snap now cid (Command.put pri delay ttr body) r).0 ≡ work r.0)
      × ((handle snap now cid (Command.put pri delay ttr body) r).1
          ≡ (reply cid Response.draining r).1)
unfolding handle dispatch_command
handle-put_draining snap now cid pri delay ttr body r known h =
    let kept = put_id-work now cid r.0 in
    let drains = ap (λ w. w.4) kept ∙ h in
    let e = (put_id now cid r.0).2 in
    let at_work = ap work (reply-engine cid Response.draining (e, r.1)) ∙ kept in
    let replies = reply-same cid Response.draining e r.0 r.1 (ap (λ w. w.3) kept) in
    rw (known, cmd_put-draining now cid pri delay ttr body r drains) (at_work, replies)
