-- ===== src/Engine/Input/Ownership.antt =====
-- engine.rs: the commands on a job that another connection has reserved.
use beanstalkd_rust.Base.{
  some-inj, subst, ℕ, ◌≡◌, ◌≢◌, arith, sym, true, false, Bool-cases, inl, inr, Option, none, some,
}
use beanstalkd_rust.Engine.Model.{ConnId, Nanos, SysSnapshot, JobRec, JobState}
use beanstalkd_rust.Engine.State.{Engine, Run, OpCounts, reply, wants_reply, job}
use beanstalkd_rust.Engine.Queue.{reserved_by, held_by}
use beanstalkd_rust.Engine.Commands.Put.{modify_ops}
use beanstalkd_rust.Engine.Commands.Jobs.{
  cmd_reserve_job, give_up, cmd_delete, cmd_release, cmd_bury, cmd_touch, cmd_kick_job,
}
use beanstalkd_rust.Engine.Input.{handle, dispatch_command}
use beanstalkd_rust.Proto.Types.{Command, Response, JobId}
use beanstalkd_rust.Std.Order.{nat_ord}
use beanstalkd_rust.Std.Map

-- The job that a command would take, give back or move, by its id.
unfoldable pub subject : Command → Option JobId
subject (Command.reserve_job id) = some id
subject (Command.delete id) = some id
subject (Command.release id pri delay) = some id
subject (Command.bury id pri) = some id
subject (Command.touch id) = some id
subject (Command.kick_job id) = some id
subject _ = none

-- The job is reserved by connection `other`.
pub record ReservedBy (other : ConnId) (id : JobId) (e : Engine) : Type 0 where
  pub rec : JobRec
  pub found : job id e ≡ some rec
  pub reserved : rec.state ≡ JobState.reserved
  pub reserver : rec.reserver ≡ some other

-- What is left is a refusal: the reply, and one more operation counted.
pub record Refused (cid : ConnId) (before after : Run) : Type 0 where
  pub engine : record after.0 { ops = before.0.ops } ≡ before.0
  pub replies : after.1 ≡ (reply cid Response.not_found before).1

held_by-other :
    (cid other : ConnId) (j : JobRec)
    → j.reserver ≡ some other
    → other ≢ cid
    → held_by cid j ≡ false
unfolding held_by
held_by-other cid other j h ne = rw h (ground arith)

pub refused :
    (cid : ConnId) (ops : OpCounts) (r : Run)
    → Refused cid r (reply cid Response.not_found (record r.0 { ops = ops }, r.1))
unfolding reply wants_reply
refused cid ops r = elim (Bool-cases (wants_reply cid r.0)) [
  | inl t ↦ record { engine = rw t; replies = rw t }
  | inr f ↦ record { engine = rw f; replies = rw f }
]

reserved_by-other :
    (cid other : ConnId) (id : JobId) (e : Engine)
    → ReservedBy other id e
    → other ≢ cid
    → reserved_by cid id e ≡ none
unfolding reserved_by
reserved_by-other cid other id e h ne =
    rw (reserved_by, h.found, held_by-other cid other h.rec h.reserver ne)

counted :
    (other : ConnId) (id : JobId) (ops : OpCounts) (e : Engine)
    → ReservedBy other id e
    → ReservedBy other id (record e { ops = ops })
unfolding job
counted other id ops e h = record {
  rec = h.rec;
  found = h.found;
  reserved = h.reserved;
  reserver = h.reserver;
}

module _ (cid other : ConnId) (id : JobId) (r : Run) (h : ReservedBy other id r.0)
    (ne : other ≢ cid) where
  none_held : (ops : OpCounts) → reserved_by cid id (record r.0 { ops = ops }) ≡ none
  none_held ops = reserved_by-other cid other id _ (counted other id ops r.0 h) ne

  cmd_release-other :
      (now : Nanos) (pri delay : ℕ) → Refused cid r (cmd_release now cid id pri delay r)
  unfolding modify_ops cmd_release
  cmd_release-other now pri delay = rw (cmd_release, none_held _) (refused cid _ r)

  cmd_bury-other : (pri : ℕ) → Refused cid r (cmd_bury cid id pri r)
  unfolding modify_ops cmd_bury
  cmd_bury-other pri = rw (cmd_bury, none_held _) (refused cid _ r)

  cmd_touch-other : (now : Nanos) → Refused cid r (cmd_touch now cid id r)
  unfolding modify_ops cmd_touch
  cmd_touch-other now = rw (cmd_touch, none_held _) (refused cid _ r)

  counted_found : (ops : OpCounts) → job id (record r.0 { ops = ops }) ≡ some h.rec
  unfolding job
  counted_found ops = h.found

  given_up : (e : Engine) → give_up cid id h.rec e ≡ none
  unfolding give_up
  given_up e = rw (h.reserved, held_by-other cid other h.rec h.reserver ne)

  cmd_delete-other : Refused cid r (cmd_delete cid id r)
  unfolding modify_ops cmd_delete
  cmd_delete-other = rw (cmd_delete, counted_found _, given_up _) (refused cid _ r)

  cmd_reserve_job-other : (now : Nanos) → Refused cid r (cmd_reserve_job now cid id r)
  unfolding cmd_reserve_job
  cmd_reserve_job-other now = rw (cmd_reserve_job, h.found, h.reserved) (refused cid _ r)

  cmd_kick_job-other : (now : Nanos) → Refused cid r (cmd_kick_job now cid id r)
  unfolding cmd_kick_job
  cmd_kick_job-other now = rw (cmd_kick_job, h.found, h.reserved) (refused cid _ r)

dispatch_command-other :
    (snap : SysSnapshot) (now : Nanos) (cid other : ConnId) (cmd : Command) (id : JobId) (r : Run)
    → subject cmd ≡ some id
    → ReservedBy other id r.0
    → other ≢ cid
    → Refused cid r (dispatch_command snap now cid cmd r)
unfolding dispatch_command subject
dispatch_command-other snap now cid other cmd id r e h ne =
    go cmd e (λ j i. subst (λ k. ReservedBy other k r.0) (sym i) h)
  where
    go :
        (cmd : Command)
        → subject cmd ≡ some id
        → ((k : JobId) → k ≡ id → ReservedBy other k r.0)
        → Refused cid r (dispatch_command snap now cid cmd r)
    go (Command.reserve_job k) e g = cmd_reserve_job-other cid other k r (g k (some-inj e)) ne now
    go (Command.delete k) e g = cmd_delete-other cid other k r (g k (some-inj e)) ne
    go (Command.release k pri delay) e g =
        cmd_release-other cid other k r (g k (some-inj e)) ne now pri delay
    go (Command.bury k pri) e g = cmd_bury-other cid other k r (g k (some-inj e)) ne pri
    go (Command.touch k) e g = cmd_touch-other cid other k r (g k (some-inj e)) ne now
    go (Command.kick_job k) e g = cmd_kick_job-other cid other k r (g k (some-inj e)) ne now
    go _ e g = ground arith

-- A known connection that reserves, deletes, releases, buries, touches or kicks a job that another
-- connection has reserved is refused with NOT_FOUND, and nothing else changes but the operation
-- counters.
pub handle-others_job :
    (snap : SysSnapshot) (now : Nanos) (cid other : ConnId) (cmd : Command) (id : JobId) (r : Run)
    → Map.contains_key cid r.0.conns ≡ true
    → subject cmd ≡ some id
    → ReservedBy other id r.0
    → other ≢ cid
    → Refused cid r (handle snap now cid cmd r)
unfolding handle
handle-others_job snap now cid other cmd id r known e h ne =
    rw known (dispatch_command-other snap now cid other cmd id r e h ne)
