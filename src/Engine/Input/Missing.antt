-- ===== src/Engine/Input/Missing.antt =====
-- engine.rs: the commands on a job that does not exist.
use beanstalkd_rust.Base.{some-inj, ℕ, ◌≡◌, ap, arith, ◌∙◌, true, Option, none, some}
use beanstalkd_rust.Engine.Model.{ConnId, Nanos, SysSnapshot}
use beanstalkd_rust.Engine.State.{Run, OpCounts, job}
use beanstalkd_rust.Engine.Queue.{reserved_by}
use beanstalkd_rust.Engine.Commands.Put.{modify_ops}
use beanstalkd_rust.Engine.Commands.Jobs.{
  cmd_reserve_job, cmd_delete, cmd_release, cmd_bury, cmd_touch, cmd_kick_job,
}
use beanstalkd_rust.Engine.Commands.Info.{cmd_peek, cmd_stats_job, build_stats_job}
use beanstalkd_rust.Engine.Input.{handle, dispatch_command}
use beanstalkd_rust.Engine.Input.Ownership.{Refused, refused}
use beanstalkd_rust.Proto.Types.{Command, JobId}
use beanstalkd_rust.Std.Order.{nat_ord}
use beanstalkd_rust.Std.Map

-- The job that a command names.
unfoldable pub names_job : Command → Option JobId
names_job (Command.reserve_job id) = some id
names_job (Command.delete id) = some id
names_job (Command.release id pri delay) = some id
names_job (Command.bury id pri) = some id
names_job (Command.touch id) = some id
names_job (Command.kick_job id) = some id
names_job (Command.peek id) = some id
names_job (Command.stats_job id) = some id
names_job _ = none

module _ (cid : ConnId) (id : JobId) (r : Run) (h : job id r.0 ≡ none) where
  still_none : (ops : OpCounts) → job id (record r.0 { ops = ops }) ≡ none
  unfolding job
  still_none ops = h

  not_held : (ops : OpCounts) → reserved_by cid id (record r.0 { ops = ops }) ≡ none
  unfolding reserved_by
  not_held ops = rw (reserved_by, still_none ops)

  cmd_release-missing :
      (now : Nanos) (pri delay : ℕ) → Refused cid r (cmd_release now cid id pri delay r)
  unfolding modify_ops cmd_release
  cmd_release-missing now pri delay = rw (cmd_release, not_held _) (refused cid _ r)

  cmd_bury-missing : (pri : ℕ) → Refused cid r (cmd_bury cid id pri r)
  unfolding modify_ops cmd_bury
  cmd_bury-missing pri = rw (cmd_bury, not_held _) (refused cid _ r)

  cmd_touch-missing : (now : Nanos) → Refused cid r (cmd_touch now cid id r)
  unfolding modify_ops cmd_touch
  cmd_touch-missing now = rw (cmd_touch, not_held _) (refused cid _ r)

  cmd_delete-missing : Refused cid r (cmd_delete cid id r)
  unfolding modify_ops cmd_delete
  cmd_delete-missing = rw (cmd_delete, still_none _) (refused cid _ r)

  cmd_peek-missing : Refused cid r (cmd_peek cid id r)
  unfolding modify_ops cmd_peek
  cmd_peek-missing = rw (cmd_peek, still_none _) (refused cid _ r)

  no_stats :
      (now : Nanos) (ops : OpCounts) → build_stats_job id now (record r.0 { ops = ops }) ≡ none
  unfolding build_stats_job
  no_stats now ops = rw (build_stats_job, still_none ops)

  cmd_stats_job-missing : (now : Nanos) → Refused cid r (cmd_stats_job now cid id r)
  unfolding modify_ops cmd_stats_job
  cmd_stats_job-missing now = rw (cmd_stats_job, no_stats now _) (refused cid _ r)

  cmd_reserve_job-missing : (now : Nanos) → Refused cid r (cmd_reserve_job now cid id r)
  unfolding cmd_reserve_job
  cmd_reserve_job-missing now = rw (cmd_reserve_job, h) (refused cid _ r)

  cmd_kick_job-missing : (now : Nanos) → Refused cid r (cmd_kick_job now cid id r)
  unfolding cmd_kick_job
  cmd_kick_job-missing now = rw (cmd_kick_job, h) (refused cid _ r)

dispatch_command-missing :
    (snap : SysSnapshot) (now : Nanos) (cid : ConnId) (cmd : Command) (id : JobId) (r : Run)
    → names_job cmd ≡ some id
    → job id r.0 ≡ none
    → Refused cid r (dispatch_command snap now cid cmd r)
unfolding dispatch_command names_job
dispatch_command-missing snap now cid cmd id r e h = go cmd e (λ k i. ap (λ x. job x r.0) i ∙ h)
  where
    go :
        (cmd : Command)
        → names_job cmd ≡ some id
        → ((k : JobId) → k ≡ id → job k r.0 ≡ none)
        → Refused cid r (dispatch_command snap now cid cmd r)
    go (Command.reserve_job k) e g = cmd_reserve_job-missing cid k r (g k (some-inj e)) now
    go (Command.delete k) e g = cmd_delete-missing cid k r (g k (some-inj e))
    go (Command.release k pri delay) e g =
        cmd_release-missing cid k r (g k (some-inj e)) now pri delay
    go (Command.bury k pri) e g = cmd_bury-missing cid k r (g k (some-inj e)) pri
    go (Command.touch k) e g = cmd_touch-missing cid k r (g k (some-inj e)) now
    go (Command.kick_job k) e g = cmd_kick_job-missing cid k r (g k (some-inj e)) now
    go (Command.peek k) e g = cmd_peek-missing cid k r (g k (some-inj e))
    go (Command.stats_job k) e g = cmd_stats_job-missing cid k r (g k (some-inj e)) now
    go _ e g = ground arith

-- A command of a known connection that names a job that does not exist is refused with NOT_FOUND,
-- and nothing else changes but the operation counters.
pub handle-missing_job :
    (snap : SysSnapshot) (now : Nanos) (cid : ConnId) (cmd : Command) (id : JobId) (r : Run)
    → Map.contains_key cid r.0.conns ≡ true
    → names_job cmd ≡ some id
    → job id r.0 ≡ none
    → Refused cid r (handle snap now cid cmd r)
unfolding handle
handle-missing_job snap now cid cmd id r known e h =
    rw known (dispatch_command-missing snap now cid cmd id r e h)
