-- ===== src/Engine/Input/Reads.antt =====
-- engine.rs: the commands that only report, `peek*`, `stats*` and `list-*`.
use beanstalkd_rust.Base.{◌≡◌, ap, arith, Bool, true, false, Bool-cases, inl, inr}
use beanstalkd_rust.Engine.Model.{ConnId, Nanos, SysSnapshot}
use beanstalkd_rust.Engine.State.{Engine, Run, OpCounts, reply}
use beanstalkd_rust.Engine.Commands.Put.{modify_ops}
use beanstalkd_rust.Engine.Commands.Info.{
  cmd_peek, cmd_peek_ready, cmd_peek_delayed, cmd_peek_buried, cmd_stats_job, cmd_stats_tube,
  cmd_stats, cmd_list_tubes, cmd_list_tube_used, cmd_list_tubes_watched,
}
use beanstalkd_rust.Engine.Input.{handle, dispatch_command}
use beanstalkd_rust.Engine.Input.Replies.{reply-engine}
use beanstalkd_rust.Proto.Types.{Command, Response}
use beanstalkd_rust.Std.Order.{nat_ord}
use beanstalkd_rust.Std.Map

-- The commands that ask and change nothing.
unfoldable pub only_reports : Command → Bool
only_reports (Command.peek id) = true
only_reports Command.peek_ready = true
only_reports Command.peek_delayed = true
only_reports Command.peek_buried = true
only_reports (Command.stats_job id) = true
only_reports (Command.stats_tube name) = true
only_reports Command.stats = true
only_reports Command.list_tubes = true
only_reports Command.list_tube_used = true
only_reports Command.list_tubes_watched = true
only_reports _ = false

-- The engine with the operation counters of another.
abbrev with_ops : Engine → OpCounts → Engine
with_ops e ops = record e { ops = ops }

kept :
    (cid : ConnId) (x : Response) (ops : OpCounts) (r : Run)
    → with_ops (reply cid x (with_ops r.0 ops, r.1)).0 r.0.ops ≡ r.0
kept cid x ops r = ap (λ e. with_ops e r.0.ops) (reply-engine cid x (with_ops r.0 ops, r.1))

dispatch_command-reports :
    (snap : SysSnapshot) (now : Nanos) (cid : ConnId) (cmd : Command) (r : Run)
    → only_reports cmd ≡ true
    → with_ops (dispatch_command snap now cid cmd r).0 r.0.ops ≡ r.0
unfolding dispatch_command only_reports modify_ops cmd_peek cmd_peek_ready cmd_peek_delayed
    cmd_peek_buried cmd_stats_job cmd_stats_tube cmd_stats cmd_list_tubes cmd_list_tube_used
    cmd_list_tubes_watched
dispatch_command-reports snap now cid (Command.peek id) r h = kept cid _ _ r
dispatch_command-reports snap now cid Command.peek_ready r h = kept cid _ _ r
dispatch_command-reports snap now cid Command.peek_delayed r h = kept cid _ _ r
dispatch_command-reports snap now cid Command.peek_buried r h = kept cid _ _ r
dispatch_command-reports snap now cid (Command.stats_job id) r h = kept cid _ _ r
dispatch_command-reports snap now cid (Command.stats_tube name) r h = kept cid _ _ r
dispatch_command-reports snap now cid Command.stats r h = kept cid _ _ r
dispatch_command-reports snap now cid Command.list_tubes r h = kept cid _ _ r
dispatch_command-reports snap now cid Command.list_tube_used r h = kept cid _ _ r
dispatch_command-reports snap now cid Command.list_tubes_watched r h = kept cid _ _ r
dispatch_command-reports snap now cid _ r h = ground arith

-- A command that only reports changes no job, tube, connection, index or journal entry: the engine
-- after it differs from the engine before at most in its operation counters.
pub handle-reports :
    (snap : SysSnapshot) (now : Nanos) (cid : ConnId) (cmd : Command) (r : Run)
    → only_reports cmd ≡ true
    → record ((handle snap now cid cmd r).0) { ops = r.0.ops } ≡ r.0
unfolding handle
handle-reports snap now cid cmd r h = elim (Bool-cases (Map.contains_key cid r.0.conns)) [
  | inl t ↦ rw t (dispatch_command-reports snap now cid cmd r h)
  | inr f ↦ rw f
]
