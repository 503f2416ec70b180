-- ===== src/Proto/Parse.antt =====
-- crates/proto/src/parse.rs: `which_cmd`, `parse_line_raw` and `parse_line`.
pub mod PutLine
pub mod Limits
use beanstalkd_rust.Base.{
  ℕ, ◌-◌, ◌^◌, Bool, true, false, not, ◌&&◌, Option, none, some, List, [], ◌∷◌, ltb, ◌==◌, is_empty,
  length, any, drop, if◌then◌else◌, Bytes, codes,
}
use beanstalkd_rust.Proto.Types.{Command, Response, TubeName}
use beanstalkd_rust.Proto.Result.{Result, ok, err, ◌>>=◌, or_bad_format}
use beanstalkd_rust.Proto.Numbers.{
  tube_name_new, read_u64_partial, read_u32_partial, read_u64_full, read_u32_full,
  read_tube_name_span, parse_kick_count,
}

pub record PutHeader : Type 0 where
  pub pri : ℕ
  pub delay : ℕ
  pub ttr : ℕ
  pub body_size : ℕ
  pub trailing_garbage : Bool

pub data ParsedLine : Type 0 where
  command : Command → ParsedLine
  put : PutHeader → ParsedLine

pub data Op : Type 0 where
  put peek_job peek_ready peek_delayed peek_buried reserve_timeout reserve_job reserve delete : Op
  release bury kick kick_job touch stats_job stats_tube stats use_tube watch ignore : Op
  list_tubes_watched list_tube_used list_tubes quit pause_tube : Op

-- `CMD_TESTS`, in the order of the source.
abbrev pub cmd_tests : List (Bytes × Op)
cmd_tests =
    (codes "put ", Op.put)
    ∷ (codes "peek ", Op.peek_job)
    ∷ (codes "peek-ready", Op.peek_ready)
    ∷ (codes "peek-delayed", Op.peek_delayed)
    ∷ (codes "peek-buried", Op.peek_buried)
    ∷ (codes "reserve-with-timeout ", Op.reserve_timeout)
    ∷ (codes "reserve-job ", Op.reserve_job)
    ∷ (codes "reserve", Op.reserve)
    ∷ (codes "delete ", Op.delete)
    ∷ (codes "release ", Op.release)
    ∷ (codes "bury ", Op.bury)
    ∷ (codes "kick ", Op.kick)
    ∷ (codes "kick-job ", Op.kick_job)
    ∷ (codes "touch ", Op.touch)
    ∷ (codes "stats-job ", Op.stats_job)
    ∷ (codes "stats-tube ", Op.stats_tube)
    ∷ (codes "stats", Op.stats)
    ∷ (codes "use ", Op.use_tube)
    ∷ (codes "watch ", Op.watch)
    ∷ (codes "ignore ", Op.ignore)
    ∷ (codes "list-tubes-watched", Op.list_tubes_watched)
    ∷ (codes "list-tube-used", Op.list_tube_used)
    ∷ (codes "list-tubes", Op.list_tubes)
    ∷ (codes "quit", Op.quit)
    ∷ (codes "pause-tube", Op.pause_tube)
    ∷ []

-- `line.len() >= prefix.len() && &line[..prefix.len()] == prefix`
unfoldable pub starts_with : Bytes → Bytes → Bool
starts_with [] line = true
starts_with (p ∷ prefix) [] = false
starts_with (p ∷ prefix) (b ∷ line) = p == b && starts_with prefix line

unfoldable pub find_cmd : List (Bytes × Op) → Bytes → Option (Op × ℕ)
unfolding starts_with
find_cmd [] line = none
find_cmd ((prefix, op) ∷ tests) line =
    let rest = find_cmd tests line in
    if starts_with prefix line then some (op, length prefix) else rest

unfoldable pub which_cmd : Bytes → Option (Op × ℕ)
unfolding find_cmd
which_cmd = find_cmd cmd_tests

-- `tube_name_from_full_rest`: a rest that is not UTF-8 is no tube name either.
tube_arg : Bytes → (TubeName → Command) → Result ParsedLine
tube_arg rest f = do name ← or_bad_format (tube_name_new rest); ok (ParsedLine.command (f name))

id_arg : Bytes → (ℕ → Command) → Result ParsedLine
id_arg rest f = do id ← or_bad_format (read_u64_full rest); ok (ParsedLine.command (f id))

no_arg : Bytes → Command → Result ParsedLine
no_arg rest cmd = if is_empty rest then ok (ParsedLine.command cmd) else err Response.bad_format

abbrev pub max_i32 : ℕ
max_i32 = 2 ^ 31 - 1

checked_timeout : ℕ → Result ParsedLine
checked_timeout timeout =
    if ltb max_i32 timeout
    then err Response.bad_format
    else ok (ParsedLine.command (Command.reserve_with_timeout timeout))

pause_command : Option TubeName → ℕ → Command
pause_command none delay = Command.pause_tube_bad_name
pause_command (some name) delay = Command.pause_tube name delay

unfoldable pub parse_args : Op → Bytes → Result ParsedLine
unfolding tube_arg id_arg no_arg checked_timeout pause_command
parse_args Op.put rest = do
  (pri, rest) ← or_bad_format (read_u32_partial rest)
  (delay, rest) ← or_bad_format (read_u32_partial rest)
  (ttr, rest) ← or_bad_format (read_u32_partial rest)
  (body_size, rest) ← or_bad_format (read_u32_partial rest)
  ok (
      ParsedLine.put (record {
        pri = pri;
        delay = delay;
        ttr = ttr;
        body_size = body_size;
        trailing_garbage = not (is_empty rest);
      }))
parse_args Op.peek_job rest = id_arg rest Command.peek
parse_args Op.peek_ready rest = no_arg rest Command.peek_ready
parse_args Op.peek_delayed rest = no_arg rest Command.peek_delayed
parse_args Op.peek_buried rest = no_arg rest Command.peek_buried
parse_args Op.reserve_timeout rest = do
  (timeout, rest) ← or_bad_format (read_u32_partial rest)
  checked_timeout timeout
parse_args Op.reserve_job rest = id_arg rest Command.reserve_job
parse_args Op.reserve rest = no_arg rest Command.reserve
parse_args Op.delete rest = id_arg rest Command.delete
parse_args Op.release rest = do
  (id, rest) ← or_bad_format (read_u64_partial rest)
  (pri, rest) ← or_bad_format (read_u32_partial rest)
  delay ← or_bad_format (read_u32_full rest)
  ok (ParsedLine.command (Command.release id pri delay))
parse_args Op.bury rest = do
  (id, rest) ← or_bad_format (read_u64_partial rest)
  pri ← or_bad_format (read_u32_full rest)
  ok (ParsedLine.command (Command.bury id pri))
parse_args Op.kick rest = do
  count ← or_bad_format (parse_kick_count rest)
  ok (ParsedLine.command (Command.kick count))
parse_args Op.kick_job rest = id_arg rest Command.kick_job
parse_args Op.touch rest = id_arg rest Command.touch
parse_args Op.stats_job rest = id_arg rest Command.stats_job
parse_args Op.stats_tube rest = tube_arg rest Command.stats_tube
parse_args Op.stats rest = no_arg rest Command.stats
parse_args Op.use_tube rest = tube_arg rest Command.use_tube
parse_args Op.watch rest = tube_arg rest Command.watch
parse_args Op.ignore rest = tube_arg rest Command.ignore
parse_args Op.list_tubes_watched rest = no_arg rest Command.list_tubes_watched
parse_args Op.list_tube_used rest = no_arg rest Command.list_tube_used
parse_args Op.list_tubes rest = no_arg rest Command.list_tubes
parse_args Op.quit rest = ok (ParsedLine.command Command.quit)
parse_args Op.pause_tube rest = do
  (name, rest) ← or_bad_format (read_tube_name_span rest)
  delay ← or_bad_format (read_u32_full rest)
  ok (ParsedLine.command (pause_command (tube_name_new name) delay))

unfoldable pub has_nul : Bytes → Bool
has_nul line = any (λ b. b == 0) line

dispatch_op : Option (Op × ℕ) → Bytes → Result ParsedLine
dispatch_op none line = err Response.unknown_command
dispatch_op (some (op, prefix_len)) line = parse_args op (drop prefix_len line)

unfoldable pub parse_line_raw : Bytes → Result ParsedLine
unfolding has_nul dispatch_op
parse_line_raw line =
    if has_nul line then err Response.bad_format else dispatch_op (which_cmd line) line

-- A `put` comes without its body.
as_command : ParsedLine → Command
as_command (ParsedLine.command cmd) = cmd
as_command (ParsedLine.put h) = Command.put h.pri h.delay h.ttr []

unfoldable pub parse_line : Bytes → Result Command
unfolding parse_line_raw as_command
parse_line line = do p ← parse_line_raw line; ok (as_command p)
