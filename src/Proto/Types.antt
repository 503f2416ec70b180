-- ===== src/Proto/Types.antt =====
-- crates/proto/src/lib.rs: constants, commands, replies and frames. A `TubeName` is its bytes, and
-- `Bytes` values are lists of numbers below 256.
use beanstalkd_rust.Base.{ℕ, ◌-◌, ◌^◌, Bool, Bytes, codes}

-- `MAX_TUBE_NAME_LEN`
abbrev pub max_tube_name_len : ℕ
max_tube_name_len = 200

-- `LINE_BUF_SIZE`
abbrev pub line_buf_size : ℕ
line_buf_size = 224

-- `DEFAULT_MAX_JOB_SIZE`
abbrev pub default_max_job_size : ℕ
default_max_job_size = 2 ^ 16 - 1

-- `URGENT_THRESHOLD`
abbrev pub urgent_threshold : ℕ
urgent_threshold = 1024

abbrev pub JobId : Type 0
JobId = ℕ

abbrev pub TubeName : Type 0
TubeName = Bytes

abbrev pub default_tube : TubeName
default_tube = codes "default"

pub data Command : Type 0 where
  put : ℕ → ℕ → ℕ → Bytes → Command
  use_tube : TubeName → Command
  reserve : Command
  reserve_with_timeout : ℕ → Command
  reserve_job : JobId → Command
  delete : JobId → Command
  release : JobId → ℕ → ℕ → Command
  bury : JobId → ℕ → Command
  touch : JobId → Command
  watch : TubeName → Command
  ignore : TubeName → Command
  peek : JobId → Command
  peek_ready : Command
  peek_delayed : Command
  peek_buried : Command
  kick : ℕ → Command
  kick_job : JobId → Command
  stats_job : JobId → Command
  stats_tube : TubeName → Command
  stats : Command
  list_tubes : Command
  list_tube_used : Command
  list_tubes_watched : Command
  quit : Command
  pause_tube : TubeName → ℕ → Command
  pause_tube_bad_name : Command

pub data Response : Type 0 where
  inserted : JobId → Response
  buried_id : JobId → Response
  buried : Response
  using : TubeName → Response
  reserved : JobId → Bytes → Response
  found : JobId → Bytes → Response
  watching : ℕ → Response
  kicked : ℕ → Response
  kicked_job : Response
  ok : Bytes → Response
  deadline_soon : Response
  timed_out : Response
  deleted : Response
  released : Response
  touched : Response
  not_found : Response
  not_ignored : Response
  paused : Response
  expected_crlf : Response
  job_too_big : Response
  draining : Response
  out_of_memory : Response
  internal_error : Response
  bad_format : Response
  unknown_command : Response
  authenticated : Response
  unauthorized : Response

pub data PutRejection : Type 0 where
  job_too_big : PutRejection
  trailing_garbage : PutRejection
  expected_crlf : PutRejection
  out_of_memory : PutRejection

-- `PutRejection::response`
unfoldable pub response : PutRejection → Response
response PutRejection.job_too_big = Response.job_too_big
response PutRejection.trailing_garbage = Response.bad_format
response PutRejection.expected_crlf = Response.expected_crlf
response PutRejection.out_of_memory = Response.out_of_memory

pub data Frame : Type 0 where
  command : Command → Frame
  put_rejected : PutRejection → Frame
  put_started : Bool → Frame
  auth : Bytes → Frame
  error : Response → Frame
