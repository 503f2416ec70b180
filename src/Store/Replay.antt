-- ===== src/Store/Replay.antt =====
-- crates/store/src/replay.rs: the scan of the segment files and the replay of their records.
pub mod Total
pub mod Live
use beanstalkd_rust.Base.{
  ℕ, zero, suc, ◌+◌, ◌-◌, ◌≡◌, max, Bool, true, false, ◌&&◌, ◌||◌, not, Option, none, some, List,
  [], ◌∷◌, ◌++◌, Bytes, codes, length, take, drop, all, any, ltb, leb, ◌==◌, is_some, is_empty,
  if◌then◌else◌, saturating_add, max_u64, incr64, ◌%◌, ◌^◌,
}
use mathlib.Core.Option
use beanstalkd_rust.Engine.Model.{JobRecord}
use beanstalkd_rust.Proto.Decimal.{decimal}
use beanstalkd_rust.Proto.Types.{TubeName, JobId}
use beanstalkd_rust.Std.Map
use beanstalkd_rust.Std.Map.{Map}
use beanstalkd_rust.Std.Order.{eqb, nat_ord}
use beanstalkd_rust.Store.Format.{Crc32c, Rec, Parsed, id, magic, version, seg_header_len, parse_at}
use beanstalkd_rust.Store.Outcome.{Outcome, ok, err}
use beanstalkd_rust.Store.TubeList.{TubeList, add_job, remove_job}
use beanstalkd_rust.Store.Words.{from_le}

pub record ReplayJob : Type 0 where
  pub job : JobRecord
  pub tube : TubeName
  pub body : Bytes
  pub order : ℕ
  pub seg : ℕ
  pub off : ℕ
  pub put_len : ℕ
  pub used : ℕ

pub record ReplayState : Type 0 where
  pub jobs : Map JobId ReplayJob
  pub max_id : JobId
  pub seq : ℕ
  pub tubes : TubeList

-- `ReplayState::default`
abbrev pub empty : ReplayState
empty = record { jobs = []; max_id = 0; seq = 0; tubes = record { order = []; info = [] } }

-- A put of a job that is there already: its place in the order and in the tube list stay.
unfoldable pub put_again : JobRecord → TubeName → Bytes → ℕ → ℕ → ℕ → ReplayJob → ReplayJob
put_again r tube body seg off len j = record j {
  job = r;
  tube = tube;
  body = body;
  seg = seg;
  off = off;
  put_len = len;
  used = len;
}

unfoldable pub updated : JobRecord → ℕ → ReplayJob → ReplayJob
updated r len j = record j { job = r; used = (j.used + len) % 2 ^ 64 }

unfoldable pub apply_put : JobRecord → TubeName → Bytes → ℕ → ℕ → ℕ → ReplayState → ReplayState
unfolding put_again
apply_put r tube body seg off len st = elim (Map.get r.id st.jobs) [
  | some j ↦ record st { jobs = Map.modify r.id (put_again r tube body seg off len) st.jobs }
  | none ↦ record st {
    tubes = add_job tube st.tubes;
    jobs =
        Map.insert r.id
          (record {
            job = r;
            tube = tube;
            body = body;
            order = st.seq;
            seg = seg;
            off = off;
            put_len = len;
            used = len;
          })
          st.jobs;
  }
]

-- What every record does to the counters.
unfoldable pub counted : Rec → ReplayState → ReplayState
unfolding id incr64
counted rec st = record st { max_id = max st.max_id (id rec); seq = incr64 st.seq }

unfoldable pub apply_update : JobRecord → ℕ → ReplayState → ReplayState
unfolding updated
apply_update r len st = record st { jobs = Map.modify r.id (updated r len) st.jobs }

-- A deletion of a job that is there.
unfoldable pub apply_delete : JobId → ReplayState → TubeList → ReplayState
apply_delete i st tubes = record st { jobs = Map.remove i st.jobs; tubes = tubes }

-- `none` is a panic in `remove_job`.
unfoldable pub apply : Rec → ℕ → ℕ → ℕ → ReplayState → Option ReplayState
unfolding counted apply_put apply_update apply_delete
apply (Rec.put r tube body) seg off len st =
    some (apply_put r tube body seg off len (counted (Rec.put r tube body) st))
apply (Rec.update r) seg off len st = some (apply_update r len (counted (Rec.update r) st))
apply (Rec.delete i) seg off len st = elim (Map.get i st.jobs) [
  | none ↦ some (counted (Rec.delete i) st)
  | some j ↦ Option.map (apply_delete i (counted (Rec.delete i) st)) (remove_job j.tube st.tubes)
]
