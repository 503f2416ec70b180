-- ===== src/Store/JobRecords.antt =====
-- crates/store/src/format.rs: the 57 bytes of a `JobRecord`.
use beanstalkd_rust.Base.{
  ℕ, ◌-◌, ◌^◌, ◌≤◌, ◌<◌, ◌≡◌, refl, arith, Bool, false, ◌||◌, Option, none, some, ◌++◌, Bytes,
  length, length-append, ltb, ◌==◌, if◌then◌else◌, ◌>>=◌, append_assoc,
}
use beanstalkd_rust.Proto.Types.{JobId}
use beanstalkd_rust.Engine.Model.{JobRecord, RecordState}
use beanstalkd_rust.Store.Words.{to_le, cur_uint, cur_uint-to_le, to_le-length}

abbrev pub jobrec_len : ℕ
jobrec_len = 57

-- `MAX_RECORD_ID`
abbrev pub max_record_id : ℕ
max_record_id = 2 ^ 62 - 1

unfoldable pub state_byte : RecordState → ℕ
state_byte RecordState.ready = 0
state_byte RecordState.delayed = 1
state_byte RecordState.buried = 2

unfoldable pub state_of : ℕ → Option RecordState
state_of n =
    if n == 0
    then some RecordState.ready
    else if n == 1
    then some RecordState.delayed
    else if n == 2
    then some RecordState.buried
    else none

-- `id == 0 || id > MAX_RECORD_ID`
unfoldable pub bad_id : JobId → Bool
bad_id id = id == 0 || ltb max_record_id id

-- The bytes that `encode_jobrec` pushes.
unfoldable pub encode_jobrec : JobRecord → Bytes
encode_jobrec r =
    to_le 8 r.id
    ++ to_le 4 r.pri
    ++ to_le 4 r.delay
    ++ to_le 4 r.ttr
    ++ to_le 8 r.created_at
    ++ to_le 8 r.deadline_at
    ++ to_le 1 (state_byte r.state)
    ++ to_le 4 r.reserve_ct
    ++ to_le 4 r.timeout_ct
    ++ to_le 4 r.release_ct
    ++ to_le 4 r.bury_ct
    ++ to_le 4 r.kick_ct

unfoldable pub decode_jobrec : Bytes → Option (JobRecord × Bytes)
unfolding cur_uint state_of bad_id
decode_jobrec c = do
  (id, c) ← cur_uint 8 c
  (pri, c) ← cur_uint 4 c
  (delay, c) ← cur_uint 4 c
  (ttr, c) ← cur_uint 4 c
  (created_at, c) ← cur_uint 8 c
  (deadline_at, c) ← cur_uint 8 c
  (byte, c) ← cur_uint 1 c
  state ← state_of byte
  (reserve_ct, c) ← cur_uint 4 c
  (timeout_ct, c) ← cur_uint 4 c
  (release_ct, c) ← cur_uint 4 c
  (bury_ct, c) ← cur_uint 4 c
  (kick_ct, c) ← cur_uint 4 c
  let r : JobRecord = record {
    id = id;
    pri = pri;
    delay = delay;
    ttr = ttr;
    created_at = created_at;
    deadline_at = deadline_at;
    state = state;
    reserve_ct = reserve_ct;
    timeout_ct = timeout_ct;
    release_ct = release_ct;
    bury_ct = bury_ct;
    kick_ct = kick_ct;
  }
  if bad_id id then none else some (r, c)

abbrev pub Is32 : ℕ → Type 0
Is32 n = n < 2 ^ 32

abbrev pub Is64 : ℕ → Type 0
Is64 n = n < 2 ^ 64

-- The fields are within their machine words, and the id is one that a record may carry.
pub record IsWritable (r : JobRecord) : Type 0 where
  pub id_pos : 0 < r.id
  pub id_max : r.id ≤ max_record_id
  pub pri : Is32 r.pri
  pub delay : Is32 r.delay
  pub ttr : Is32 r.ttr
  pub created_at : Is64 r.created_at
  pub deadline_at : Is64 r.deadline_at
  pub reserve_ct : Is32 r.reserve_ct
  pub timeout_ct : Is32 r.timeout_ct
  pub release_ct : Is32 r.release_ct
  pub bury_ct : Is32 r.bury_ct
  pub kick_ct : Is32 r.kick_ct

pub bad_id-good : (id : JobId) → 0 < id → id ≤ max_record_id → bad_id id ≡ false
unfolding bad_id
bad_id-good id p h = ground arith

state_of-state_byte : (s : RecordState) → state_of (state_byte s) ≡ some s
unfolding state_of state_byte
state_of-state_byte RecordState.ready = refl
state_of-state_byte RecordState.delayed = refl
state_of-state_byte RecordState.buried = refl

state_byte-lt : (s : RecordState) → state_byte s < 256
unfolding state_byte
state_byte-lt RecordState.ready = omega arith
state_byte-lt RecordState.delayed = omega arith
state_byte-lt RecordState.buried = omega arith

pub encode_jobrec-length : (r : JobRecord) → length (encode_jobrec r) ≡ jobrec_len
unfolding encode_jobrec
encode_jobrec-length r = simp (length-append, to_le-length)

pub decode_jobrec-encode :
    (r : JobRecord) (rest : Bytes)
    → IsWritable r
    → decode_jobrec (encode_jobrec r ++ rest) ≡ some (r, rest)
unfolding decode_jobrec encode_jobrec
decode_jobrec-encode r rest v = simp (
  append_assoc,
  cur_uint-to_le 8 r.id _ (let h = v.id_max in omega arith),
  cur_uint-to_le 4 r.pri _ v.pri,
  cur_uint-to_le 4 r.delay _ v.delay,
  cur_uint-to_le 4 r.ttr _ v.ttr,
  cur_uint-to_le 8 r.created_at _ v.created_at,
  cur_uint-to_le 8 r.deadline_at _ v.deadline_at,
  cur_uint-to_le 1 (state_byte r.state) _ (state_byte-lt r.state),
  state_of-state_byte r.state,
  cur_uint-to_le 4 r.reserve_ct _ v.reserve_ct,
  cur_uint-to_le 4 r.timeout_ct _ v.timeout_ct,
  cur_uint-to_le 4 r.release_ct _ v.release_ct,
  cur_uint-to_le 4 r.bury_ct _ v.bury_ct,
  cur_uint-to_le 4 r.kick_ct _ v.kick_ct,
  bad_id-good r.id v.id_pos v.id_max,
)

abbrev pub IsRecordId : JobId → Type 0
IsRecordId id = (0 < id) × (id ≤ max_record_id)

pub bad_id-IsRecordId : (id : JobId) → bad_id id ≡ false → IsRecordId id
unfolding bad_id
bad_id-IsRecordId id h = ground arith

pub decode_jobrec-IsRecordId :
    (b rest : Bytes) (r : JobRecord) → decode_jobrec b ≡ some (r, rest) → IsRecordId r.id
unfolding decode_jobrec
decode_jobrec-IsRecordId b rest r h = ground (arith, bad_id-IsRecordId r.id)
