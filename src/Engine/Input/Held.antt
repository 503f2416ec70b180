-- ===== src/Engine/Input/Held.antt =====
-- engine.rs, `do_reserve`: the connection's own lists of what it has reserved.
use beanstalkd_rust.Base.{
  ℕ, ◌≡◌, refl, sym, ap, arith, ◌∙◌, true, Bool-cases, inl, inr, some, subst, incr32, incr64,
}
use beanstalkd_rust.Engine.Model.{ConnId, ConnState, Nanos, JobRec}
use beanstalkd_rust.Engine.State.{Engine, conn, job, modify_conn, modify_job, modify_tube}
use beanstalkd_rust.Engine.Tubes.{refresh_conn_tick, conn_tickat, same_key}
use beanstalkd_rust.Engine.Indexes.{modify_ct, modify_stat}
use beanstalkd_rust.Engine.Reserve.{after_secs, hold, take_job, do_reserve, connsetworker}
use beanstalkd_rust.Proto.Types.{JobId}
use beanstalkd_rust.Std.Order.{nat_ord, pair_ord, eqb}
use beanstalkd_rust.Std.Map
use beanstalkd_rust.Std.Map.{get-modify, get-insert}
use beanstalkd_rust.Std.Set
use beanstalkd_rust.Std.Set.{contains-insert}

-- The connection lists job `id` among its reservations under `seq`, and among their deadlines.
pub record Lists (seq : ℕ) (deadline : Nanos) (id : JobId) (c : ConnState) : Type 0 where
  pub reserved : Map.get seq c.reserved ≡ some id
  pub by_deadline : Set.contains (deadline, id) c.reserved_by_deadline ≡ true

-- There is such a connection, and it lists the job.
abbrev pub Holds : ConnId → ℕ → Nanos → JobId → Engine → Type 0
Holds cid seq deadline id e = (c : ConnState) × (conn cid e ≡ some c) × Lists seq deadline id c

conn-modify_conn :
    (cid : ConnId) (f : ConnState → ConnState) (e : Engine) (c : ConnState)
    → conn cid e ≡ some c
    → conn cid (modify_conn cid f e) ≡ some (f c)
unfolding conn modify_conn
conn-modify_conn cid f e c h =
    let self : eqb cid cid ≡ true = ground arith in get-modify cid cid f e.conns ∙ rw (self, h) refl

hold-Lists :
    (seq : ℕ) (deadline : Nanos) (id : JobId) (c : ConnState)
    → Lists seq deadline id (hold seq deadline id c)
unfolding hold
hold-Lists seq deadline id c =
    let self : eqb seq seq ≡ true = ground arith in
    let pair : eqb {K = ℕ × ℕ} (deadline, id) (deadline, id) ≡ true = ground arith in
    record {
      reserved = get-insert seq seq id c.reserved ∙ rw self refl;
      by_deadline =
          contains-insert (deadline, id) (deadline, id) c.reserved_by_deadline ∙ rw pair refl;
    }

refresh_conn_tick-Holds :
    (cid : ConnId) (seq : ℕ) (deadline : Nanos) (id : JobId) (e : Engine)
    → Holds cid seq deadline id e
    → Holds cid seq deadline id (refresh_conn_tick cid e)
unfolding refresh_conn_tick conn
refresh_conn_tick-Holds cid seq deadline id e (c, there, lists) =
    elim (Bool-cases (same_key (conn_tickat c) c.tick_key)) [
      | inl b ↦ (c, rw (refresh_conn_tick, there, b) there, lists)
      | inr b ↦ (
        record c { tick_key = conn_tickat c },
        rw (refresh_conn_tick, there, b)
            (conn-modify_conn cid (λ c'. record c' { tick_key = conn_tickat c }) e c there),
        record { reserved = lists.reserved; by_deadline = lists.by_deadline },
      )
    ]

pub connsetworker-known :
    (cid : ConnId) (e : Engine) (c : ConnState)
    → conn cid e ≡ some c
    → (c' : ConnState) × (conn cid (connsetworker cid e) ≡ some c')
unfolding connsetworker modify_ct conn
connsetworker-known cid e c h = elim (Bool-cases c.is_worker) [
  | inl t ↦
      let same : connsetworker cid e ≡ e = rw (connsetworker, h, t) in (c, ap (conn cid) same ∙ h)
  | inr f ↦
      let work : ConnState → ConnState = λ c. record c { is_worker = true } in
      let set : connsetworker cid e
          ≡ modify_ct (λ n. record n { cur_workers = incr32 n.cur_workers })
              (modify_conn cid work e) =
        rw (connsetworker, h, f) in
      (work c, ap (conn cid) set ∙ conn-modify_conn cid work e c h)
]

pub do_reserve-Holds :
    (cid : ConnId) (id : JobId) (now : Nanos) (e : Engine) (j : JobRec) (c : ConnState)
    → job id e ≡ some j
    → conn cid e ≡ some c
    → Holds cid e.next_list_seq (after_secs now j.ttr) id (do_reserve cid id now e)
unfolding do_reserve modify_ct modify_tube modify_job conn
do_reserve-Holds cid id now e j c h known =
    let seq = e.next_list_seq in
    let due = after_secs now j.ttr in
    let taken =
      modify_job id (take_job cid due seq) (record e { next_list_seq = incr64 e.next_list_seq }) in
    let counted =
      modify_ct (λ c. record c { reserved_ct = incr64 c.reserved_ct })
        (modify_conn cid (hold seq due id) taken) in
    let stats =
      modify_tube j.tube (modify_stat (λ s. record s { reserved_ct = incr64 s.reserved_ct }))
        counted in
    let done : do_reserve cid id now e ≡ refresh_conn_tick cid stats = rw (do_reserve, h) in
    subst (Holds cid seq due id) (sym done) (
      refresh_conn_tick-Holds cid seq due id stats (
        hold seq due id c,
        conn-modify_conn cid (hold seq due id) taken c known,
        hold-Lists seq due id c,
      ))
