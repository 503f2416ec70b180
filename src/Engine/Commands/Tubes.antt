-- ===== src/Engine/Commands/Tubes.antt =====
-- engine.rs: `cmd_use`, `cmd_watch`, `cmd_ignore`, `cmd_pause_tube`.
use beanstalkd_rust.Base.{
  ℕ, ◌-◌, ◌*◌, Bool, true, false, Option, none, some, length, ltb, ◌==◌, if◌then◌else◌, incr64,
  incr32, saturating_add,
}
use beanstalkd_rust.Engine.Ms
use beanstalkd_rust.Engine.Model.{Nanos, ConnId, TubeId, TubeState, nanos_per_sec}
use beanstalkd_rust.Engine.State.{Engine, Run, conn, tube, modify_conn, modify_tube, reply}
use beanstalkd_rust.Engine.Tubes.{find_or_make_tube, gc_tube_if_orphan}
use beanstalkd_rust.Engine.Indexes.{modify_stat}
use beanstalkd_rust.Engine.Queue.{use_tube_of}
use beanstalkd_rust.Engine.Commands.Put.{modify_ops}
use beanstalkd_rust.Proto.Types.{TubeName, Response}
use beanstalkd_rust.Std.Order.{nat_ord, pair_ord, bytes_ord}
use beanstalkd_rust.Std.Map
use beanstalkd_rust.Std.Set

unfoldable pub drop_use : TubeId → Engine → Engine
drop_use tid e =
    gc_tube_if_orphan tid (modify_tube tid (λ t. record t { using_ct = t.using_ct - 1 }) e)

switch_tube : ConnId → TubeId → TubeId → Engine → Engine
unfolding drop_use
switch_tube cid old new e =
    modify_conn cid (λ c. record c { use_tube = new })
      (modify_tube new (λ t. record t { using_ct = incr32 t.using_ct }) (drop_use old e))

unfoldable pub cmd_use : ConnId → TubeName → Run → Run
unfolding modify_ops switch_tube
cmd_use cid name r =
    let counted = modify_ops (λ o. record o { cmd_use = incr64 o.cmd_use }) r.0 in
    let (new, e) = find_or_make_tube name counted in
    let old = use_tube_of cid e in
    reply cid (Response.using name) (if old == new then e else switch_tube cid old new e, r.1)

-- `self.conns.get(&cid).map(|c| c.watch.contains(&tid))`, with the value for a missing connection.
unfoldable pub watches : Bool → ConnId → TubeId → Engine → Bool
watches missing cid tid e = elim (conn cid e) [ none ↦ missing | some c ↦ Ms.has tid c.watch ]

unfoldable pub watch_len : ConnId → Engine → ℕ
watch_len cid e = elim (conn cid e) [ none ↦ 0 | some c ↦ length c.watch.items ]

add_watch : ConnId → TubeId → Engine → Engine
add_watch cid tid e =
    modify_tube tid (λ t. record t { watching_ct = incr32 t.watching_ct })
      (modify_conn cid (λ c. record c { watch = Ms.append tid c.watch }) e)

unfoldable pub cmd_watch : ConnId → TubeName → Run → Run
unfolding modify_ops add_watch watches watch_len
cmd_watch cid name r =
    let counted = modify_ops (λ o. record o { cmd_watch = incr64 o.cmd_watch }) r.0 in
    let (tid, e) = find_or_make_tube name counted in
    let watched = if watches true cid tid e then e else add_watch cid tid e in
    reply cid (Response.watching (watch_len cid watched)) (watched, r.1)

unfoldable pub drop_watch : TubeId → Engine → Engine
drop_watch tid e =
    gc_tube_if_orphan tid (modify_tube tid (λ t. record t { watching_ct = t.watching_ct - 1 }) e)

stop_watching : ConnId → TubeId → Engine → Engine
unfolding drop_watch
stop_watching cid tid e =
    drop_watch tid (modify_conn cid (λ c. record c { watch = Ms.remove tid c.watch }) e)

-- Tube `tid` is ignored, if it is there and watched.
ignore_tube : ConnId → Option TubeId → Run → Run
unfolding stop_watching watches watch_len
ignore_tube cid none r = reply cid (Response.watching (watch_len cid r.0)) r
ignore_tube cid (some tid) r =
    let left = stop_watching cid tid r.0 in
    if watches false cid tid r.0
    then (if ltb (watch_len cid r.0) 2
        then reply cid Response.not_ignored r
        else reply cid (Response.watching (watch_len cid left)) (left, r.1))
    else reply cid (Response.watching (watch_len cid r.0)) r

unfoldable pub cmd_ignore : ConnId → TubeName → Run → Run
unfolding modify_ops ignore_tube
cmd_ignore cid name r =
    let counted = modify_ops (λ o. record o { cmd_ignore = incr64 o.cmd_ignore }) r.0 in
    ignore_tube cid (Map.get name counted.tube_ids) (counted, r.1)

-- "pause 0" pauses for one nanosecond.
unfoldable pub pause_nanos : ℕ → Nanos
pause_nanos delay = if delay == 0 then 1 else delay * nanos_per_sec

pause_slot : Nanos → TubeId → TubeState → Nanos → Engine → Engine
unfolding modify_stat
pause_slot now tid t nanos e =
    let until = saturating_add now nanos in
    let paused =
      modify_tube tid
        (λ t.
          modify_stat (λ s. record s { pause_ct = incr64 s.pause_ct })
            (record t { pause = nanos; unpause_at = until }))
        e in
    let others = if ltb 0 t.pause then Set.remove (t.unpause_at, tid) e.pauses else e.pauses in
    record paused { pauses = Set.insert (until, tid) others }

unfoldable pub count_pause : Engine → Engine
unfolding modify_ops
count_pause = modify_ops (λ o. record o { cmd_pause_tube = incr64 o.cmd_pause_tube })

-- A name without a live slot, which the maps rule out, gets no reply.
unfoldable pub cmd_pause_tube : Nanos → ConnId → TubeName → ℕ → Run → Run
unfolding count_pause pause_slot pause_nanos
cmd_pause_tube now cid name delay r =
    let e = count_pause r.0 in
    elim (Map.get name e.tube_ids) [
      | none ↦ reply cid Response.not_found (e, r.1)
      | some tid ↦ elim (tube tid e) [
        | none ↦ (e, r.1)
        | some t ↦ reply cid Response.paused (pause_slot now tid t (pause_nanos delay) e, r.1)
      ]
    ]

unfoldable pub cmd_pause_tube_bad_name : ConnId → Run → Run
unfolding count_pause
cmd_pause_tube_bad_name cid r = reply cid Response.bad_format (count_pause r.0, r.1)
