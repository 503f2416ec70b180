-- ===== src/Engine/Tubes.antt =====
-- engine.rs: the tube slab (`find_or_make_tube`, `gc_tube_if_orphan`) and the indexes over tubes
-- and connections that `refresh_*` and `clear_expired_pauses` keep current.
pub mod Pauses
pub mod Dispatchable
pub mod DelayHeads
use beanstalkd_rust.Base.{
  ℕ, ◌-◌, Bool, true, false, not, ◌&&◌, Option, none, some, List, [], ◌∷◌, ◌++◌, length, get_elem?,
  set, first, is_empty, ltb, ◌==◌, if◌then◌else◌, min,
}
use mathlib.Core.Option
use beanstalkd_rust.Engine.Ms
use beanstalkd_rust.Engine.Ms.{Ms}
use beanstalkd_rust.Engine.Model.{
  Nanos, ConnId, TubeId, TubeState, ConnState, new_tube, refs, soonest_reserved, safety_margin,
}
use beanstalkd_rust.Engine.State.{Engine, conn, tube, modify_tube, modify_conn}
use beanstalkd_rust.Proto.Types.{TubeName}
use beanstalkd_rust.Std.Order.{nat_ord, pair_ord, bytes_ord}
use beanstalkd_rust.Std.Set
use beanstalkd_rust.Std.Map

-- `DEFAULT_TUBE`
abbrev pub default_tube_id : TubeId
default_tube_id = 0

-- A new tube in the slot of a destroyed one, or in a new slot.
make_tube : TubeName → Engine → TubeId × Engine
make_tube name e =
    let state = new_tube name (length e.tube_order.items) in
    elim (Ms.pop e.free_tube_ids) [
      | some (id, free) ↦ (
        id,
        record e {
          tubes = set e.tubes id (some state);
          free_tube_ids = free;
          tube_ids = Map.insert name id e.tube_ids;
          tube_order = Ms.append id e.tube_order;
        },
      )
      | none ↦ (
        length e.tubes,
        record e {
          tubes = e.tubes ++ some state ∷ [];
          tube_ids = Map.insert name (length e.tubes) e.tube_ids;
          tube_order = Ms.append (length e.tubes) e.tube_order;
        },
      )
    ]

unfoldable pub find_or_make_tube : TubeName → Engine → TubeId × Engine
unfolding make_tube
find_or_make_tube name e = elim (Map.get name e.tube_ids) [
  | some id ↦ (id, e)
  | none ↦ make_tube name e
]

-- `set.remove(&(k, id))` where the key is an `Option`.
unfoldable pub remove_key : Option Nanos → ℕ → List (Nanos × ℕ) → List (Nanos × ℕ)
remove_key none id s = s
remove_key (some k) id s = Set.remove (k, id) s

unfoldable pub insert_key : Option Nanos → ℕ → List (Nanos × ℕ) → List (Nanos × ℕ)
insert_key none id s = s
insert_key (some k) id s = Set.insert (k, id) s

-- The tube that swap-removal moved to position `pos`, if any, takes that position.
move_to : ℕ → Engine → Engine
move_to pos e = elim (get_elem? e.tube_order.items pos) [
  | none ↦ e
  | some moved ↦ modify_tube moved (λ m. record m { pos = pos }) e
]

-- `t` is taken out of its slot `id`. A position out of range would be a panic, and leaves the list.
drop_tube : TubeId → TubeState → Engine → Engine
unfolding move_to
drop_tube id t e =
    let cleared = record e {
      tubes = set e.tubes id none;
      tube_ids = Map.remove t.name e.tube_ids;
      pauses = if ltb 0 t.pause then Set.remove (t.unpause_at, id) e.pauses else e.pauses;
      delay_heads = remove_key t.delay_head id e.delay_heads;
      dispatchable = if t.dispatchable then Set.remove id e.dispatchable else e.dispatchable;
      tube_order = elim (Ms.remove_at t.pos e.tube_order) [
        | none ↦ e.tube_order
        | some (removed, order) ↦ order
      ];
    } in
    let moved = move_to t.pos cleared in
    record moved { free_tube_ids = moved.free_tube_ids ++ id ∷ [] }

unfoldable pub gc_tube_if_orphan : TubeId → Engine → Engine
unfolding drop_tube
gc_tube_if_orphan id e =
    if id == default_tube_id
    then e
    else elim (tube id e) [ none ↦ e | some t ↦ if refs t == 0 then drop_tube id t e else e ]

-- A tube is dispatchable when it has both waiting connections and ready jobs.
abbrev pub wants_dispatch : TubeState → Bool
wants_dispatch t = not (is_empty t.waiting_conns.items) && not (is_empty t.ready)

pub same : Bool → Bool → Bool
same true b = b
same false b = not b

unfoldable pub refresh_dispatchable : TubeId → Engine → Engine
unfolding same
refresh_dispatchable id e = elim (tube id e) [
  | none ↦ e
  | some t ↦
      let want = wants_dispatch t in
      if same want t.dispatchable
      then e
      else (let e' = modify_tube id (λ t. record t { dispatchable = want }) e in
          record e' {
            dispatchable =
                if want then Set.insert id e.dispatchable else Set.remove id e.dispatchable;
          })
]

unfoldable pub same_key : Option Nanos → Option Nanos → Bool
same_key none none = true
same_key (some a) (some b) = a == b
same_key _ _ = false

unfoldable pub refresh_delay_head : TubeId → Engine → Engine
unfolding same_key remove_key insert_key
refresh_delay_head id e = elim (tube id e) [
  | none ↦ e
  | some t ↦
      let head = Option.map (λ (p : Nanos × ℕ). p.0) (first t.delayed) in
      if same_key head t.delay_head
      then e
      else (let e' = modify_tube id (λ t. record t { delay_head = head }) e in
          record e' { delay_heads = insert_key head id (remove_key t.delay_head id e.delay_heads) })
]

earliest : Option Nanos → Option Nanos → Option Nanos
earliest none b = b
earliest (some a) none = some a
earliest (some a) (some b) = some (min a b)

-- The deadlines are computed in `i128` and the result is cut off at 0; here the difference is cut
-- off at 0 first, which gives the same minimum.
unfoldable pub conn_tickat : ConnState → Option Nanos
unfolding earliest soonest_reserved
conn_tickat c =
    let margin = if c.waiting then safety_margin else 0 in
    let due = Option.map (λ (p : Nanos × ℕ). p.0 - margin) (soonest_reserved c) in
    if c.waiting then earliest due c.wait_deadline else due

unfoldable pub refresh_conn_tick : ConnId → Engine → Engine
unfolding same_key remove_key insert_key
refresh_conn_tick cid e = elim (conn cid e) [
  | none ↦ e
  | some c ↦
      let new = conn_tickat c in
      if same_key new c.tick_key
      then e
      else (let e' = modify_conn cid (λ c. record c { tick_key = new }) e in
          record e' { conn_ticks = insert_key new cid (remove_key c.tick_key cid e.conn_ticks) })
]

-- `while let Some(&(at, tube)) = self.pauses.first()`: each round pops the first pause.
unpause : Nanos → List (Nanos × TubeId) → Engine → Engine
unpause now [] e = record e { pauses = [] }
unpause now ((at, id) ∷ later) e =
    let rest = unpause now later (modify_tube id (λ t. record t { pause = 0 }) e) in
    if ltb now at then record e { pauses = (at, id) ∷ later } else rest

unfoldable pub clear_expired_pauses : Nanos → Engine → Engine
unfolding unpause
clear_expired_pauses now e = unpause now e.pauses e
