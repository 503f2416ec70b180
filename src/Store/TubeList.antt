-- ===== src/Store/TubeList.antt =====
-- crates/store/src/replay.rs: the list of tubes in use that replay keeps.
pub mod Placed
pub mod Kept
use beanstalkd_rust.Base.{
  ℕ, ◌-◌, ◌==◌, incr64, max_u64, Bool, true, false, Option, none, some, List, [], ◌∷◌, ◌++◌, length,
  get_elem?, ltb, if◌then◌else◌,
}
use beanstalkd_rust.Engine.Ms.{swap_remove}
use beanstalkd_rust.Proto.Types.{TubeName, default_tube}
use beanstalkd_rust.Std.Map
use beanstalkd_rust.Std.Map.{Map}
use beanstalkd_rust.Std.Order.{eqb, bytes_ord}

pub record TubeList : Type 0 where
  pub order : List TubeName
  pub info : Map TubeName (ℕ × ℕ)

unfoldable pub add_job : TubeName → TubeList → TubeList
unfolding incr64
add_job tube t = if eqb tube default_tube then t else elim (Map.get tube t.info) [
  | some (refs, pos) ↦ record t { info = Map.modify tube (λ e. (incr64 e.0, e.1)) t.info }
  | none ↦ record t {
    order = t.order ++ tube ∷ [];
    info = Map.insert tube (1, length t.order) t.info;
  }
]

unfoldable pub decr64 : ℕ → ℕ
decr64 n = if n == 0 then max_u64 else n - 1

-- The last tube has taken the place `pos`, unless it was the last itself.
unfoldable pub moved_to : ℕ → List TubeName → Map TubeName (ℕ × ℕ) → Map TubeName (ℕ × ℕ)
moved_to pos order info = elim (get_elem? order pos) [
  | none ↦ info
  | some moved ↦ Map.modify moved (λ e. (e.0, pos)) info
]

-- `none` is a panic: a position out of range. The count wraps, as in a release build.
unfoldable pub remove_job : TubeName → TubeList → Option TubeList
unfolding moved_to decr64
remove_job tube t = elim (Map.get tube t.info) [
  | none ↦ some t
  | some (refs, pos) ↦
      if ltb 0 (decr64 refs)
      then some (record t { info = Map.modify tube (λ e. (decr64 e.0, e.1)) t.info })
      else elim (swap_remove pos t.order) [
        | none ↦ none
        | some (gone, order) ↦
            some (record { order = order; info = moved_to pos order (Map.remove tube t.info) })
      ]
]
