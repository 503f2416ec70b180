-- ===== src/Base.antt =====
-- The names that all modules share: the libraries', passed on, and those of three children.
mod Tests
mod Lists
mod Words
pub use Tests.*
pub use Lists.*
pub use Words.{max_u64, max_u32, Bytes, codes}
unfoldable pub use Words.{incr64, incr32, saturating_add}
pub use Prim.Native.Nat.{ℕ, zero, suc, ◌+◌, ◌-◌, ◌*◌, ◌/◌, ◌%◌, ◌^◌, ◌≤◌, ◌<◌, min, max, compare}
pub use Prim.Native.Nat.{Ordering}
pub use mathlib.Core.Path.{◌≡◌, refl, sym, ap, subst, ◌∙◌}
pub use mathlib.Core.Logic.{◌≢◌, ◌↔◌, ◌⊎◌, inl, inr}
pub use mathlib.Core.Bool.{Bool, true, false, not, ◌&&◌, ◌||◌}
pub use mathlib.Core.Option.{Option, none, some}
pub use mathlib.Core.List.{List, [], ◌∷◌, ◌++◌, map, reverse, append_assoc, append-nil}
pub use native.Mathlib.Omega.{arith}
