-- ===== src/Std.antt =====
-- The collections of Rust's standard library that the program uses. Keys are kept in order, as
-- `BTreeMap` and `BTreeSet` do; `HashMap` has no order, and the program reads none from it.
pub mod Order
pub mod Set
pub mod Map
