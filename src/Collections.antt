-- ===== src/Collections.antt =====
-- The containers of Rust's standard library that the crate keeps its state in.
pub mod BTreeMap
pub mod HashMap
