-- ===== src/OrdMap.antt =====
-- `BTreeMap<K, V>` of the standard library, which rust/crates/domain and rust/apps/web use, as an
-- association list in the order of its keys. The tree itself is not the repository's code.
pub mod Order
pub mod Map
pub mod Sorted
pub mod Values
pub mod Remove
