-- ===== src/Store.antt =====
-- src/store.c: the hash table with separate chaining and incremental rehashing.
pub mod Hash
pub mod Number
pub mod Chain
pub mod Table
pub mod State
pub mod Ops
pub mod Spec
pub mod Session
mod Tests
