-- ===== src/Persist.antt =====
-- src/persist.c: snapshots.
pub mod Status
pub mod Codec
pub mod Image
pub mod Load
pub mod Format
pub mod Restore
pub mod RoundTrip
pub mod Survives
pub mod File
pub mod Atomic
pub mod Crash
pub mod Corruption
pub mod Memory
mod Tests
pub mod Capacity
