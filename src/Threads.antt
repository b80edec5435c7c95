-- ===== src/Threads.antt =====
-- src/server_threaded.c: the thread-pool server.
pub mod Queue
pub mod Fifo
pub mod Pool
pub mod Wakeups
pub mod PoolInv
pub mod Progress
pub mod Handle
pub mod HandleLaws
pub mod Args
pub mod Stream
pub mod Took
pub mod Ran
pub mod Interleaved
pub mod Workers
pub mod Turned
pub mod Linear
pub mod OnMap
pub mod Alone
pub mod OneWorker
mod Tests
pub mod Agree
