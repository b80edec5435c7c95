-- ===== src/Epoll.antt =====
-- src/server.c: the single-threaded server.
pub mod Conn
pub mod Process
pub mod Output
pub mod Serve
pub mod History
pub mod Promised
pub mod Talk
pub mod Turns
pub mod Spoken
pub mod Delivery
pub mod Client
pub mod Inv
pub mod Loop
pub mod Settled
pub mod Table
pub mod LoopInv
pub mod Advance
pub mod Stream
pub mod Order
pub mod OnMap
pub mod Isolation
pub mod Reached
pub mod Main
pub mod Life
pub mod LifeLaws
mod Tests
