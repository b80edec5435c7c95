-- ===== src/Cmd.antt =====
-- src/cmd.c: the command handlers and their dispatch.
pub mod Args
pub mod State
pub mod Keyspace
pub mod Many
pub mod Admin
pub mod Dispatch
pub mod Reply
pub mod Answers
pub mod Replies
pub mod OneReply
mod Tests
pub mod Effect
pub mod Promise
pub mod Wording
pub mod Fulfils
pub mod Loops
pub mod Keeps
pub mod Listing
pub mod Promised
pub mod Housekeeping
pub mod Contract
pub mod Room
pub mod Roomy
pub mod Effects
pub mod DispatchEffect
