-- ===== src/Cmd/State.antt =====
-- src/cmd.c: what a handler reads and changes, and what the operating system answers.
use redis_server_c.Prelude.{ℕ, Bool, List, Bytes}
use redis_server_c.Prelude.Int.{ℤ}
use redis_server_c.Store.State.{Store}
use redis_server_c.Resp.Reply.{RespBuf}
use redis_server_c.Persist.Status.{PersistStatus}

-- The answers that one command gets: the values of the calls of the clock in their order, in
-- milliseconds and in seconds, the status of `persist_save`, and whether `fork` succeeds.
pub record Env : Type 0 where
  pub now_ms : ℕ → ℤ
  pub now_s : ℤ
  pub save_status : PersistStatus
  pub fork_ok : Bool

-- The store with `g_save_path` and `g_lastsave_time`.
pub record Server : Type 0 where
  pub store : Store
  pub save_path : Bytes
  pub lastsave_time : ℤ

-- The server and the reply buffer after a command.
abbrev pub Handled : Type 0
Handled = Server × RespBuf

-- A handler is given `s`, `cmd` and `out`, and what the system answers.
abbrev pub Handler : Type 0
Handler = Env → Server → List Bytes → RespBuf → Handled

-- The store that an operation leaves.
abbrev pub with_store : Server → Store → Server
with_store g s = record g { store = s }
