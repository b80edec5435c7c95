-- ===== src/Epoll/Conn.antt =====
-- src/server.c: `conn_t` and its input buffer.
use redis_server_c.Prelude.{ℕ, suc, Bool, true, false, List, [], Bytes}
use redis_server_c.Resp.Reply.{RespBuf, resp_buf_init}
use redis_server_c.Cmd.State.{Env, Server}
use redis_server_c.Cmd.Dispatch.{cmd_dispatch}
use redis_server_c.Input.{DynBuf, dyn_buf_append, dyn_buf_consume}

-- `ev.events` of a call of epoll_ctl().
pub record EpollEvents : Type 0 where
  pub epollin : Bool
  pub epollout : Bool

abbrev pub interest : Bool → EpollEvents
interest want = record { epollin = true; epollout = want }

-- `conn_t`, with the events of the last call of epoll_ctl() for it; `input` is `in_buf` with `in_len` and `in_cap`.
pub record Conn : Type 0 where
  pub fd : ℕ
  pub input : DynBuf
  pub out : RespBuf
  pub out_sent : ℕ
  pub closing : Bool
  pub want_write : Bool
  pub events : EpollEvents

-- READ_CHUNK and MAX_CONN_INPUT_BUF
abbrev pub read_chunk : ℕ
read_chunk = 16384

abbrev pub max_conn_input_buf : ℕ
max_conn_input_buf = 16777216

-- `calloc` with `resp_buf_init`; the events are those of the EPOLL_CTL_ADD that follows.
abbrev pub new_conn : ℕ → Conn
new_conn fd = record {
  fd = fd;
  input = record { buf = []; cap = 0 };
  out = resp_buf_init;
  out_sent = 0;
  closing = false;
  want_write = false;
  events = interest false;
}

abbrev pub conn_in_append : Conn → Bytes → Conn
conn_in_append c bytes = record c { input = dyn_buf_append c.input bytes }

abbrev pub conn_in_consume : Conn → ℕ → Conn
conn_in_consume c n = record c { input = dyn_buf_consume c.input n }

-- What the commands work on, with the answers of the system to the commands still to come.
pub record World : Type 0 where
  pub server : Server
  pub answers : ℕ → Env

-- `cmd_dispatch` in the world.
abbrev pub dispatch : World → List Bytes → RespBuf → World × RespBuf
dispatch w argv out =
    let (g, out') = cmd_dispatch (w.answers 0) w.server argv out in
    (record { server = g; answers = λ i. w.answers (suc i) }, out')
