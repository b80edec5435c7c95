-- ===== src/Threads/Handle.antt =====
-- src/server_threaded.c: `write_all` and `handle_conn`.
use Prim.Native.Nat.{min}
use redis_server_c.Prelude.{
  ℕ, zero, suc, ◌+◌, Bool, true, false, not, ◌||◌, List, [], ◌∷◌, ◌++◌, Bytes, codes, length, take,
  drop, ltb, ◌==◌,
}
use redis_server_c.Resp.Parse.{ok, incomplete, error, resp_parse}
use redis_server_c.Resp.Reply.{RespBuf, resp_buf_init, resp_reply_error}
use redis_server_c.Input.{DynBuf, dyn_buf_append, dyn_buf_consume}
use redis_server_c.Epoll.Conn.{World, dispatch}
use redis_server_c.Epoll.Output.{WriteResult, wrote, write_eintr, write_eagain, write_failed}
use redis_server_c.Epoll.Client.{ReadResult, got, read_eintr, read_eagain, read_failed}

-- MAX_INPUT_BUF
abbrev pub max_input_buf : ℕ
max_input_buf = 16777216

-- The results of write() that are left, the bytes that it has taken, and whether that were all.
pub record Written : Type 0 where
  pub left : List WriteResult
  pub sent : Bytes
  pub whole : Bool

-- The calls of write() return these results in order, and an error after them.
unfoldable pub write_all : List WriteResult → Bytes → Written
write_all rs [] = record { left = rs; sent = []; whole = true }
write_all [] (b ∷ bytes) = record { left = []; sent = []; whole = false }
write_all (write_eintr ∷ rs) (b ∷ bytes) = write_all rs (b ∷ bytes)
write_all (write_eagain ∷ rs) (b ∷ bytes) = record { left = rs; sent = []; whole = false }
write_all (write_failed ∷ rs) (b ∷ bytes) = record { left = rs; sent = []; whole = false }
write_all (wrote room ∷ rs) (b ∷ bytes) =
    let n = min room (length (b ∷ bytes)) in
    elim (n == 0) [
      | true ↦ record { left = rs; sent = []; whole = false }
      | false ↦
          let w = write_all rs (drop n (b ∷ bytes)) in
          record w { sent = take n (b ∷ bytes) ++ w.sent }
    ]

-- What the workers share under `g_store_mu`: what the commands work on, and what the other workers
-- do to it before the next command of this one has the mutex.
pub record Shared : Type 0 where
  pub world : World
  pub others : ℕ → World → World

abbrev pub locked_dispatch : Shared → List Bytes → RespBuf → Shared × RespBuf
locked_dispatch sh argv out =
    let (w, out') = dispatch (sh.others 0 sh.world) argv out in
    (record { world = w; others = λ i. sh.others (suc i) }, out')

-- The variables of `handle_conn`, the results of write() to come, and the bytes sent so far.
pub record Handling : Type 0 where
  pub shared : Shared
  pub input : DynBuf
  pub out : RespBuf
  pub writes : List WriteResult
  pub sent : Bytes
  pub fatal : Bool

-- The replies are sent when there are any, and `out.len` is zero then.
unfoldable pub flush_out : Handling → Handling
unfolding write_all
flush_out h =
    let w = write_all h.writes h.out.data_ in
    record h {
      out = record (h.out) { data_ = [] };
      writes = w.left;
      sent = h.sent ++ w.sent;
      fatal = h.fatal || not w.whole;
    }

-- One round of the inner loop, on what `resp_parse` returns; `none` is `break`.
abbrev pub failed : Handling → Bytes → Handling
failed h m = flush_out (record h { out = resp_reply_error h.out m; fatal = true })

abbrev pub ran : Handling → List Bytes → ℕ → Handling
ran h argv consumed = flush_out (record h {
  shared = (locked_dispatch h.shared argv h.out).0;
  out = (locked_dispatch h.shared argv h.out).1;
  input = dyn_buf_consume h.input consumed;
})

-- `while (in.len > 0 && !fatal)`, at most `rounds` times.
unfoldable pub serve_loop : ℕ → Handling → Handling
unfolding flush_out
serve_loop zero h = h
serve_loop (suc rounds) h = elim ((length h.input.buf == 0) || h.fatal) [
  | true ↦ h
  | false ↦ elim (resp_parse h.input.buf) [
    | incomplete ↦ h
    | error m ↦ failed h m
    | ok argv consumed ↦ serve_loop rounds (ran h argv consumed)
  ]
]

abbrev pub over_cap : Handling → Handling
over_cap h = flush_out (record h {
  out = resp_reply_error h.out (codes "ERR input buffer limit exceeded");
  fatal = true;
})

abbrev pub received : Handling → Bytes → Handling
received h bytes = record h { input = dyn_buf_append h.input bytes }

-- The loop over read(), whose calls return these results in order, and an error after them.
unfoldable pub conn_loop : List ReadResult → Handling → Handling
unfolding serve_loop
conn_loop [] h = h
conn_loop (read_eintr ∷ rs) h = conn_loop rs h
conn_loop (read_eagain ∷ rs) h = h
conn_loop (read_failed ∷ rs) h = h
conn_loop (got bytes ∷ rs) h = elim (length bytes == 0) [
  | true ↦ h
  | false ↦ elim (ltb max_input_buf (length h.input.buf + length bytes)) [
    | true ↦ over_cap h
    | false ↦
        let h' = serve_loop (length h.input.buf + length bytes) (received h bytes) in
        elim h'.fatal [ true ↦ h' | false ↦ conn_loop rs h' ]
  ]
]

unfoldable pub handle_conn : List ReadResult → List WriteResult → Shared → Handling
unfolding conn_loop
handle_conn reads writes sh = conn_loop reads (record {
  shared = sh;
  input = record { buf = []; cap = 0 };
  out = resp_buf_init;
  writes = writes;
  sent = [];
  fatal = false;
})
