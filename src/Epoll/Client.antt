-- ===== src/Epoll/Client.antt =====
-- src/server.c: `handle_client_readable`.
use redis_server_c.Prelude.{
  ◌+◌, true, false, List, [], ◌∷◌, Option, none, some, Bytes, codes, length, ltb, ◌==◌,
  if◌then◌else◌,
}
use redis_server_c.Resp.Reply.{resp_reply_error}
use redis_server_c.Epoll.Conn.{Conn, World, conn_in_append, read_chunk, max_conn_input_buf}
use redis_server_c.Epoll.Process.{conn_process_input}
use redis_server_c.Epoll.Output.{WriteResult, conn_service_output}

-- What a call of read() returns: bytes, none of them at the end of the stream, or -1 with EINTR,
-- with EAGAIN, or with another error.
pub data ReadResult : Type 0 where
  got : Bytes → ReadResult
  read_eintr read_eagain read_failed : ReadResult

-- The loop over read(), whose calls return these results in order, and EAGAIN after them: the
-- connection, or `none` if it is to be closed at once.
unfoldable pub read_loop : List ReadResult → Conn → Option Conn
read_loop [] c = some c
read_loop (read_eintr ∷ rs) c = read_loop rs c
read_loop (read_eagain ∷ rs) c = some c
read_loop (read_failed ∷ rs) c = none
read_loop (got bytes ∷ rs) c = elim (length bytes == 0) [
  | true ↦ none
  | false ↦ elim (ltb max_conn_input_buf (length c.input.buf + length bytes)) [
    | true ↦ some (record c {
      out = resp_reply_error c.out (codes "ERR input buffer limit exceeded");
      closing = true;
    })
    | false ↦ elim (ltb (length bytes) read_chunk) [
      | true ↦ some (conn_in_append c bytes)
      | false ↦ read_loop rs (conn_in_append c bytes)
    ]
  ]
]

-- What an event leaves of a connection: the world, the connection unless it has been closed, and
-- the bytes that write() has taken.
pub record Handled : Type 0 where
  pub world : World
  pub conn : Option Conn
  pub sent : Bytes

abbrev pub serviced : World → Option Conn × Bytes → Handled
serviced w (c, sent) = record { world = w; conn = c; sent = sent }

abbrev pub processed : World → Conn → World × Conn
processed w c = if c.closing then (w, c) else conn_process_input w c

-- What follows the loop.
abbrev pub after_read : List WriteResult → World → Option Conn → Handled
after_read ws w none = record { world = w; conn = none; sent = [] }
after_read ws w (some c) = serviced (processed w c).0 (conn_service_output ws (processed w c).1)

unfoldable pub handle_client_readable : List ReadResult → List WriteResult → World → Conn → Handled
unfolding read_loop
handle_client_readable rs ws w c = after_read ws w (read_loop rs c)
