-- ===== src/Epoll/Loop.antt =====
-- src/server.c: `handle_listen_readable` and the event loop of `main`.
use redis_server_c.Prelude.{ℕ, Bool, List, [], ◌∷◌, Option, none, some, set, if◌then◌else◌}
use redis_server_c.Epoll.Conn.{Conn, World, new_conn}
use redis_server_c.Epoll.Output.{WriteResult, conn_service_output}
use redis_server_c.Epoll.Client.{ReadResult, handle_client_readable}
use redis_server_c.Epoll.Table.{Conns, conn_at, conn_create, conn_close}

-- What a call of accept4() returns: a descriptor, with whether `epoll_ctl` adds it, or -1 with
-- EINTR, or with an error that ends the loop.
pub data AcceptResult : Type 0 where
  accepted : ℕ → Bool → AcceptResult
  accept_eintr accept_stops : AcceptResult

-- The calls of accept4() return these results in order, and EAGAIN after them.
unfoldable pub handle_listen_readable : List AcceptResult → Conns → Conns
unfolding conn_create conn_close
handle_listen_readable [] conns = conns
handle_listen_readable (accept_eintr ∷ rs) conns = handle_listen_readable rs conns
handle_listen_readable (accept_stops ∷ rs) conns = conns
handle_listen_readable (accepted fd added ∷ rs) conns =
    let conns' = conn_create conns fd in
    handle_listen_readable rs (if added then conns' else conn_close conns' (new_conn fd))

-- An event of a client's descriptor: EPOLLHUP or EPOLLERR, EPOLLIN, EPOLLOUT, and what the calls of
-- read() and write() return.
pub record Ready : Type 0 where
  pub fd : ℕ
  pub hup : Bool
  pub readable : Bool
  pub writable : Bool
  pub reads : List ReadResult
  pub writes : List WriteResult
  pub more_writes : List WriteResult

pub data Event : Type 0 where
  listening : List AcceptResult → Event
  client : Ready → Event

-- `g_conns` and the world.
pub record Loop : Type 0 where
  pub conns : Conns
  pub world : World

-- What the handlers leave of a connection is in its slot.
abbrev pub put : Loop → Conn → World → Option Conn → Loop
put l c w o = record { conns = set l.conns c.fd o; world = w }

unfoldable pub on_readable : Ready → Loop → Conn → Loop
on_readable e l c =
    let h = handle_client_readable e.reads e.writes l.world c in
    if e.readable then put l c h.world h.conn else l

-- The connection is looked up again.
unfoldable pub on_writable : Ready → Loop → Loop
on_writable e l = elim (conn_at l.conns e.fd) [
  | none ↦ l
  | some c ↦ if e.writable then put l c l.world (conn_service_output e.more_writes c).0 else l
]

unfoldable pub on_client : Ready → Loop → Loop
unfolding on_readable on_writable
on_client e l = elim (conn_at l.conns e.fd) [
  | none ↦ l
  | some c ↦
      if e.hup then record l { conns = conn_close l.conns c } else on_writable e (on_readable e l c)
]

-- The events in the order in which the loop meets them.
unfoldable pub event_loop : List Event → Loop → Loop
unfolding handle_listen_readable on_client
event_loop [] l = l
event_loop (listening rs ∷ es) l =
    event_loop es (record l { conns = handle_listen_readable rs l.conns })
event_loop (client e ∷ es) l = event_loop es (on_client e l)

-- The end of `main`: every connection is closed.
unfoldable pub shutdown_cleanly : Conns → Conns
shutdown_cleanly [] = []
shutdown_cleanly (none ∷ conns) = none ∷ shutdown_cleanly conns
shutdown_cleanly (some c ∷ conns) = none ∷ shutdown_cleanly conns
