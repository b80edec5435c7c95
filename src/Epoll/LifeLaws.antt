-- ===== src/Epoll/LifeLaws.antt =====
-- src/server.c: what a process that ends with status 0 has done.
use redis_server_c.Prelude.{
  ℕ, ◌+◌, ◌≡◌, true, List, [], ◌∷◌, ◌++◌, Option, none, some, Bytes, ◌==◌, if◌then◌else◌,
}
use redis_server_c.Prelude.Int.{ℤ}
use redis_server_c.Persist.File.{Stdio}
use redis_server_c.Cmd.State.{Env, Server}
use redis_server_c.Epoll.Conn.{Conn}
use redis_server_c.Epoll.Table.{Conns, conn_at}
use redis_server_c.Epoll.Loop.{Event, event_loop}
use redis_server_c.Epoll.Order.{Order}
use redis_server_c.Epoll.Main.{
  default_port, options, parse_args, running, start_server, save_at_end,
}
use redis_server_c.Epoll.Life.{Sockets, create_listen_socket, closed_conns, begun}

-- How often a number stands in a list.
abbrev pub times : ℕ → List ℕ → ℕ
times q [] = 0
times q (n ∷ ns) = (if n == q then 1 else 0) + times q ns

abbrev pub there : Option Conn → ℕ
there none = 0
there (some c) = 1

-- The connections stand at their descriptors, counted from `k` on.
Placed : ℕ → Conns → Type 0
Placed k conns = (i : ℕ) (c : Conn) → conn_at conns i ≡ some c → c.fd ≡ k + i

-- What a process has done that has come to its end.
pub record Lived {F : Type 0} (io : Stdio F) (f left : F) (s : Sockets) (answers : ℕ → Env)
    (es : List Event) (atoi : Bytes → ℤ) (argv : List Bytes) (now saved : ℤ) (f' : F)
    (closed : List ℕ) : Type 0 where
  pub port : ℤ
  pub path : Option Bytes
  pub server : Server
  pub fd : ℕ
  pub epfd : ℕ
  pub accepts : parse_args atoi argv default_port none ≡ options port path
  pub starts : start_server io f path now ≡ running server
  pub listens : create_listen_socket s ≡ some fd
  pub polls : s.epoll ≡ some epfd
  pub added : s.added ≡ true
  pub saves :
      let l = event_loop es (begun server answers) in
      f' ≡ (save_at_end io left l.world.server path saved).0
  pub closes :
      let l = event_loop es (begun server answers) in
      closed ≡ closed_conns l.conns ++ (fd ∷ epfd ∷ [])

module _ {F : Type 0} (io : Stdio F) (f left : F) (s : Sockets) (answers : ℕ → Env)
    (es : List Event) (atoi : Bytes → ℤ) (argv : List Bytes) (now saved : ℤ) (f' : F)
    (closed : List ℕ) where
  abbrev Done : Type 0
  Done = Lived io f left s answers es atoi argv now saved f' closed
