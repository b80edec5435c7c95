-- ===== src/Epoll/Life.antt =====
-- src/server.c: `main` from its arguments to its exit status.
use redis_server_c.Prelude.{
  ℕ, Bool, false, not, List, [], ◌∷◌, ◌++◌, Option, none, some, Bytes, if◌then◌else◌,
}
use redis_server_c.Prelude.Int.{ℤ}
use redis_server_c.Persist.File.{Stdio}
use redis_server_c.Cmd.State.{Env, Server}
use redis_server_c.Epoll.Table.{Conns}
use redis_server_c.Epoll.Loop.{Event, Loop, event_loop}
use redis_server_c.Epoll.Main.{
  default_port, Options, usage, options, parse_args, Started, running, crashed, start_server,
  save_at_end,
}

-- What the calls at the start answer: the descriptors of socket() and epoll_create1(), and whether
-- bind(), listen(), the two calls of fcntl() and epoll_ctl() succeed.
pub record Sockets : Type 0 where
  pub socket : Option ℕ
  pub bound : Bool
  pub listens : Bool
  pub flags_read : Bool
  pub flags_set : Bool
  pub epoll : Option ℕ
  pub added : Bool

unfoldable pub set_nonblocking : Sockets → Bool
set_nonblocking s = if not s.flags_read then false else s.flags_set

-- `none` where the process exits with status 1.
unfoldable pub listening_on : Sockets → Option ℕ → Option ℕ
unfolding set_nonblocking
listening_on s none = none
listening_on s (some fd) =
    if not s.bound
    then none
    else if not s.listens
    then none
    else if not (set_nonblocking s)
    then none
    else some fd

unfoldable pub create_listen_socket : Sockets → Option ℕ
unfolding listening_on
create_listen_socket s = listening_on s s.socket

-- The descriptors that `shutdown_cleanly` closes in its loop over the table.
unfoldable pub closed_conns : Conns → List ℕ
closed_conns [] = []
closed_conns (none ∷ conns) = closed_conns conns
closed_conns (some c ∷ conns) = c.fd ∷ closed_conns conns

-- The exit status, the files behind the last call on them, and the descriptors that were closed at the end, in their order.
pub data Ended (F : Type 0) : Type 0 where
  exits : ℕ → F → List ℕ → Ended F
  faults : Ended F

-- The loop before the first event.
abbrev pub begun : Server → (ℕ → Env) → Loop
begun g answers = record { conns = []; world = record { server = g; answers = answers } }

-- `f` is the file system at the start, and `left` the one behind the loop, after what SAVE and BGSAVE
-- and other processes have done to it.
module _ {F : Type 0} (io : Stdio F) (f left : F) (s : Sockets) (answers : ℕ → Env)
    (es : List Event) where
  -- The event loop and what follows it.
  unfoldable pub looped : Server → Option Bytes → ℤ → ℕ → ℕ → Ended F
  unfolding closed_conns
  looped g path saved fd epfd =
      let l = event_loop es (begun g answers) in
      exits 0 (save_at_end io left l.world.server path saved).0
        (closed_conns l.conns ++ (fd ∷ epfd ∷ []))

  unfoldable pub with_epoll : Server → Option Bytes → ℤ → ℕ → Option ℕ → Ended F
  unfolding looped
  with_epoll g path saved fd none = exits 1 f []
  with_epoll g path saved fd (some epfd) =
      if not s.added then exits 1 f [] else looped g path saved fd epfd

  unfoldable pub with_socket : Server → Option Bytes → ℤ → Option ℕ → Ended F
  unfolding with_epoll
  with_socket g path saved none = exits 1 f []
  with_socket g path saved (some fd) = with_epoll g path saved fd s.epoll

  unfoldable pub with_server : Option Bytes → ℤ → Started → Ended F
  unfolding with_socket
  with_server path saved (running g) = with_socket g path saved (create_listen_socket s)
  with_server path saved crashed = faults

  unfoldable pub with_options : ℤ → ℤ → Options → Ended F
  unfolding with_server
  with_options now saved usage = exits 1 f []
  with_options now saved (options port path) = with_server path saved (start_server io f path now)

  -- The values of the clock are those at the load and at the save of the snapshot.
  unfoldable pub main : (Bytes → ℤ) → List Bytes → ℤ → ℤ → Ended F
  unfolding with_options
  main atoi argv now saved = with_options now saved (parse_args atoi argv default_port none)
