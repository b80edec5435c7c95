-- ===== src/Epoll/LoopInv.antt =====
-- src/server.c: what holds of every connection whatever events come.
use redis_server_c.Prelude.{
  ℕ, zero, suc, refl, ◌-◌, ◌^◌, ◌<◌, ◌≡◌, ◌∙◌, List, [], ◌∷◌, Option, none, some, arith, length,
  set, get_or-set, ◌==◌, if◌then◌else◌, Bool-cases, Option-cases, inl, inr,
}
use redis_server_c.Cmd.Answers.{both}
use redis_server_c.Epoll.Conn.{Conn, new_conn}
use redis_server_c.Epoll.Settled.{
  IsIdle, Settled, ended, idle, new_conn-IsIdle, conn_service_output-Settled,
  handle_client_readable-Settled,
}
use redis_server_c.Epoll.Table.{
  Conns, conn_at, conn_create, conn_close, conn_create-at, conn_at-inside,
}
use redis_server_c.Epoll.Loop.{
  AcceptResult, accepted, accept_eintr, accept_stops, handle_listen_readable, Ready, Event,
  listening, client, Loop, on_readable, on_writable, on_client, event_loop, shutdown_cleanly,
}

-- Every slot of the table is empty or has an idle connection with that descriptor.
abbrev pub AllSettled : Conns → Type 0
AllSettled conns = (fd : ℕ) → Settled fd (conn_at conns fd)

idle-IsIdle : {fd : ℕ} {c : Conn} → Settled fd (some c) → (c.fd ≡ fd) × IsIdle c
idle-IsIdle (idle same v) = (same, v)

pub slot :
    (conns : Conns) (fd : ℕ) (c : Conn)
    → AllSettled conns
    → conn_at conns fd ≡ some c
    → (c.fd ≡ fd) × IsIdle c
slot conns fd c all h = let here = all fd in idle-IsIdle (rw h at here)

-- One slot that exists is written.
set-AllSettled :
    (conns : Conns) (fd : ℕ) (o : Option Conn)
    → AllSettled conns
    → fd < length conns
    → Settled fd o
    → AllSettled (set conns fd o)
set-AllSettled conns fd o all there settled q = elim (Bool-cases (fd == q)) [
  | inl same ↦
      let e : fd ≡ q = ground (arith, same) in
      rw (get_or-set conns fd q o none there) (rw same (rw (← e) settled))
  | inr other ↦ rw (get_or-set conns fd q o none there) (rw other (all q))
]

conn_create-AllSettled :
    (conns : Conns) (fd : ℕ)
    → AllSettled conns
    → fd < 2 ^ 62 - 1
    → AllSettled (conn_create conns fd)
conn_create-AllSettled conns fd all small q = elim (Bool-cases (fd == q)) [
  | inl same ↦
      let e : fd ≡ q = ground (arith, same) in
      rw (conn_create-at conns fd q small) (rw same (idle e (new_conn-IsIdle fd)))
  | inr other ↦ rw (conn_create-at conns fd q small) (rw other (all q))
]

-- The descriptors that accept4() returns are values of `int`.
abbrev pub IntFds : List AcceptResult → Type 0
IntFds [] = Unit
IntFds (accepted fd added ∷ rs) = (fd < 2 ^ 31) × IntFds rs
IntFds (accept_eintr ∷ rs) = IntFds rs
IntFds (accept_stops ∷ rs) = IntFds rs

abbrev pub IntEvents : List Event → Type 0
IntEvents [] = Unit
IntEvents (listening rs ∷ es) = IntFds rs × IntEvents es
IntEvents (client e ∷ es) = IntEvents es

pub handle_listen_readable-AllSettled :
    (rs : List AcceptResult) (conns : Conns)
    → IntFds rs
    → AllSettled conns
    → AllSettled (handle_listen_readable rs conns)
unfolding handle_listen_readable conn_close
handle_listen_readable-AllSettled [] conns ints all = all
handle_listen_readable-AllSettled (accept_eintr ∷ rs) conns ints all =
    handle_listen_readable-AllSettled rs conns ints all
handle_listen_readable-AllSettled (accept_stops ∷ rs) conns ints all = all
handle_listen_readable-AllSettled (accepted fd added ∷ rs) conns (small, ints) all =
    let made = conn_create-AllSettled conns fd all (omega arith) in
    let created : conn_at (conn_create conns fd) fd ≡ some (new_conn fd) =
      conn_create-at conns fd fd (omega arith) ∙ ground arith in
    let there = conn_at-inside (conn_create conns fd) fd (new_conn fd) created in
    handle_listen_readable-AllSettled rs
      (if added then conn_create conns fd else set (conn_create conns fd) fd none) ints
      (both AllSettled added made (set-AllSettled (conn_create conns fd) fd none made there ended))

pub on_readable-AllSettled :
    (e : Ready) (l : Loop) (c : Conn)
    → AllSettled l.conns
    → conn_at l.conns e.fd ≡ some c
    → AllSettled (on_readable e l c).conns
unfolding on_readable
on_readable-AllSettled e l c all here =
    let (same, v) = slot l.conns e.fd c all here in
    let there = conn_at-inside l.conns e.fd c here in
    both (λ (t : Loop). AllSettled t.conns) e.readable
      (set-AllSettled l.conns c.fd _ all (omega arith)
        (handle_client_readable-Settled e.reads e.writes l.world c v.valid))
      all

on_writable-AllSettled :
    (e : Ready) (l : Loop) → AllSettled l.conns → AllSettled (on_writable e l).conns
unfolding on_writable
on_writable-AllSettled e l all = elim (Option-cases (conn_at l.conns e.fd)) [
  | inl nothing ↦ rw (nothing, on_writable) all
  | inr (c, here) ↦
      let (same, v) = slot l.conns e.fd c all here in
      let there = conn_at-inside l.conns e.fd c here in
      rw (here, on_writable)
        (both (λ (t : Loop). AllSettled t.conns) e.writable
          (set-AllSettled l.conns c.fd _ all (omega arith)
            (conn_service_output-Settled e.more_writes c v.valid v.drained))
          all)
]

pub on_client-AllSettled :
    (e : Ready) (l : Loop) → AllSettled l.conns → AllSettled (on_client e l).conns
unfolding on_client conn_close
on_client-AllSettled e l all = elim (Option-cases (conn_at l.conns e.fd)) [
  | inl nothing ↦ rw (nothing, on_client) all
  | inr (c, here) ↦
      let (same, v) = slot l.conns e.fd c all here in
      let there = conn_at-inside l.conns e.fd c here in
      rw (here, on_client)
        (both (λ (t : Loop). AllSettled t.conns) e.hup
          (set-AllSettled l.conns c.fd none all (omega arith) ended)
          (on_writable-AllSettled e (on_readable e l c) (on_readable-AllSettled e l c all here)))
]

-- Whatever events come and whatever the system calls return, between two events every connection in
-- the table stands at its own descriptor, has its input buffer within its allocation and below the
-- cap, has sent no more than its reply buffer holds, has no whole command unserved unless it is
-- about to close, has want_write set, and EPOLLOUT in the events of the last epoll_ctl() call for
-- it, just when reply bytes are pending, and is about to close only while they are, if that holds
-- at the start and the descriptors that accept4() returns are below 2 ^ 31. Whether epoll_ctl()
-- succeeds is not part of it.
pub event_loop-AllSettled :
    (es : List Event) (l : Loop)
    → IntEvents es
    → AllSettled l.conns
    → AllSettled (event_loop es l).conns
unfolding event_loop
event_loop-AllSettled [] l ints all = all
event_loop-AllSettled (listening rs ∷ es) l (here, ints) all =
    event_loop-AllSettled es _ ints (handle_listen_readable-AllSettled rs l.conns here all)
event_loop-AllSettled (client e ∷ es) l ints all =
    event_loop-AllSettled es (on_client e l) ints (on_client-AllSettled e l all)

-- After the shutdown no connection is left.
pub shutdown_cleanly-closes : (conns : Conns) (fd : ℕ) → conn_at (shutdown_cleanly conns) fd ≡ none
unfolding shutdown_cleanly
shutdown_cleanly-closes [] fd = refl
shutdown_cleanly-closes (none ∷ conns) zero = refl
shutdown_cleanly-closes (some c ∷ conns) zero = refl
shutdown_cleanly-closes (none ∷ conns) (suc fd) = shutdown_cleanly-closes conns fd
shutdown_cleanly-closes (some c ∷ conns) (suc fd) = shutdown_cleanly-closes conns fd
