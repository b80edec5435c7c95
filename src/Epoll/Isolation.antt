-- ===== src/Epoll/Isolation.antt =====
-- src/server.c: an event of one client leaves the connections of the others.
use redis_server_c.Prelude.{
  ℕ, ◌≡◌, ◌≢◌, refl, ◌∙◌, false, Option, none, some, arith, set, get_or-set, ◌==◌, Option-cases,
  inl, inr,
}
use redis_server_c.Cmd.Answers.{both}
use redis_server_c.Epoll.Conn.{Conn}
use redis_server_c.Epoll.Table.{Conns, conn_at, conn_close, conn_at-inside}
use redis_server_c.Epoll.Loop.{Ready, Loop, on_readable, on_writable, on_client}
use redis_server_c.Epoll.LoopInv.{AllSettled, slot, on_readable-AllSettled}

-- Every slot but that of the descriptor is as before.
abbrev OthersKept : ℕ → Conns → Conns → Type 0
OthersKept fd before after = (q : ℕ) → fd ≢ q → conn_at after q ≡ conn_at before q

own_slot :
    (l : Loop) (fd : ℕ) (c : Conn)
    → AllSettled l.conns
    → conn_at l.conns fd ≡ some c
    → (o : Option Conn) → OthersKept fd l.conns (set l.conns c.fd o)
own_slot l fd c all here o q other =
    let (same, v) = slot l.conns fd c all here in
    let there = conn_at-inside l.conns fd c here in
    let elsewhere : (c.fd == q) ≡ false = ground (arith, same, other) in
    get_or-set l.conns c.fd q o none (omega arith) ∙ rw elsewhere refl

on_readable-OthersKept :
    (e : Ready) (l : Loop) (c : Conn)
    → AllSettled l.conns
    → conn_at l.conns e.fd ≡ some c
    → OthersKept e.fd l.conns (on_readable e l c).conns
unfolding on_readable
on_readable-OthersKept e l c all here =
    both (λ (t : Loop). OthersKept e.fd l.conns t.conns) e.readable (own_slot l e.fd c all here _)
      (λ q other. refl)

on_writable-OthersKept :
    (e : Ready) (l : Loop) → AllSettled l.conns → OthersKept e.fd l.conns (on_writable e l).conns
unfolding on_writable
on_writable-OthersKept e l all = elim (Option-cases (conn_at l.conns e.fd)) [
  | inl nothing ↦ rw (nothing, on_writable) (λ q other. refl)
  | inr (c, here) ↦
      rw (here, on_writable)
        (both (λ (t : Loop). OthersKept e.fd l.conns t.conns) e.writable
          (own_slot l e.fd c all here _) (λ q other. refl))
]

on_client-OthersKept :
    (e : Ready) (l : Loop) → AllSettled l.conns → OthersKept e.fd l.conns (on_client e l).conns
unfolding on_client conn_close
on_client-OthersKept e l all = elim (Option-cases (conn_at l.conns e.fd)) [
  | inl nothing ↦ rw (nothing, on_client) (λ q other. refl)
  | inr (c, here) ↦
      let l' = on_readable e l c in
      let later = on_writable-OthersKept e l' (on_readable-AllSettled e l c all here) in
      let first = on_readable-OthersKept e l c all here in
      rw (here, on_client)
        (both (λ (t : Loop). OthersKept e.fd l.conns t.conns) e.hup
          (own_slot l e.fd c all here none) (λ q other. later q other ∙ first q other))
]

-- An event of one client leaves every other connection as it was, whatever the event is, when
-- each connection in the table is idle at its own descriptor.
pub on_client_others :
    (e : Ready) (l : Loop) (q : ℕ)
    → AllSettled l.conns
    → e.fd ≢ q
    → conn_at (on_client e l).conns q ≡ conn_at l.conns q
on_client_others e l q all other = on_client-OthersKept e l all q other
