-- ===== src/Epoll/Stream.antt =====
-- src/server.c: all the clients of the event loop, against one order of their commands.
use mathlib.Core.List.{append-nil}
use redis_server_c.Prelude.{
  ℕ, ◌≡◌, refl, sym, ◌∙◌, false, List, [], ◌∷◌, ◌++◌, Option, none, some, arith, Bytes, set,
  get_or-set, ◌==◌, if◌then◌else◌, Bool-cases, Option-cases, inl, inr,
}
use redis_server_c.Cmd.Answers.{both}
use redis_server_c.Epoll.Conn.{Conn, World, new_conn}
use redis_server_c.Epoll.Output.{conn_service_output}
use redis_server_c.Epoll.Client.{handle_client_readable}
use redis_server_c.Epoll.Table.{
  Conns, conn_at, conn_create, conn_close, conn_create-at, conn_at-inside,
}
use redis_server_c.Epoll.Loop.{
  AcceptResult, accepted, accept_eintr, accept_stops, handle_listen_readable, Ready, Event,
  listening, client, Loop, on_readable, on_writable, on_client,
}
use redis_server_c.Epoll.LoopInv.{AllSettled, IntFds, slot, on_readable-AllSettled}
use redis_server_c.Epoll.History.{Log, own}
use redis_server_c.Epoll.Talk.{quiet-Talk}
use redis_server_c.Epoll.Spoken.{taken, service-TalkTo, handle_client_readable-Spoken}
use redis_server_c.Epoll.Advance.{
  at_fd, Advance, Any, Advance-join, own_slot-Advance, same-Talk, recast, unheard, quiet-Advance,
  at_fd-append,
}

-- The bytes that an event brings from its client.
abbrev pub heard_of : Ready → Option Conn → Bytes
heard_of e none = []
heard_of e (some c) = if e.hup then [] else if e.readable then taken e.reads c else []

-- The bytes that write() takes in `handle_client_readable`, and behind it.
abbrev pub said_first : Ready → World → Conn → Bytes
said_first e w c = if e.readable then (handle_client_readable e.reads e.writes w c).sent else []

abbrev pub said_then : Ready → Option Conn → Bytes
said_then e none = []
said_then e (some c) = if e.writable then (conn_service_output e.more_writes c).1 else []

abbrev pub said_of : Ready → Loop → Option Conn → Bytes
said_of e l none = []
said_of e l (some c) =
    if e.hup
    then []
    else said_first e l.world c ++ said_then e (conn_at (on_readable e l c).conns e.fd)

on_readable-Advance :
    (e : Ready) (l : Loop) (c : Conn)
    → AllSettled l.conns
    → conn_at l.conns e.fd ≡ some c
    → (log : Log) × Advance Any l
        (on_readable e l c)
        log
        (λ q. at_fd e.fd q (if e.readable then taken e.reads c else []))
        (λ q. at_fd e.fd q (said_first e l.world c))
unfolding on_readable
on_readable-Advance e l c all here = elim (Bool-cases e.readable) [
  | inr no_input ↦ rw (no_input, on_readable) ([], quiet-Advance e.fd l)
  | inl input ↦
      let (same, v) = slot l.conns e.fd c all here in
      let r = handle_client_readable-Spoken e.fd e.reads e.writes l.world c v.valid in
      rw (input, on_readable)
        (
          own e.fd r.commands,
          own_slot-Advance l e.fd c.fd _ c _ (taken e.reads c) _ r.commands same here r.world_after
              r.talk,
        )
]

on_writable-Advance :
    (e : Ready) (l : Loop)
    → AllSettled l.conns
    → (log : Log) × Advance Any l
        (on_writable e l)
        log
        (λ q. [])
        (λ q. at_fd e.fd q (said_then e (conn_at l.conns e.fd)))
unfolding on_writable
on_writable-Advance e l all = elim (Option-cases (conn_at l.conns e.fd)) [
  | inl nothing ↦ rw (nothing, on_writable) ([], unheard e.fd (quiet-Advance e.fd l))
  | inr (c, here) ↦ elim (Bool-cases e.writable) [
    | inr not_now ↦ rw (here, not_now, on_writable) ([], unheard e.fd (quiet-Advance e.fd l))
    | inl now ↦
        let (same, v) = slot l.conns e.fd c all here in
        rw (here, now, on_writable)
          (
            [],
            unheard e.fd (
                own_slot-Advance l e.fd c.fd l.world c _ [] _ [] same here refl
                  (service-TalkTo e.fd l.world e.more_writes c v.valid.sent)),
          )
  ]
]

pub on_client-Advance :
    (e : Ready) (l : Loop)
    → AllSettled l.conns
    → (log : Log) × Advance Any l
        (on_client e l)
        log
        (λ q. at_fd e.fd q (heard_of e (conn_at l.conns e.fd)))
        (λ q. at_fd e.fd q (said_of e l (conn_at l.conns e.fd)))
unfolding on_client conn_close
on_client-Advance e l all = elim (Option-cases (conn_at l.conns e.fd)) [
  | inl nothing ↦ rw (nothing, on_client) ([], quiet-Advance e.fd l)
  | inr (c, here) ↦ elim (Bool-cases e.hup) [
    | inl lost ↦
        let (same, v) = slot l.conns e.fd c all here in
        rw (here, lost, on_client)
          ([], own_slot-Advance l e.fd c.fd l.world c none [] [] [] same here refl tt)
    | inr stays ↦
        let l1 = on_readable e l c in
        let input = if e.readable then taken e.reads c else [] in
        let first = said_first e l.world c in
        let second = said_then e (conn_at l1.conns e.fd) in
        let (a, x) = on_readable-Advance e l c all here in
        let (b, y) = on_writable-Advance e l1 (on_readable-AllSettled e l c all here) in
        rw (here, stays, on_client)
          (
            a ++ b,
            recast (λ q. at_fd e.fd q input ++ []) (λ q. at_fd e.fd q input)
                (λ q. at_fd e.fd q first ++ at_fd e.fd q second)
                (λ q. at_fd e.fd q (first ++ second)) (λ q. append-nil (at_fd e.fd q input))
                (λ q. at_fd-append e.fd q first second)
                (Advance-join Any Any Any l l1 _ a b _ _ _ _ (λ q k. (tt, tt)) x y),
          )
  ]
]

-- accept4() does not return this descriptor, which is in use.
abbrev pub NotAccepted : ℕ → List AcceptResult → Type 0
NotAccepted q [] = Unit
NotAccepted q (accepted fd added ∷ rs) = ((fd == q) ≡ false) × NotAccepted q rs
NotAccepted q (accept_eintr ∷ rs) = NotAccepted q rs
NotAccepted q (accept_stops ∷ rs) = Unit

abbrev pub Keeps : List Event → ℕ → Type 0
Keeps [] q = Unit
Keeps (listening rs ∷ es) q = NotAccepted q rs × Keeps es q
Keeps (client e ∷ es) q = Keeps es q

pub handle_listen_readable-others :
    (rs : List AcceptResult) (conns : Conns) (q : ℕ)
    → IntFds rs
    → NotAccepted q rs
    → conn_at (handle_listen_readable rs conns) q ≡ conn_at conns q
unfolding handle_listen_readable conn_close
handle_listen_readable-others [] conns q ints away = refl
handle_listen_readable-others (accept_eintr ∷ rs) conns q ints away =
    handle_listen_readable-others rs conns q ints away
handle_listen_readable-others (accept_stops ∷ rs) conns q ints away = refl
handle_listen_readable-others (accepted fd added ∷ rs) conns q (small, ints) (other, away) =
    let made : conn_at (conn_create conns fd) q ≡ conn_at conns q =
      conn_create-at conns fd q (omega arith) ∙ rw other refl in
    let created : conn_at (conn_create conns fd) fd ≡ some (new_conn fd) =
      conn_create-at conns fd fd (omega arith) ∙ ground arith in
    let there = conn_at-inside (conn_create conns fd) fd (new_conn fd) created in
    let dropped : conn_at (set (conn_create conns fd) fd none) q ≡ conn_at conns q =
      get_or-set (conn_create conns fd) fd q none none there ∙ rw other made in
    handle_listen_readable-others rs
      (if added then conn_create conns fd else set (conn_create conns fd) fd none) q ints away
    ∙ both (λ (t : Conns). conn_at t q ≡ conn_at conns q) added made dropped

pub listening-Advance :
    (rs : List AcceptResult) (l : Loop)
    → IntFds rs
    → Advance
        (λ q. NotAccepted q rs)
        l
        (record l { conns = handle_listen_readable rs l.conns })
        []
        (λ q. [])
        (λ q. [])
listening-Advance rs l ints =
    let others =
      λ (q : ℕ) (k : NotAccepted q rs). handle_listen_readable-others rs l.conns q ints k in
    record {
      world_after = refl;
      talks = λ q c c' k h h'.
          same-Talk q l.world c c' (conn_at l.conns q) h (sym (others q k) ∙ h') []
            (quiet-Talk q l.world [] c refl);
      gone = λ q k h. others q k ∙ h;
    }

-- What the clients send and are sent while the events go by.
abbrev pub heard : List Event → Loop → ℕ → Bytes
heard [] l q = []
heard (listening rs ∷ es) l q = heard es (record l { conns = handle_listen_readable rs l.conns }) q
heard (client e ∷ es) l q =
    at_fd e.fd q (heard_of e (conn_at l.conns e.fd)) ++ heard es (on_client e l) q

abbrev pub said : List Event → Loop → ℕ → Bytes
said [] l q = []
said (listening rs ∷ es) l q = said es (record l { conns = handle_listen_readable rs l.conns }) q
said (client e ∷ es) l q =
    at_fd e.fd q (said_of e l (conn_at l.conns e.fd)) ++ said es (on_client e l) q
