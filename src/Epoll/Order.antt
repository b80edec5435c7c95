-- ===== src/Epoll/Order.antt =====
-- src/server.c: the commands of the clients in the order of the events, and every stretch of them.
use mathlib.Core.Path.{subst}
use redis_server_c.Prelude.{
  ℕ, zero, suc, ◌≡◌, ◌∙◌, Bool, true, List, [], ◌∷◌, ◌++◌, Option, none, some, arith, take, drop,
}
use redis_server_c.Epoll.Conn.{new_conn}
use redis_server_c.Epoll.Table.{Conns, conn_at, conn_create, conn_create-at}
use redis_server_c.Epoll.Loop.{
  AcceptResult, accepted, accept_eintr, accept_stops, handle_listen_readable, Event, listening,
  client, Ready, Loop, on_client, event_loop,
}
use redis_server_c.Epoll.LoopInv.{
  AllSettled, IntFds, IntEvents, on_client-AllSettled, handle_listen_readable-AllSettled,
}
use redis_server_c.Epoll.History.{Log}
use redis_server_c.Epoll.Advance.{at_fd, Advance, Any, no-Advance, Advance-join}
use redis_server_c.Epoll.Stream.{
  NotAccepted, Keeps, heard, said, heard_of, said_of, handle_listen_readable-others,
  listening-Advance, on_client-Advance,
}

abbrev pub flat : List Log → Log
flat [] = []
flat (log ∷ logs) = log ++ flat logs

-- accept4() returns the descriptor, which epoll_ctl() adds, and does not return it again.
pub data Joins (q : ℕ) : List AcceptResult → Type 0 where
  joins_now : {rs : List AcceptResult} → NotAccepted q rs → Joins q (accepted q true ∷ rs)
  joins_behind :
      {fd : ℕ} {added : Bool} {rs : List AcceptResult}
      → Joins q rs
      → Joins q (accepted fd added ∷ rs)
  joins_later : {rs : List AcceptResult} → Joins q rs → Joins q (accept_eintr ∷ rs)

abbrev pub event_at : List Event → ℕ → Option Event
event_at [] i = none
event_at (e ∷ es) zero = some e
event_at (e ∷ es) (suc i) = event_at es i

-- The `n` events from event `i` on, with the commands that belong to them.
abbrev pub Stretch : List Event → Loop → List Log → ℕ → ℕ → Type 0
Stretch es l logs i n =
    let before = event_loop (take i es) l in
    let part = take n (drop i es) in
    Advance (Keeps part) before (event_loop part before) (flat (take n (drop i logs)))
      (heard part before) (said part before)

-- The commands that each event runs. Over every stretch of the events a client that stays connected
-- has its talk, and a client that joins has a new connection behind the event.
pub record Order (es : List Event) (l : Loop) : Type 0 where
  pub logs : List Log
  pub stretch : (i n : ℕ) → Stretch es l logs i n
  pub whole : Advance (Keeps es) l (event_loop es l) (flat logs) (heard es l) (said es l)
  pub newcomer :
      (i q : ℕ) (rs : List AcceptResult)
      → event_at es i ≡ some (listening rs)
      → Joins q rs
      → conn_at (event_loop (take (suc i) es) l).conns q ≡ some (new_conn q)

same_event : {rs rs' : List AcceptResult} → some (listening rs) ≡ some (listening rs') → rs' ≡ rs
same_event e = cc

joined :
    (q : ℕ) (rs : List AcceptResult) (conns : Conns)
    → Joins q rs
    → IntFds rs
    → conn_at (handle_listen_readable rs conns) q ≡ some (new_conn q)
unfolding handle_listen_readable
joined q (accepted fd true ∷ rs) conns (joins_now away) (small, ints) =
    handle_listen_readable-others rs (conn_create conns q) q ints away
    ∙ conn_create-at conns q q (omega arith)
    ∙ ground arith
joined q (accepted fd added ∷ rs) conns (joins_behind later) (small, ints) =
    joined q rs _ later ints
joined q (accept_eintr ∷ rs) conns (joins_later later) ints = joined q rs conns later ints
joined q [] conns j ints = elim j [ ]
joined q (accept_stops ∷ rs) conns j ints = elim j [ ]

no-Stretch : (l : Loop) (i n : ℕ) → Stretch [] l [] i n
unfolding event_loop
no-Stretch l zero zero = no-Advance l
no-Stretch l zero (suc n) = no-Advance l
no-Stretch l (suc i) zero = no-Advance l
no-Stretch l (suc i) (suc n) = no-Advance l

-- An event in front of those that are in order.
module _ (es : List Event) (l : Loop) where
  abbrev after_accept : List AcceptResult → Loop
  after_accept rs = record l { conns = handle_listen_readable rs l.conns }

  join_listening :
      (rs : List AcceptResult) (part : List Event) (log : Log)
      → IntFds rs
      → let l1 = after_accept rs in
        Advance (Keeps part) l1 (event_loop part l1) log (heard part l1) (said part l1)
        → Advance
            (Keeps (listening rs ∷ part))
            l
            (event_loop (listening rs ∷ part) l)
            log
            (heard (listening rs ∷ part) l)
            (said (listening rs ∷ part) l)
  unfolding event_loop
  join_listening rs part log ints x =
      Advance-join (λ q. NotAccepted q rs) (Keeps part) (Keeps (listening rs ∷ part)) l _ _ [] log
        (λ q. []) _ (λ q. []) _ (λ q k. k) (listening-Advance rs l ints) x

  listening-Stretch :
      (rs : List AcceptResult) (logs : List Log)
      → IntFds rs
      → ((i n : ℕ) → Stretch es (after_accept rs) logs i n)
      → (i n : ℕ) → Stretch (listening rs ∷ es) l ([] ∷ logs) i n
  unfolding event_loop
  listening-Stretch rs logs ints rest (suc i) n = rest i n
  listening-Stretch rs logs ints rest zero zero = no-Advance l
  listening-Stretch rs logs ints rest zero (suc n) =
      join_listening rs (take n es) (flat (take n logs)) ints (rest zero n)

  join_client :
      (e : Ready) (part : List Event) (first log : Log)
      → Advance Any l
          (on_client e l)
          first
          (λ q. at_fd e.fd q (heard_of e (conn_at l.conns e.fd)))
          (λ q. at_fd e.fd q (said_of e l (conn_at l.conns e.fd)))
      → let l1 = on_client e l in
        Advance (Keeps part) l1 (event_loop part l1) log (heard part l1) (said part l1)
        → Advance
            (Keeps (client e ∷ part))
            l
            (event_loop (client e ∷ part) l)
            (first ++ log)
            (heard (client e ∷ part) l)
            (said (client e ∷ part) l)
  unfolding event_loop
  join_client e part first log x y =
      Advance-join Any (Keeps part) (Keeps (client e ∷ part)) l _ _ first log _ _ _ _
        (λ q k. (tt, k)) x y

  client-Stretch :
      (e : Ready) (first : Log) (logs : List Log)
      → Advance Any l
          (on_client e l)
          first
          (λ q. at_fd e.fd q (heard_of e (conn_at l.conns e.fd)))
          (λ q. at_fd e.fd q (said_of e l (conn_at l.conns e.fd)))
      → ((i n : ℕ) → Stretch es (on_client e l) logs i n)
      → (i n : ℕ) → Stretch (client e ∷ es) l (first ∷ logs) i n
  unfolding event_loop
  client-Stretch e first logs x rest (suc i) n = rest i n
  client-Stretch e first logs x rest zero zero = no-Advance l
  client-Stretch e first logs x rest zero (suc n) =
      join_client e (take n es) first (flat (take n logs)) x (rest zero n)

newcomers :
    (es : List Event) (l : Loop) (i q : ℕ) (rs : List AcceptResult)
    → IntEvents es
    → event_at es i ≡ some (listening rs)
    → Joins q rs
    → conn_at (event_loop (take (suc i) es) l).conns q ≡ some (new_conn q)
unfolding event_loop
newcomers [] l i q rs ints e j = absurd cc
newcomers (listening rs' ∷ es) l zero q rs (here, ints) e j =
    joined q rs' l.conns (subst (Joins q) (same_event e) j) here
newcomers (client r ∷ es) l zero q rs ints e j = absurd cc
newcomers (listening rs' ∷ es) l (suc i) q rs (here, ints) e j = newcomers es _ i q rs ints e j
newcomers (client r ∷ es) l (suc i) q rs ints e j = newcomers es (on_client r l) i q rs ints e j

-- Whatever events come and whatever the system calls return, the commands have an order.
pub events-Order : (es : List Event) (l : Loop) → IntEvents es → AllSettled l.conns → Order es l
unfolding event_loop
events-Order [] l ints all = record {
  logs = [];
  stretch = no-Stretch l;
  whole = no-Advance l;
  newcomer = λ i q rs. newcomers [] l i q rs ints;
}
events-Order (listening rs ∷ es) l (here, ints) all =
    let r =
      events-Order es (record l { conns = handle_listen_readable rs l.conns }) ints
        (handle_listen_readable-AllSettled rs l.conns here all) in
    record {
      logs = [] ∷ r.logs;
      stretch = listening-Stretch es l rs r.logs here r.stretch;
      whole = join_listening es l rs es (flat r.logs) here r.whole;
      newcomer = λ i q rs'. newcomers (listening rs ∷ es) l i q rs' (here, ints);
    }
events-Order (client e ∷ es) l ints all =
    let r = events-Order es (on_client e l) ints (on_client-AllSettled e l all) in
    let (first, x) = on_client-Advance e l all in
    record {
      logs = first ∷ r.logs;
      stretch = client-Stretch es l e first r.logs x r.stretch;
      whole = join_client es l e es first (flat r.logs) x r.whole;
      newcomer = λ i q rs. newcomers (client e ∷ es) l i q rs ints;
    }
