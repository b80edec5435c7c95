-- ===== src/Epoll/OnMap.antt =====
-- src/server.c: the event loop serves its clients as the commands on a map promise.
use redis_server_c.Prelude.{
  ◌+◌, ◌^◌, ◌<◌, ◌≡◌, ◌⊎◌, inl, inr, arith, ltb, Bool-cases, List, Bytes, ℕ,
}
use redis_server_c.Cmd.Promise.{Abstract}
use redis_server_c.Cmd.Fulfils.{Represents}
use redis_server_c.Epoll.Conn.{World}
use redis_server_c.Epoll.History.{Log, replay, replies}
use redis_server_c.Epoll.Promised.{
  Run, Unpromised, Kept, each_reply, to_client, arguments, replay-Kept,
}
use redis_server_c.Epoll.Loop.{Event, Loop, event_loop}
use redis_server_c.Epoll.LoopInv.{AllSettled, IntEvents}
use redis_server_c.Epoll.Order.{flat, Order, events-Order}

-- The world `w'` that the commands lead to stands for the map that a run of them on the map ends
-- with, and the reply to each command is the one in that run.
pub record OnMap (a : Abstract) (w w' : World) (log : Log) : Type 0 where
  pub final : Abstract
  pub sent : List Bytes
  pub run : Run w.answers a log sent final
  pub represents : Represents final w'.server
  pub each : each_reply w log ≡ sent
  pub as_sent : (q : ℕ) → replies q w log ≡ to_client q log sent

abbrev pub TooMany : Abstract → Log → Type 0
TooMany a log = 2 ^ 62 < a.dict.card + arguments log

-- The commands are a run on the map, unless they have too many arguments or come to a time that
-- `int64_t` does not hold.
abbrev pub Runs : Abstract → World → World → Log → Type 0
Runs a w w' log = TooMany a log ⊎ (Unpromised w.answers a log ⊎ OnMap a w w' log)

Kept-OnMap :
    (a : Abstract) (w w' : World) (log : Log) → w' ≡ replay w log → Kept a w log → OnMap a w w' log
Kept-OnMap a w w' log after k = record {
  final = k.final;
  sent = k.sent;
  run = k.run;
  represents = rw after k.represents;
  each = k.each;
  as_sent = k.as_sent;
}

pub on_map :
    (a : Abstract) (w w' : World) (log : Log)
    → Represents a w.server
    → w' ≡ replay w log
    → Runs a w w' log
on_map a w w' log v after = elim (Bool-cases (ltb (2 ^ 62) (a.dict.card + arguments log))) [
  | inl many ↦ inl (ground (arith, many))
  | inr room ↦ elim (replay-Kept log w a v (ground (arith, room))) [
    | inl never ↦ inr (inl never)
    | inr k ↦ inr (inr (Kept-OnMap a w w' log after k))
  ]
]

-- Whatever events come and whatever the system calls return, the commands that the events run are,
-- in the order of the events, a run on the map that the server stood for at the start, with the
-- reply to each command, and the server stands for the map that the run ends with, unless the
-- commands have more than 2 ^ 62 arguments together with the keys that were there or come to a time
-- that int64_t does not hold. Over every stretch of the events in which a client stays connected,
-- its commands are those that its input is cut into, and what it has been sent and what is pending
-- for it are the replies to these, in the same order, with nothing lost or added while the
-- connection is not about to close; a client that accept4() returns and epoll_ctl() adds has a new
-- connection from there on. The table is settled at the start, and accept4() returns values of int.
pub events-OnMap :
    (es : List Event) (l : Loop)
    → IntEvents es
    → AllSettled l.conns
    → (a : Abstract) → Represents a l.world.server
    → (order : Order es l) × Runs a l.world (event_loop es l).world (flat order.logs)
events-OnMap es l ints all a v =
    let order = events-Order es l ints all in
    (order, on_map a l.world (event_loop es l).world (flat order.logs) v order.whole.world_after)
