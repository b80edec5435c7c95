-- ===== src/Epoll/Tests.antt =====
-- The theorems about the single-threaded server at small inputs, and runs of src/server.c.
use redis_server_c.Prelude.{
  ℕ, ◌≡◌, refl, true, false, List, [], ◌∷◌, ◌++◌, none, some, arith, Bytes, codes, replicate,
  bytes_eq, memcmp,
}
use redis_server_c.Prelude.Int.{pos}
use redis_server_c.Resp.Parse.{resp_parse, parse_inline, newline_from}
use redis_server_c.Store.Ops.{store_create}
use redis_server_c.Persist.Status.{persist_ok}
use redis_server_c.Input.{dyn_buf_append}
use redis_server_c.Epoll.Conn.{Conn, World, new_conn, conn_in_append}
use redis_server_c.Epoll.Process.{process_loop, conn_process_input}
use redis_server_c.Epoll.Serve.{seen, conn_process_input-parts}
use redis_server_c.Epoll.Output.{wrote, write_eintr, conn_flush_output}
use redis_server_c.Epoll.Delivery.{Delivered, conn_flush_output-Delivered}
use redis_server_c.Epoll.Client.{got, read_eintr, handle_client_readable, read_loop}
use redis_server_c.Epoll.Main.{parse_args, options, usage, default_port, save_at_end}
use redis_server_c.Epoll.Life.{Sockets, closed_conns, begun}
use redis_server_c.Persist.Memory.{Files, memory}
use redis_server_c.Cmd.State.{Server}
use redis_server_c.Epoll.Table.{conn_at}
use redis_server_c.Epoll.Settled.{ended}
use redis_server_c.Epoll.Loop.{
  Event, listening, client, accepted, Ready, Loop, event_loop, on_client,
}
use redis_server_c.Epoll.LoopInv.{AllSettled, event_loop-AllSettled}
use redis_server_c.Store.Spec.{empty}
use redis_server_c.Store.Session.{store_create-Models}
use redis_server_c.Cmd.Promise.{Abstract}
use redis_server_c.Epoll.OnMap.{Runs, events-OnMap}
use redis_server_c.Epoll.Order.{flat, Order}
use redis_server_c.Cmd.Fulfils.{Represents}
use redis_server_c.Epoll.Isolation.{on_client_others}

abbrev world : World
world = record {
  server = record { store = store_create; save_path = []; lastsave_time = pos 0 };
  answers = λ i. record {
    now_ms = λ j. pos 1000;
    now_s = pos 1;
    save_status = persist_ok;
    fork_ok = true;
  };
}

abbrev abstract : Abstract
abstract = record { dict = empty; save_path = []; lastsave_time = pos 0 }

abbrev ping : Bytes
ping = codes "PING" ++ (13 ∷ 10 ∷ [])

abbrev first_part : Conn
first_part = (conn_process_input world (conn_in_append (new_conn 7) (codes "PI"))).1

first_part_open : first_part.closing ≡ false
unfolding conn_process_input process_loop dyn_buf_append resp_parse parse_inline newline_from
first_part_open = refl

conn_process_input-parts_example :
    seen (
      conn_process_input
        (conn_process_input world (conn_in_append (new_conn 7) (codes "PI"))).0
        (conn_in_append first_part (codes "NG" ++ (13 ∷ 10 ∷ []))))
    ≡ seen (
        conn_process_input world
          (conn_in_append (new_conn 7) (codes "PI" ++ (codes "NG" ++ (13 ∷ 10 ∷ [])))))
conn_process_input-parts_example =
    conn_process_input-parts world
      (conn_process_input world (conn_in_append (new_conn 7) (codes "PI"))).0 (new_conn 7)
      first_part (codes "PI") (codes "NG" ++ (13 ∷ 10 ∷ [])) refl refl first_part_open

abbrev replying : Conn
replying = record (new_conn 7) { out = record { data_ = codes "+PONG"; cap = 64 }; out_sent = 1 }

conn_flush_output-Delivered_example :
    Delivered replying (conn_flush_output (wrote 2 ∷ write_eintr ∷ []) replying)
conn_flush_output-Delivered_example =
    conn_flush_output-Delivered replying (wrote 2 ∷ write_eintr ∷ []) (omega arith)

abbrev start : Loop
start = record { conns = []; world = world }

start-AllSettled : AllSettled start.conns
start-AllSettled fd = ended

abbrev pinging : Ready
pinging = record {
  fd = 7;
  hup = false;
  readable = true;
  writable = false;
  reads = read_eintr ∷ got ping ∷ [];
  writes = wrote 3 ∷ [];
  more_writes = [];
}

abbrev connecting : List Event
connecting = listening (accepted 7 true ∷ accepted 8 true ∷ []) ∷ []

connected-AllSettled : AllSettled (event_loop connecting start).conns
connected-AllSettled =
    event_loop-AllSettled connecting start ((omega arith, (omega arith, tt)), tt) start-AllSettled

event_loop-AllSettled_example :
    AllSettled (event_loop (client pinging ∷ []) (event_loop connecting start)).conns
event_loop-AllSettled_example =
    event_loop-AllSettled (client pinging ∷ []) (event_loop connecting start) tt
      connected-AllSettled

-- Two clients, and one of them sends a command in two parts, whose reply is written in two parts.
abbrev talking : List Event
talking =
    client (record pinging { reads = got (codes "PI") ∷ []; writes = [] })
    ∷ client (record pinging { reads = got (codes "NG" ++ (13 ∷ 10 ∷ [])) ∷ [] })
    ∷ client (record pinging { readable = false; writable = true; more_writes = wrote 64 ∷ [] })
    ∷ []

connected-Represents : Represents abstract (event_loop connecting start).world.server
unfolding event_loop
connected-Represents = record { models = store_create-Models; same_path = refl; same_time = refl }

events-OnMap_example :
    let l = event_loop connecting start in
    (order : Order talking l) × Runs abstract l.world (event_loop talking l).world (flat order.logs)
events-OnMap_example =
    events-OnMap talking (event_loop connecting start) tt connected-AllSettled abstract
      connected-Represents

on_client_others_example :
    conn_at (on_client pinging (event_loop connecting start)).conns 8
    ≡ conn_at (event_loop connecting start).conns 8
on_client_others_example =
    on_client_others pinging (event_loop connecting start) 8 connected-AllSettled (omega arith)

-- A read that fills the chunk is followed by another one, and the end of the stream drops what the
-- first one brought, whole commands included.
dropped :
    (handle_client_readable (got (replicate 16384 13) ∷ got [] ∷ []) [] world (new_conn 7)).conn
    ≡ none
unfolding handle_client_readable read_loop dyn_buf_append
dropped = refl

-- A start with "-s dump", where there is no such file.
abbrev with_path : List Bytes
with_path = codes "-s" ∷ codes "dump" ∷ []

abbrev no_files : Files
no_files = λ q. none

abbrev loaded_server : Server
loaded_server = record (world.server) { save_path = codes "dump" }

abbrev sockets : Sockets
sockets = record {
  socket = some 4;
  bound = true;
  listens = true;
  flags_read = true;
  flags_set = true;
  epoll = some 5;
  added = true;
}

abbrev life : List Event
life = connecting ++ talking

abbrev at_the_end : Loop
at_the_end = event_loop life (begun loaded_server world.answers)

abbrev files_behind : Files
files_behind = (save_at_end memory no_files at_the_end.world.server (some (codes "dump")) (pos 9)).0

abbrev fds_closed : List ℕ
fds_closed = closed_conns at_the_end.conns ++ (4 ∷ 5 ∷ [])

-- "-s" takes the next argument, and a port out of range is refused.
option_samples :
    (parse_args (λ a. pos 70000) (codes "-s" ∷ codes "dump" ∷ []) default_port none
      ≡ options default_port (some (codes "dump")))
    × (parse_args (λ a. pos 70000) (codes "70000" ∷ []) default_port none ≡ usage)
unfolding parse_args bytes_eq memcmp
option_samples = (refl, refl)
