-- ===== src/Threads/Tests.antt =====
-- The theorems about the thread-pool server at small inputs.
use redis_server_c.Prelude.{
  ℕ, ◌==◌, ◌+◌, ◌<◌, ◌≤◌, ◌≡◌, refl, true, false, [], ◌∷◌, ◌++◌, arith, Bytes, codes, length,
  replicate, none, List, bytes_eq, memcmp, if◌then◌else◌,
}
use redis_server_c.Prelude.Int.{pos}
use redis_server_c.Store.Ops.{store_create}
use redis_server_c.Growth.{grown, double_until}
use redis_server_c.Resp.Parse.{resp_parse, parse_inline, newline_from, tokens, token, skip_spaces}
use redis_server_c.Resp.Reply.{
  resp_buf_init, resp_buf_append, resp_buf_ensure, resp_reply_simple_string,
}
use redis_server_c.Cmd.Args.{arg_eq_ci, same_ci}
use redis_server_c.Cmd.Dispatch.{cmd_dispatch, command_table, dispatch_in}
use redis_server_c.Cmd.Admin.{cmd_ping}
use redis_server_c.Input.{dyn_buf_append, dyn_buf_consume}
use redis_server_c.Epoll.Conn.{Conn, new_conn}
use redis_server_c.Epoll.Process.{conn_process_input}
use redis_server_c.Epoll.Serve.{seen}
use redis_server_c.Persist.Status.{persist_ok}
use redis_server_c.Epoll.Output.{WriteResult, wrote}
use redis_server_c.Epoll.Client.{ReadResult, got, read_eintr}
use redis_server_c.Threads.Queue.{WorkQueue, wq_init, wq_push, wq_pop, wq_shutdown}
use redis_server_c.Threads.Fifo.{contents, Pushed, Popped, wq_init-IsQueue, wq_turns}
use redis_server_c.Threads.Pool.{
  Pool, pushing, joining, pushed, init, accept, push, exit, shut_down, Reach, start, later,
}
use redis_server_c.Threads.Progress.{taken_in_order, worker_awake, workers_end}
use redis_server_c.Threads.Handle.{Shared, write_all, flush_out, serve_loop, conn_loop, handle_conn}
use redis_server_c.Epoll.Main.{default_port}
use redis_server_c.Threads.Args.{pool_args, pool_options, default_workers}
use redis_server_c.Threads.Agree.{Agrees}
use redis_server_c.Epoll.History.{Log, replay}
use redis_server_c.Threads.Took.{OthersRun, Taking}
use redis_server_c.Threads.Interleaved.{received_by, begun, handle_conn-Taking}
use redis_server_c.Threads.Workers.{turns, all_begun}
use redis_server_c.Threads.Linear.{Together, heard}
use redis_server_c.Threads.OnMap.{workers-OnMap}
use redis_server_c.Epoll.OnMap.{Runs}
use redis_server_c.Store.Spec.{empty}
use redis_server_c.Store.Session.{store_create-Models}
use redis_server_c.Cmd.Promise.{Abstract}
use redis_server_c.Threads.Stream.{arriving, servers_agree}
use redis_server_c.Threads.HandleLaws.{Answered, handle_conn-Answered}

wq_turns_example : Pushed wq_init 7 (wq_push wq_init 7) × Popped wq_init (wq_pop wq_init)
wq_turns_example = wq_turns wq_init 7 wq_init-IsQueue

-- The queue after the push of descriptor 7.
abbrev one_queued : WorkQueue
one_queued = record { fds = 7 ∷ replicate 511 0; head = 0; tail = 1; count = 1; shutdown = false }

abbrev accepted : Pool
accepted = record (init 2) { main = pushing 7 }

abbrev waiting : Pool
waiting = pushed accepted 7 one_queued

waiting_reached : Reach 2 waiting
unfolding wq_push
waiting_reached = later (later start (accept 7 refl)) (push 7 one_queued refl refl)

taken_in_order_example :
    (waiting.queued ≡ waiting.taken ++ contents waiting.queue)
    × (length (contents waiting.queue) ≤ 512)
taken_in_order_example = taken_in_order waiting_reached

worker_awake_example : 0 < waiting.ready + length waiting.busy
worker_awake_example = worker_awake waiting_reached (omega arith) (omega arith)

-- One worker, and a shutdown at once.
abbrev ended : Pool
ended = record (init 1) { queue = wq_shutdown wq_init; main = joining; ready = 0; exited = 1 }

ended_reached : Reach 1 ended
unfolding wq_pop
ended_reached = later (later start (shut_down refl)) (exit 0 (wq_shutdown wq_init) refl refl)

workers_end_example : (ended.exited ≡ 1) × (ended.queued ≡ ended.taken)
workers_end_example = workers_end ended_reached (omega arith) refl refl refl

abbrev shared : Shared
shared = record {
  world = record {
    server = record { store = store_create; save_path = []; lastsave_time = pos 0 };
    answers = λ i. record {
      now_ms = λ j. pos 1000;
      now_s = pos 1;
      save_status = persist_ok;
      fork_ok = true;
    };
  };
  others = λ i w. w;
}

handle_conn-Answered_example :
    Answered
      (handle_conn (got (codes "PING" ++ (13 ∷ 10 ∷ [])) ∷ read_eintr ∷ []) (wrote 64 ∷ []) shared)
handle_conn-Answered_example =
    handle_conn-Answered (got (codes "PING" ++ (13 ∷ 10 ∷ [])) ∷ read_eintr ∷ []) (wrote 64 ∷ [])
      shared

answering : Unit {0}
unfolding handle_conn conn_loop dyn_buf_append serve_loop flush_out write_all dyn_buf_consume
    resp_parse parse_inline newline_from tokens token skip_spaces cmd_dispatch command_table
    dispatch_in arg_eq_ci same_ci cmd_ping resp_reply_simple_string resp_buf_append resp_buf_ensure
    resp_buf_init grown double_until
answering = tt

abbrev ping : Bytes
ping = codes "PING" ++ (13 ∷ 10 ∷ [])

abbrev pinged : Conn
pinged = record (new_conn 7) { input = record { buf = ping; cap = 4096 } }

-- The command in two parts, and write() takes its reply in two.
abbrev two_parts : List Bytes
two_parts = codes "PI" ∷ (codes "NG" ++ (13 ∷ 10 ∷ [])) ∷ []

abbrev two_writes : List WriteResult
two_writes = wrote 3 ∷ wrote 64 ∷ []

pong_sent :
    (handle_conn (arriving two_parts) two_writes shared).sent ≡ codes "+PONG" ++ (13 ∷ 10 ∷ [])
unfolding answering
pong_sent = refl

no_failure : (handle_conn (arriving two_parts) two_writes shared).fatal ≡ false
unfolding answering
no_failure = refl

servers_agree_example :
    Agrees [] []
      (seen (conn_process_input shared.world pinged))
      (handle_conn (arriving two_parts) two_writes shared)
unfolding resp_buf_init
servers_agree_example =
    servers_agree two_parts two_writes shared pinged (omega arith, (omega arith, tt)) (λ i w. refl)
      no_failure refl refl

-- Before each command of client 7 another worker runs one of client 9.
abbrev interrupted : Shared
interrupted = record shared { others = λ i w. replay w ((9, codes "FLUSHDB" ∷ []) ∷ []) }

interrupted-OthersRun : OthersRun 7 interrupted
interrupted-OthersRun = record {
  logs = λ i. (9, codes "FLUSHDB" ∷ []) ∷ [];
  not_mine = λ i. refl;
  others_run = λ i w. refl;
}

handle_conn-Taking_example :
    Taking 7
      (received_by (arriving two_parts) (begun two_writes interrupted))
      (begun two_writes interrupted)
      (handle_conn (arriving two_parts) two_writes interrupted)
handle_conn-Taking_example =
    handle_conn-Taking 7 (arriving two_parts) two_writes interrupted interrupted-OthersRun

-- Two workers take turns on the store: a SET of one client, and a GET of the other.
abbrev two_reads : ℕ → List ReadResult
two_reads q =
    if q == 7
    then arriving (codes "SET k" ∷ (codes " v" ++ (13 ∷ 10 ∷ [])) ∷ [])
    else arriving ((codes "GET k" ++ (13 ∷ 10 ∷ [])) ∷ [])

abbrev abstract : Abstract
abstract = record { dict = empty; save_path = []; lastsave_time = pos 0 }

abbrev schedule : List ℕ
schedule = 7 ∷ 9 ∷ 7 ∷ 7 ∷ 9 ∷ 7 ∷ []

workers-OnMap_example :
    (log : Log) × Together log
      (heard schedule (all_begun two_reads (λ q. two_writes) shared.world))
      (all_begun two_reads (λ q. two_writes) shared.world)
      (turns schedule (all_begun two_reads (λ q. two_writes) shared.world))
    × Runs abstract shared.world
        (turns schedule (all_begun two_reads (λ q. two_writes) shared.world)).world
        log
workers-OnMap_example =
    workers-OnMap schedule two_reads (λ q. two_writes) shared.world abstract
      (record { models = store_create-Models; same_path = refl; same_time = refl })

-- The default port given in full is taken for no port: the number of workers becomes the port.
misread_workers :
    pool_args
      (λ a. if bytes_eq a (codes "6380") then pos 6380 else pos 8)
      (codes "6380" ∷ codes "8" ∷ [])
      default_port
      default_workers
      none
    ≡ pool_options (pos 8) (pos 4) none
unfolding pool_args bytes_eq memcmp
misread_workers = refl
