-- ===== src/Threads/OnMap.antt =====
-- src/server_threaded.c: the workers serve their clients as the commands on a map promise.
use redis_server_c.Prelude.{ℕ, List}
use redis_server_c.Cmd.Promise.{Abstract}
use redis_server_c.Cmd.Fulfils.{Represents}
use redis_server_c.Epoll.Conn.{World}
use redis_server_c.Epoll.Output.{WriteResult}
use redis_server_c.Epoll.Client.{ReadResult}
use redis_server_c.Epoll.History.{Log}
use redis_server_c.Epoll.OnMap.{Runs, on_map}
use redis_server_c.Threads.Workers.{turns, all_begun}
use redis_server_c.Threads.Linear.{Together, heard, workers_served}

-- With any number of workers at work, in whatever order they have their turns and whatever read()
-- and write() return, the commands of all clients have one order which is that of each client, and
-- which is a run on the map that the store stood for at the start, with the reply to each command,
-- and the store stands for the map that it ends with, unless the commands have more than 2 ^ 62
-- arguments together with the keys that were there or come to a time that int64_t does not hold.
-- What a client has been sent are the replies to its commands, in the same order; when its worker
-- fails, the end of them may be missing, or one error line may stand behind them.
pub workers-OnMap :
    (schedule : List ℕ) (reads : ℕ → List ReadResult) (writes : ℕ → List WriteResult) (w : World)
    (a : Abstract)
    → Represents a w.server
    → (log : Log) × Together log
        (heard schedule (all_begun reads writes w))
        (all_begun reads writes w)
        (turns schedule (all_begun reads writes w))
      × Runs a w (turns schedule (all_begun reads writes w)).world log
workers-OnMap schedule reads writes w a v =
    let (log, together) = workers_served schedule reads writes w in
    (log, together, on_map a w _ log v together.world_after)
