-- ===== src/Threads/Workers.antt =====
-- src/server_threaded.c: any number of `handle_conn` at once, one turn of one worker after another.
use redis_server_c.Prelude.{
  ℕ, ◌+◌, true, false, ◌||◌, List, [], ◌∷◌, length, ltb, ◌==◌, if◌then◌else◌,
}
use redis_server_c.Resp.Parse.{ok, incomplete, error, resp_parse}
use redis_server_c.Epoll.Conn.{World}
use redis_server_c.Epoll.Output.{WriteResult}
use redis_server_c.Epoll.Client.{ReadResult, got, read_eintr, read_eagain, read_failed}
use redis_server_c.Threads.Handle.{
  max_input_buf, Shared, Handling, flush_out, failed, ran, over_cap, received,
}
use redis_server_c.Threads.Interleaved.{begun}

-- Where a worker is in `handle_conn`: before read(), at the test of the inner loop, or behind the
-- loops.
pub data Place : Type 0 where
  reading serving ended : Place

-- A worker with the results of read() to come.
pub record Worker : Type 0 where
  pub place : Place
  pub reads : List ReadResult
  pub handling : Handling

abbrev pub at_place : Place → List ReadResult → Handling → Worker
at_place place reads h = record { place = place; reads = reads; handling = h }

-- One round of the outer loop up to the inner one.
unfoldable pub read_turn : List ReadResult → Handling → Worker
unfolding flush_out
read_turn [] h = at_place ended [] h
read_turn (read_eintr ∷ rs) h = at_place reading rs h
read_turn (read_eagain ∷ rs) h = at_place ended rs h
read_turn (read_failed ∷ rs) h = at_place ended rs h
read_turn (got bytes ∷ rs) h = elim (length bytes == 0) [
  | true ↦ at_place ended rs h
  | false ↦ elim (ltb max_input_buf (length h.input.buf + length bytes)) [
    | true ↦ at_place ended rs (over_cap h)
    | false ↦ at_place serving rs (received h bytes)
  ]
]

-- One round of the inner loop, with one command under the mutex at most.
unfoldable pub serve_turn : List ReadResult → Handling → Worker
unfolding flush_out
serve_turn rs h = elim ((length h.input.buf == 0) || h.fatal) [
  | true ↦ at_place (if h.fatal then ended else reading) rs h
  | false ↦ elim (resp_parse h.input.buf) [
    | incomplete ↦ at_place reading rs h
    | error m ↦ at_place ended rs (failed h m)
    | ok argv consumed ↦ at_place serving rs (ran h argv consumed)
  ]
]

abbrev pub turn_at : Place → List ReadResult → Handling → Worker
turn_at reading rs h = read_turn rs h
turn_at serving rs h = serve_turn rs h
turn_at ended rs h = at_place ended rs h

-- The store as a worker finds it at its turn, with no other command before its next one.
abbrev pub alone : World → Shared
alone w = record { world = w; others = λ i v. v }

abbrev pub finds : World → Handling → Handling
finds w h = record h { shared = alone w }

-- The workers by the descriptors of their clients, and the world that they share.
pub record System : Type 0 where
  pub world : World
  pub workers : ℕ → Worker

abbrev pub turn_of : System → ℕ → Worker
turn_of s q = let k = s.workers q in turn_at k.place k.reads (finds s.world k.handling)

-- The worker of one client has its turn.
unfoldable pub on_turn : ℕ → System → System
unfolding read_turn serve_turn
on_turn q s = record {
  world = (turn_of s q).handling.shared.world;
  workers = λ p. if q == p then turn_of s q else s.workers p;
}

-- The turns in the order in which the workers have them.
unfoldable pub turns : List ℕ → System → System
unfolding on_turn
turns [] s = s
turns (q ∷ schedule) s = turns schedule (on_turn q s)

-- Every worker is at the start of `handle_conn`.
abbrev pub all_begun : (ℕ → List ReadResult) → (ℕ → List WriteResult) → World → System
all_begun reads writes w = record {
  world = w;
  workers = λ q. at_place reading (reads q) (begun (writes q) (alone w));
}
