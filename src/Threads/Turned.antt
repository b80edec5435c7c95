-- ===== src/Threads/Turned.antt =====
-- src/server_threaded.c: one turn of a worker, as a stretch of its `handle_conn`.

use redis_server_c.Prelude.{
  ℕ, ◌+◌, ◌≡◌, inl, inr, refl, arith, Bool, true, false, ◌||◌, List, [], ◌∷◌, Bytes, length, ltb,
  ◌==◌, Bool-cases, if◌then◌else◌,
}
use redis_server_c.Resp.Parse.{resp_parse}
use redis_server_c.Resp.Bounds.{Parsed-cases}
use redis_server_c.Epoll.Conn.{World}
use redis_server_c.Epoll.Client.{ReadResult, got, read_eintr, read_eagain, read_failed}
use redis_server_c.Epoll.History.{own}
use redis_server_c.Threads.Handle.{max_input_buf, Handling}
use redis_server_c.Threads.Took.{OthersRun, Took, Took-nothing}
use redis_server_c.Threads.Ran.{ran-Took, error-Took}
use redis_server_c.Threads.Interleaved.{received-Took}
use redis_server_c.Threads.Workers.{
  Place, reading, serving, ended, Worker, read_turn, serve_turn, turn_at, alone, finds,
}

-- The bytes that a turn brings into the input buffer.
abbrev pub heard_at : Place → List ReadResult → Handling → Bytes
heard_at reading (got bytes ∷ rs) h = elim (length bytes == 0) [
  | true ↦ []
  | false ↦ elim (ltb max_input_buf (length h.input.buf + length bytes)) [
    | true ↦ []
    | false ↦ bytes
  ]
]
heard_at reading _ h = []
heard_at serving rs h = []
heard_at ended rs h = []

-- No reply is held back, and a worker that reads on has not failed.
pub record Sound (place : Place) (h : Handling) : Type 0 where
  pub flushed : h.out.data_ ≡ []
  pub goes : place ≡ reading → h.fatal ≡ false

-- What a turn does, as a stretch of the worker's `handle_conn`.
pub record Turned (me : ℕ) (heard : Bytes) (h : Handling) (k : Worker) : Type 0 where
  pub commands : List (List Bytes)
  pub took : Took me (own me commands) heard h k.handling
  pub goes : k.place ≡ reading → k.handling.fatal ≡ false

abbrev pub no_others : (me : ℕ) (w : World) → OthersRun me (alone w)
no_others me w = record { logs = λ i. []; not_mine = λ i. refl; others_run = λ i v. refl }

module _ (me : ℕ) (w : World) (h0 : Handling) (empty : h0.out.data_ ≡ []) where
  abbrev h : Handling
  h = finds w h0

  no_turn :
      (place : Place) (rs : List ReadResult)
      → (place ≡ reading → h.fatal ≡ false)
      → Turned me [] h (record { place = place; reads = rs; handling = h })
  no_turn place rs goes = record {
    commands = [];
    took = Took-nothing me [] h (alone w) empty (no_others me w) refl refl;
    goes = goes;
  }

  read_turn-Turned :
      (rs : List ReadResult)
      → h.fatal ≡ false
      → Turned me (heard_at reading rs h) h (read_turn rs h)
  unfolding read_turn
  read_turn-Turned [] goes = no_turn ended [] (λ e. goes)
  read_turn-Turned (read_eintr ∷ rs) goes = no_turn reading rs (λ e. goes)
  read_turn-Turned (read_eagain ∷ rs) goes = no_turn ended rs (λ e. goes)
  read_turn-Turned (read_failed ∷ rs) goes = no_turn ended rs (λ e. goes)
  read_turn-Turned (got bytes ∷ rs) goes = elim (Bool-cases (length bytes == 0)) [
    | inl end ↦ rw (end, read_turn, heard_at) (no_turn ended rs (λ e. goes))
    | inr more ↦ elim (Bool-cases (ltb max_input_buf (length h.input.buf + length bytes))) [
      | inl over ↦
          rw (more, over, read_turn, heard_at)
            (record {
              commands = [];
              took = error-Took me h _ goes empty (no_others me w);
              goes = λ e. absurd cc;
            })
      | inr below ↦
          rw (more, below, read_turn, heard_at)
            (record {
              commands = [];
              took = received-Took me h bytes goes empty (no_others me w);
              goes = λ e. goes;
            })
    ]
  ]

  stopped_goes :
      (b : Bool) → h.fatal ≡ b → (if b then ended else reading) ≡ reading → h.fatal ≡ false
  stopped_goes true e k = absurd cc
  stopped_goes false e k = e

  serve_turn-Turned : (rs : List ReadResult) → Turned me [] h (serve_turn rs h)
  unfolding serve_turn
  serve_turn-Turned rs = elim (Bool-cases ((length h.input.buf == 0) || h.fatal)) [
    | inl stop ↦
        rw (stop, serve_turn)
          (no_turn (if h.fatal then ended else reading) rs (stopped_goes h.fatal refl))
    | inr go ↦
        let goes : h.fatal ≡ false = ground (arith, go) in
        elim (Parsed-cases (resp_parse h.input.buf)) [
          | inl short ↦ rw (go, short, serve_turn) (no_turn reading rs (λ e. goes))
          | inr (inl (m, bad)) ↦
              rw (go, bad, serve_turn)
                (record {
                  commands = [];
                  took = error-Took me h m goes empty (no_others me w);
                  goes = λ e. absurd cc;
                })
          | inr (inr (argv, n, good)) ↦
              rw (go, good, serve_turn)
                (record {
                  commands = argv ∷ [];
                  took = ran-Took me h argv n goes empty (no_others me w) good;
                  goes = λ e. absurd cc;
                })
        ]
  ]

  pub turn_at-Turned :
      (place : Place) (rs : List ReadResult)
      → (place ≡ reading → h.fatal ≡ false)
      → Turned me (heard_at place rs h) h (turn_at place rs h)
  turn_at-Turned reading rs goes = read_turn-Turned rs (goes refl)
  turn_at-Turned serving rs goes = serve_turn-Turned rs
  turn_at-Turned ended rs goes = no_turn ended rs goes
