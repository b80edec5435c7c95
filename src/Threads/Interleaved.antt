-- ===== src/Threads/Interleaved.antt =====
-- src/server_threaded.c: `handle_conn` while other workers run commands between its own.
use mathlib.Core.List.{append-nil}
use redis_server_c.Prelude.{
  ℕ, zero, suc, ◌+◌, ◌≡◌, inl, inr, refl, arith, true, false, ◌||◌, List, [], ◌∷◌, ◌++◌, Bytes,
  length, ltb, ◌==◌, Bool-cases,
}
use redis_server_c.Resp.Parse.{resp_parse}
use redis_server_c.Resp.Bounds.{Parsed-cases}
use redis_server_c.Resp.Reply.{resp_buf_init}
use redis_server_c.Input.{dyn_buf_append}
use redis_server_c.Epoll.Output.{WriteResult}
use redis_server_c.Epoll.Client.{ReadResult, got, read_eintr, read_eagain, read_failed}
use redis_server_c.Threads.Handle.{
  max_input_buf, Shared, Handling, ran, serve_loop, received, conn_loop, handle_conn,
}
use redis_server_c.Threads.Took.{OthersRun, Took, Taking, Taking-nothing, Taking-join, not_both}
use redis_server_c.Threads.Ran.{ran-Took, error-Took}

pub serve_loop-Taking :
    (me rounds : ℕ) (h : Handling)
    → h.out.data_ ≡ []
    → OthersRun me h.shared
    → Taking me [] h (serve_loop rounds h)
unfolding serve_loop
serve_loop-Taking me zero h empty o = Taking-nothing me h empty o
serve_loop-Taking me (suc rounds) h empty o =
    elim (Bool-cases ((length h.input.buf == 0) || h.fatal)) [
      | inl stop ↦ rw (stop, serve_loop) (Taking-nothing me h empty o)
      | inr go ↦
          let goes : h.fatal ≡ false = ground (arith, go) in
          elim (Parsed-cases (resp_parse h.input.buf)) [
            | inl short ↦ rw (go, short, serve_loop) (Taking-nothing me h empty o)
            | inr (inl (m, bad)) ↦ rw (go, bad, serve_loop) ([], error-Took me h m goes empty o)
            | inr (inr (argv, n, good)) ↦
                let h1 = ran h argv n in
                let first = ran-Took me h argv n goes empty o good in
                rw (go, good, serve_loop)
                  (Taking-join me [] [] h h1 (serve_loop rounds h1) (_, first)
                    (serve_loop-Taking me rounds h1 first.flushed first.others))
          ]
    ]

-- The bytes of read() that come into the input buffer.
abbrev pub received_by : List ReadResult → Handling → Bytes
received_by [] h = []
received_by (read_eintr ∷ rs) h = received_by rs h
received_by (read_eagain ∷ rs) h = []
received_by (read_failed ∷ rs) h = []
received_by (got bytes ∷ rs) h = elim (length bytes == 0) [
  | true ↦ []
  | false ↦ elim (ltb max_input_buf (length h.input.buf + length bytes)) [
    | true ↦ []
    | false ↦
        let h' = serve_loop (length h.input.buf + length bytes) (received h bytes) in
        bytes ++ elim h'.fatal [ true ↦ [] | false ↦ received_by rs h' ]
  ]
]

pub received-Took :
    (me : ℕ) (h : Handling) (bytes : Bytes)
    → h.fatal ≡ false
    → h.out.data_ ≡ []
    → OthersRun me h.shared
    → Took me [] bytes h (received h bytes)
unfolding dyn_buf_append
received-Took me h bytes goes empty o = record {
  rest = h.input.buf ++ bytes;
  tail = [];
  error_line = inl refl;
  lost = [];
  world_after = refl;
  splits = refl;
  in_order = refl;
  fine = λ k. (refl, refl, refl);
  flushed = empty;
  others = o;
  closes = λ k. absurd (not_both k goes);
}

-- Some bytes are read and served.
served_part :
    (me rounds : ℕ) (h : Handling) (bytes : Bytes)
    → h.fatal ≡ false
    → h.out.data_ ≡ []
    → OthersRun me h.shared
    → Taking me bytes h (serve_loop rounds (received h bytes))
served_part me rounds h bytes goes empty o =
    let t =
      Taking-join me bytes [] h (received h bytes) (serve_loop rounds (received h bytes))
        ([], received-Took me h bytes goes empty o)
        (serve_loop-Taking me rounds (received h bytes) empty o) in
    rw (append-nil bytes) at t

conn_loop-Taking :
    (me : ℕ) (rs : List ReadResult) (h : Handling)
    → h.fatal ≡ false
    → h.out.data_ ≡ []
    → OthersRun me h.shared
    → Taking me (received_by rs h) h (conn_loop rs h)
unfolding conn_loop
conn_loop-Taking me [] h goes empty o = Taking-nothing me h empty o
conn_loop-Taking me (read_eintr ∷ rs) h goes empty o = conn_loop-Taking me rs h goes empty o
conn_loop-Taking me (read_eagain ∷ rs) h goes empty o = Taking-nothing me h empty o
conn_loop-Taking me (read_failed ∷ rs) h goes empty o = Taking-nothing me h empty o
conn_loop-Taking me (got bytes ∷ rs) h goes empty o = elim (Bool-cases (length bytes == 0)) [
  | inl end ↦ rw (end, conn_loop, received_by) (Taking-nothing me h empty o)
  | inr more ↦
      let size = length h.input.buf + length bytes in
      let h' = serve_loop size (received h bytes) in
      let first = served_part me size h bytes goes empty o in
      elim (Bool-cases (ltb max_input_buf size)) [
        | inl over ↦ rw (more, over, conn_loop, received_by) ([], error-Took me h _ goes empty o)
        | inr below ↦ elim (Bool-cases h'.fatal) [
          | inl fails ↦
              rw (more, below, conn_loop, received_by) (rw (fails, append-nil bytes) first)
          | inr going ↦
              rw (more, below, conn_loop, received_by)
                (rw going (
                  Taking-join me bytes (received_by rs h') h h' (conn_loop rs h') first
                    (conn_loop-Taking me rs h' going first.1.flushed first.1.others)))
        ]
      ]
]

-- The variables of `handle_conn` at its start.
abbrev pub begun : List WriteResult → Shared → Handling
begun writes sh = record {
  shared = sh;
  input = record { buf = []; cap = 0 };
  out = resp_buf_init;
  writes = writes;
  sent = [];
  fatal = false;
}

-- Whatever read() and write() return, when the other workers run commands of other clients between
-- the commands of `handle_conn`, there is one order of all these commands whose run, one after
-- another, leaves the store's world; this client's commands in it are those that its input is cut
-- into, and the bytes sent are the replies to them, in the same order, up to what is lost and the
-- error line when the handling fails. One that does not fail has sent all replies and nothing else.
pub handle_conn-Taking :
    (me : ℕ) (reads : List ReadResult) (writes : List WriteResult) (sh : Shared)
    → OthersRun me sh
    → Taking me
        (received_by reads (begun writes sh))
        (begun writes sh)
        (handle_conn reads writes sh)
unfolding handle_conn resp_buf_init
handle_conn-Taking me reads writes sh o = conn_loop-Taking me reads (begun writes sh) refl refl o
