-- ===== src/Threads/Stream.antt =====
-- src/server_threaded.c: `handle_conn` on the whole input of a client, in whatever parts it arrives.
use mathlib.Core.List.{append_assoc, append-nil}
use redis_server_c.Prelude.{
  ℕ, zero, suc, ◌+◌, ◌≤◌, ◌≡◌, inl, inr, refl, sym, ap, ◌∙◌, Bool, true, false, List, [], ◌∷◌, ◌++◌,
  arith, Bytes, length, length-append, drop, length-drop, ltb, ◌==◌, Bool-cases,
}
use redis_server_c.Resp.Parse.{incomplete, resp_parse}
use redis_server_c.Resp.Bounds.{Parsed-cases, resp_parse-bounds}
use redis_server_c.Resp.Reply.{RespBuf, resp_buf_init}
use redis_server_c.Input.{dyn_buf_append}
use redis_server_c.Epoll.Conn.{Conn, World, dispatch}
use redis_server_c.Epoll.Process.{conn_process_input}
use redis_server_c.Epoll.Serve.{
  Served, serve, waiting, seen, process_loop-serve, serve_more, closed,
}
use redis_server_c.Epoll.Output.{WriteResult}
use redis_server_c.Epoll.Client.{ReadResult, got}
use redis_server_c.Threads.Handle.{
  max_input_buf, Shared, Handling, flush_out, received, serve_loop, conn_loop, handle_conn,
}
use redis_server_c.Threads.Agree.{Alone, Agrees, nothing_more, serve_loop-Agrees, not_both}

-- The parts of the input, each of them some bytes, as the results of read().
abbrev pub arriving : List Bytes → List ReadResult
arriving [] = []
arriving (part ∷ parts) = got part ∷ arriving parts

abbrev pub whole : List Bytes → Bytes
whole [] = []
whole (part ∷ parts) = part ++ whole parts

abbrev pub AllSome : List Bytes → Type 0
AllSome [] = Unit
AllSome (part ∷ parts) = (1 ≤ length part) × AllSome parts

serve-waits :
    (n : ℕ) (w : World) (buf : Bytes) (out : RespBuf)
    → resp_parse buf ≡ incomplete
    → serve n w buf out ≡ waiting w buf out
unfolding serve
serve-waits zero w buf out short = refl
serve-waits (suc n) w buf out short = rw (short, serve) refl

-- What is left of the input, unless it ended in an error, is no whole command.
serve_drained :
    (n : ℕ) (w : World) (buf : Bytes) (out : RespBuf)
    → (serve n w buf out).closing ≡ false
    → length buf ≤ n
    → resp_parse (serve n w buf out).rest ≡ incomplete
unfolding serve resp_parse
serve_drained zero w [] out open_ enough = refl
serve_drained zero w (b ∷ buf) out open_ enough = absurd (omega arith)
serve_drained (suc n) w buf out open_ enough = elim (Parsed-cases (resp_parse buf)) [
  | inl short ↦ rw (short, serve) short
  | inr (inl (m, bad)) ↦ absurd (closed (rw (bad, serve) at open_))
  | inr (inr (argv, k, good)) ↦
      let (some_bytes, inside) = resp_parse-bounds buf argv k good in
      let shorter = length-drop k buf in
      rw (good, serve)
        (serve_drained n (dispatch w argv out).0 (drop k buf) (dispatch w argv out).1
          (rw (good, serve) at open_) (omega arith))
]

serve_shrinks :
    (n : ℕ) (w : World) (buf : Bytes) (out : RespBuf) → length (serve n w buf out).rest ≤ length buf
unfolding serve
serve_shrinks zero w buf out = omega arith
serve_shrinks (suc n) w buf out = elim (Parsed-cases (resp_parse buf)) [
  | inl short ↦ rw (short, serve) (omega arith)
  | inr (inl (m, bad)) ↦ rw (bad, serve) (omega arith)
  | inr (inr (argv, k, good)) ↦
      let (some_bytes, inside) = resp_parse-bounds buf argv k good in
      rw (good, serve)
        (omega (
          arith,
          length-drop k buf,
          serve_shrinks n (dispatch w argv out).0 (drop k buf) (dispatch w argv out).1,
        ))
]

-- One stretch after another.
Agrees-join :
    (before sent : Bytes) (s t : Served) (h h' : Handling)
    → Agrees before sent s h
    → Agrees s.out.data_ h.sent t h'
    → Agrees before sent t h'
Agrees-join before sent s t h h' a b = record {
  replies = a.replies ++ b.replies;
  queued = b.queued ∙ ap (λ v. v ++ b.replies) a.queued ∙ append_assoc before a.replies b.replies;
  sent_all =
      b.sent_all ∙ ap (λ v. v ++ b.replies) a.sent_all ∙ append_assoc sent a.replies b.replies;
  same_world = b.same_world;
  same_rest = b.same_rest;
  still_open = b.still_open;
  flushed = b.flushed;
  alone = b.alone;
}

-- The loop goes on when a part has been served without a failure.
goes_on :
    (b : Bool) (h rest : Handling)
    → h.fatal ≡ b
    → (elim b as (λ x. Handling) [ true ↦ h | false ↦ rest ]).fatal ≡ false
    → ((elim b as (λ x. Handling) [ true ↦ h | false ↦ rest ]) ≡ rest) × (b ≡ false)
goes_on true h rest e fine = absurd (not_both e fine)
goes_on false h rest e fine = (refl, refl)

-- One part after another, from a state in which no whole command waits.
conn_loop-Agrees :
    (parts : List Bytes) (n : ℕ) (w : World) (out : RespBuf) (h : Handling)
    → AllSome parts
    → h.shared.world ≡ w
    → Alone h.shared
    → h.out.data_ ≡ []
    → resp_parse h.input.buf ≡ incomplete
    → length (h.input.buf ++ whole parts) ≤ n
    → (conn_loop (arriving parts) h).fatal ≡ false
    → Agrees out.data_ h.sent
        (serve n w (h.input.buf ++ whole parts) out)
        (conn_loop (arriving parts) h)
unfolding conn_loop dyn_buf_append flush_out
conn_loop-Agrees [] n w out h some_bytes same alone empty short enough fine =
    let e = append-nil h.input.buf in
    rw (e, serve-waits n w h.input.buf out short) (nothing_more w out h same alone empty)
conn_loop-Agrees (part ∷ parts) n w out h (some_bytes, more) same alone empty short enough fine =
    let size = length h.input.buf + length part in
    let filled : (length part == 0) ≡ false = ground (arith, some_bytes) in
    elim (Bool-cases (ltb max_input_buf size)) [
      | inl over ↦ absurd (not_both refl (rw (filled, over, conn_loop) at fine))
      | inr below ↦
          let buf = h.input.buf ++ part in
          let long = length-append h.input.buf part in
          let joined = append_assoc h.input.buf part (whole parts) in
          let longer : length (buf ++ whole parts) ≤ n = rw joined enough in
          let h' = serve_loop size (received h part) in
          let fine1 = rw (filled, below, conn_loop) at fine in
          let (step, goes) = goes_on h'.fatal h' (conn_loop (arriving parts) h') refl fine1 in
          let s = serve size w buf out in
          let first : Agrees out.data_ h.sent s h' =
            serve_loop-Agrees size w out (received h part) same alone empty goes in
          let left = first.same_rest in
          let waits : resp_parse h'.input.buf ≡ incomplete =
            rw left (serve_drained size w buf out first.still_open (omega arith)) in
          let shrinks = serve_shrinks size w buf out in
          let rest =
            conn_loop-Agrees parts n s.world s.out h' more first.same_world first.alone
              first.flushed waits
              (omega (
                arith,
                ap length left,
                length-append h'.input.buf (whole parts),
                length-append buf (whole parts),
              ))
              (rw step at fine1) in
          let glued : serve n s.world (h'.input.buf ++ whole parts) s.out
              ≡ serve n w (h.input.buf ++ (part ++ whole parts)) out =
            ap (λ t. serve n s.world (t ++ whole parts) s.out) left
            ∙ serve_more size n w buf (whole parts) out s refl first.still_open (omega arith) longer
            ∙ ap (λ t. serve n w t out) joined in
          rw (filled, below, conn_loop)
            (rw step (Agrees-join out.data_ h.sent s _ h' _ first (rw glued at rest)))
    ]

-- When no other worker runs a command and the handling ends without a failure, `handle_conn` sends
-- a client whose input arrives in parts of some bytes each just the replies that
-- `conn_process_input` of the other server queues for an open connection that holds the whole
-- input, and leaves the same world and the same unfinished input.
pub servers_agree :
    (parts : List Bytes) (writes : List WriteResult) (sh : Shared) (c : Conn)
    → AllSome parts
    → Alone sh
    → (handle_conn (arriving parts) writes sh).fatal ≡ false
    → c.closing ≡ false
    → c.input.buf ≡ whole parts
    → Agrees c.out.data_ []
        (seen (conn_process_input sh.world c))
        (handle_conn (arriving parts) writes sh)
unfolding conn_process_input handle_conn resp_parse resp_buf_init
servers_agree parts writes sh c some_bytes alone fine open_ input =
    let n = length c.input.buf in
    let h : Handling = record {
      shared = sh;
      input = record { buf = []; cap = 0 };
      out = resp_buf_init;
      writes = writes;
      sent = [];
      fatal = false;
    } in
    let agree =
      conn_loop-Agrees parts n sh.world c.out h some_bytes refl alone refl refl
        (omega (arith, ap length input)) fine in
    let served : serve n sh.world (whole parts) c.out ≡ seen (conn_process_input sh.world c) =
      ap (λ t. serve n sh.world t c.out) (sym input)
      ∙ sym (process_loop-serve n sh.world c open_) in
    rw served at agree
