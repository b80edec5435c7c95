-- ===== src/Epoll/Serve.antt =====
-- src/server.c: `conn_process_input` on input that arrives in parts.
use mathlib.Core.List.{append_assoc}
use redis_server_c.Prelude.{
  ℕ, zero, suc, ◌+◌, ◌≤◌, ◌<◌, ◌≡◌, inl, inr, refl, sym, ap, ◌∙◌, Bool, true, false, List, ◌++◌,
  arith, Bytes, length, drop, length-drop, length-append, drop-append, ◌==◌, Bool-cases,
}
use redis_server_c.Resp.Parse.{ok, incomplete, error, resp_parse}
use redis_server_c.Resp.Bounds.{Parsed-cases, resp_parse-bounds}
use redis_server_c.Resp.Framing.{resp_parse_more}
use redis_server_c.Resp.Reply.{RespBuf, resp_reply_error}
use redis_server_c.Input.{dyn_buf_append, dyn_buf_consume}
use redis_server_c.Epoll.Conn.{Conn, World, dispatch, conn_in_append}
use redis_server_c.Epoll.Process.{process_loop, conn_process_input, empty_waits}

-- What the service of some input leaves: the capacity of the buffer is left out.
pub record Served : Type 0 where
  pub world : World
  pub rest : Bytes
  pub out : RespBuf
  pub closing : Bool

abbrev pub seen : World × Conn → Served
seen (w, c) = record { world = w; rest = c.input.buf; out = c.out; closing = c.closing }

abbrev pub waiting : World → Bytes → RespBuf → Served
waiting w buf out = record { world = w; rest = buf; out = out; closing = false }

-- Commands are parsed off the front of the input until none is whole.
unfoldable pub serve : ℕ → World → Bytes → RespBuf → Served
serve zero w buf out = waiting w buf out
serve (suc rounds) w buf out = elim (resp_parse buf) [
  | incomplete ↦ waiting w buf out
  | error m ↦ record { world = w; rest = buf; out = resp_reply_error out m; closing = true }
  | ok argv n ↦ serve rounds (dispatch w argv out).0 (drop n buf) (dispatch w argv out).1
]

pub process_loop-serve :
    (rounds : ℕ) (w : World) (c : Conn)
    → c.closing ≡ false
    → seen (process_loop rounds w c) ≡ serve rounds w c.input.buf c.out
unfolding process_loop serve dyn_buf_consume
process_loop-serve zero w c open_ = rw open_ refl
process_loop-serve (suc rounds) w c open_ = elim (Bool-cases (length c.input.buf == 0)) [
  | inl nothing ↦
      let waits = empty_waits c.input.buf (ground (arith, nothing)) in
      rw (nothing, waits, process_loop, serve) (rw open_ refl)
  | inr something ↦ elim (Parsed-cases (resp_parse c.input.buf)) [
    | inl short ↦ rw (something, open_, short, process_loop, serve) (rw open_ refl)
    | inr (inl (m, bad)) ↦ rw (something, open_, bad, process_loop, serve) refl
    | inr (inr (argv, n, good)) ↦
        rw (something, open_, good, process_loop, serve) (process_loop-serve rounds _ _ open_)
  ]
]

-- As many rounds as there are bytes are enough.
pub serve_enough :
    (n m : ℕ) (w : World) (buf : Bytes) (out : RespBuf)
    → length buf ≤ n
    → length buf ≤ m
    → serve n w buf out ≡ serve m w buf out
unfolding serve
serve_enough zero zero w buf out h1 h2 = refl
serve_enough zero (suc m) w buf out h1 h2 = let e = empty_waits buf h1 in rw (e, serve) refl
serve_enough (suc n) zero w buf out h1 h2 = let e = empty_waits buf h2 in rw (e, serve) refl
serve_enough (suc n) (suc m) w buf out h1 h2 = elim (Parsed-cases (resp_parse buf)) [
  | inl short ↦ rw (short, serve) refl
  | inr (inl (e, bad)) ↦ rw (bad, serve) refl
  | inr (inr (argv, k, good)) ↦
      let (some_bytes, inside) = resp_parse-bounds buf argv k good in
      let shorter = length-drop k buf in
      rw (good, serve)
        (serve_enough n m (dispatch w argv out).0 (drop k buf) (dispatch w argv out).1 (omega arith)
          (omega arith))
]

pub closed : ¬ (true ≡ false)
closed e = cc

-- The first command of the input is served first.
serve_first :
    (m : ℕ) (w : World) (buf : Bytes) (out : RespBuf) (argv : List Bytes) (k : ℕ)
    → resp_parse buf ≡ ok argv k
    → (rest : Bytes) → drop k buf ≡ rest
    → length rest < length buf
    → length buf ≤ m
    → serve m (dispatch w argv out).0 rest (dispatch w argv out).1 ≡ serve m w buf out
unfolding serve
serve_first zero w buf out argv k good rest e less enough = absurd (omega arith)
serve_first (suc m) w buf out argv k good rest e less enough =
    rw (good, e, serve)
      (serve_enough (suc m) m (dispatch w argv out).0 rest (dispatch w argv out).1 (omega arith)
        (omega arith))

-- What arrives later can be added to what the first part left over.
pub serve_more :
    (n m : ℕ) (w : World) (buf more : Bytes) (out : RespBuf) (s : Served)
    → serve n w buf out ≡ s
    → s.closing ≡ false
    → length buf ≤ n
    → length (buf ++ more) ≤ m
    → serve m s.world (s.rest ++ more) s.out ≡ serve m w (buf ++ more) out
unfolding serve
serve_more zero m w buf more out s h open_ le enough = rw (← h) refl
serve_more (suc n) m w buf more out s h open_ le enough = elim (Parsed-cases (resp_parse buf)) [
  | inl short ↦ rw (← rw (short, serve) at h) refl
  | inr (inl (e, bad)) ↦
      absurd (closed (ap (λ (t : Served). t.closing) (rw (bad, serve) at h) ∙ open_))
  | inr (inr (argv, k, good)) ↦
      let (some_bytes, inside) = resp_parse-bounds buf argv k good in
      let more' = resp_parse_more buf more argv k good in
      let shorter = length-drop k buf in
      let longer = length-append buf more in
      let left = length-append (drop k buf) more in
      let rest =
        serve_more n m (dispatch w argv out).0 (drop k buf) more (dispatch w argv out).1 s
          (rw (good, serve) at h) open_ (omega arith) (omega arith) in
      rest
      ∙ serve_first m w (buf ++ more) out argv k more' (drop k buf ++ more)
          (drop-append k buf more inside) (omega arith) (omega arith)
]

-- Input that arrives in two parts is served as if it had arrived at once, if the connection is not
-- about to close before and after the first part: the same replies, the same store, and the same
-- bytes left over.
pub conn_process_input-parts :
    (w w' : World) (c c' : Conn) (a b : Bytes)
    → c.closing ≡ false
    → conn_process_input w (conn_in_append c a) ≡ (w', c')
    → c'.closing ≡ false
    → seen (conn_process_input w' (conn_in_append c' b))
      ≡ seen (conn_process_input w (conn_in_append c (a ++ b)))
unfolding conn_process_input dyn_buf_append
conn_process_input-parts w w' c c' a b open_ h still =
    let first = c.input.buf ++ a in
    let served : serve (length first) w first c.out ≡ seen (w', c') =
      sym (process_loop-serve (length first) w (conn_in_append c a) open_) ∙ ap seen h in
    let n = length (c'.input.buf ++ b) + length (first ++ b) in
    let joined = append_assoc c.input.buf a b in
    process_loop-serve (length (c'.input.buf ++ b)) w' (conn_in_append c' b) still
    ∙ serve_enough (length (c'.input.buf ++ b)) n w' (c'.input.buf ++ b) c'.out (omega arith)
        (omega arith)
    ∙ serve_more (length first) n w first b c.out (seen (w', c')) served still (omega arith)
        (omega arith)
    ∙ serve_enough n (length (first ++ b)) w (first ++ b) c.out (omega arith) (omega arith)
    ∙ ap (λ t. serve (length t) w t c.out) joined
    ∙ sym
        (process_loop-serve (length (c.input.buf ++ (a ++ b))) w (conn_in_append c (a ++ b)) open_)
