-- ===== src/Threads/Alone.antt =====
-- src/server_threaded.c: the turns of one worker, against the whole of `handle_conn`.
use redis_server_c.Prelude.{
  ℕ, zero, suc, ◌+◌, ◌≤◌, ◌≡◌, inl, inr, refl, ap, ◌∙◌, arith, true, false, ◌||◌, List, [], ◌∷◌,
  Bytes, length, length-append, length-drop, ltb, ◌==◌, Bool-cases, if◌then◌else◌,
}
use redis_server_c.Resp.Parse.{resp_parse}
use redis_server_c.Resp.Bounds.{Parsed-cases, resp_parse-bounds}
use redis_server_c.Input.{dyn_buf_append, dyn_buf_consume}
use redis_server_c.Epoll.Client.{ReadResult, got, read_eintr, read_eagain, read_failed}
use redis_server_c.Threads.Handle.{
  max_input_buf, Shared, Handling, flush_out, ran, serve_loop, received, conn_loop,
}
use redis_server_c.Threads.Workers.{
  reading, serving, ended, Worker, at_place, read_turn, serve_turn, turn_at, alone,
}

abbrev pub next : Worker → Worker
next k = turn_at k.place k.reads k.handling

abbrev pub steps : ℕ → Worker → Worker
steps zero k = k
steps (suc n) k = steps n (next k)

-- No other worker is at work.
abbrev pub Quiet : Handling → Type 0
Quiet h = h.shared ≡ alone h.shared.world

pub ran-Quiet : (h : Handling) (argv : List Bytes) (n : ℕ) → Quiet h → Quiet (ran h argv n)
unfolding flush_out
ran-Quiet h argv n e =
    let w = (ran h argv n).shared.world in
    ap (λ (sh : Shared). record { world = w; others = λ i. sh.others (suc i) }) e

-- So many steps lead from one worker to the other, and no other one is at work then.
pub record Leads (k k' : Worker) : Type 0 where
  pub count : ℕ
  pub there : steps count k ≡ k'
  pub quiet : Quiet k'.handling

behind : (n : ℕ) (k : Worker) (m : ℕ) → (j : ℕ) × (steps j k ≡ steps m (steps n k))
behind zero k m = (m, refl)
behind (suc n) k m = let (j, e) = behind n (next k) m in (suc j, e)

Leads-join : (k k1 k2 : Worker) → Leads k k1 → Leads k1 k2 → Leads k k2
Leads-join k k1 k2 x y =
    let (j, e) = behind x.count k y.count in
    record { count = j; there = e ∙ ap (steps y.count) x.there ∙ y.there; quiet = y.quiet }

one_step : (k k' : Worker) → next k ≡ k' → Quiet k'.handling → Leads k k'
one_step k k' e quiet = record { count = 1; there = e; quiet = quiet }

-- Where the inner loop leaves a worker.
abbrev served : List ReadResult → Handling → Worker
served rs h = at_place (if h.fatal then ended else reading) rs h

serve_loop-Leads :
    (rounds : ℕ) (rs : List ReadResult) (h : Handling)
    → Quiet h
    → length h.input.buf ≤ rounds
    → Leads (at_place serving rs h) (served rs (serve_loop rounds h))
unfolding serve_loop serve_turn dyn_buf_consume flush_out
serve_loop-Leads zero rs h quiet enough =
    let stop : ((length h.input.buf == 0) || h.fatal) ≡ true = ground (arith, enough) in
    one_step (at_place serving rs h) (served rs h) (rw (stop, serve_turn) refl) quiet
serve_loop-Leads (suc rounds) rs h quiet enough =
    let k = at_place serving rs h in
    elim (Bool-cases ((length h.input.buf == 0) || h.fatal)) [
      | inl stop ↦
          rw (stop, serve_loop) (one_step k (served rs h) (rw (stop, serve_turn) refl) quiet)
      | inr go ↦
          let goes : h.fatal ≡ false = ground (arith, go) in
          elim (Parsed-cases (resp_parse h.input.buf)) [
            | inl short ↦
                rw (go, short, serve_loop)
                  (one_step k (served rs h) (rw (go, short, serve_turn) (rw goes refl)) quiet)
            | inr (inl (m, bad)) ↦
                rw (go, bad, serve_loop) (one_step k _ (rw (go, bad, serve_turn) refl) quiet)
            | inr (inr (argv, n, good)) ↦
                let (some_bytes, inside) = resp_parse-bounds h.input.buf argv n good in
                let h1 = ran h argv n in
                rw (go, good, serve_loop)
                  (Leads-join k (at_place serving rs h1) _
                    (one_step k (at_place serving rs h1) (rw (go, good, serve_turn) refl)
                      (ran-Quiet h argv n quiet))
                    (serve_loop-Leads rounds rs h1 (ran-Quiet h argv n quiet)
                      (omega (arith, length-drop n h.input.buf))))
          ]
    ]

-- A worker behind its loops.
pub record Ends (k : Worker) (h : Handling) : Type 0 where
  pub left : List ReadResult
  pub leads : Leads k (at_place ended left h)

Ends-now :
    (k : Worker) (left : List ReadResult) (h : Handling)
    → next k ≡ at_place ended left h
    → Quiet h
    → Ends k h
Ends-now k left h e quiet = record {
  left = left;
  leads = one_step k (at_place ended left h) e quiet;
}

first-Leads : (k k1 : Worker) (h : Handling) → Leads k k1 → Ends k1 h → Ends k h
first-Leads k k1 h x y = record { left = y.left; leads = Leads-join k k1 _ x y.leads }

pub conn_loop-Ends :
    (rs : List ReadResult) (h : Handling) → Quiet h → Ends (at_place reading rs h) (conn_loop rs h)
unfolding conn_loop read_turn flush_out dyn_buf_append
conn_loop-Ends [] h quiet = Ends-now (at_place reading [] h) [] h refl quiet
conn_loop-Ends (read_eintr ∷ rs) h quiet =
    first-Leads (at_place reading (read_eintr ∷ rs) h) (at_place reading rs h) _
      (one_step (at_place reading (read_eintr ∷ rs) h) (at_place reading rs h) refl quiet)
      (conn_loop-Ends rs h quiet)
conn_loop-Ends (read_eagain ∷ rs) h quiet =
    Ends-now (at_place reading (read_eagain ∷ rs) h) rs h refl quiet
conn_loop-Ends (read_failed ∷ rs) h quiet =
    Ends-now (at_place reading (read_failed ∷ rs) h) rs h refl quiet
conn_loop-Ends (got bytes ∷ rs) h quiet =
    let k = at_place reading (got bytes ∷ rs) h in
    elim (Bool-cases (length bytes == 0)) [
      | inl end ↦ rw (end, conn_loop) (Ends-now k rs h (rw (end, read_turn) refl) quiet)
      | inr more ↦
          let size = length h.input.buf + length bytes in
          let h' = serve_loop size (received h bytes) in
          elim (Bool-cases (ltb max_input_buf size)) [
            | inl over ↦
                rw (more, over, conn_loop) (Ends-now k rs _ (rw (more, over, read_turn) refl) quiet)
            | inr below ↦
                let k1 = at_place serving rs (received h bytes) in
                let inner =
                  serve_loop-Leads size rs (received h bytes) quiet
                    (omega (arith, length-append h.input.buf bytes)) in
                let to_test =
                  Leads-join k k1 (served rs h')
                    (one_step k k1 (rw (more, below, read_turn) refl) quiet) inner in
                elim (Bool-cases h'.fatal) [
                  | inl fails ↦
                      rw (more, below, conn_loop)
                        (rw fails (record { left = rs; leads = rw fails at to_test }))
                  | inr goes ↦
                      rw (more, below, conn_loop)
                        (rw goes (
                          first-Leads k (at_place reading rs h') _ (rw goes at to_test)
                            (conn_loop-Ends rs h' inner.quiet)))
                ]
          ]
    ]
