-- ===== src/Threads/OneWorker.antt =====
-- src/server_threaded.c: a worker that has all its turns, against `handle_conn`.
use redis_server_c.Prelude.{
  ℕ, zero, suc, ◌+◌, ◌≡◌, inl, inr, refl, sym, ap, ◌∙◌, arith, true, ◌||◌, List, [], ◌∷◌, length,
  replicate, ltb, ◌==◌, Bool-cases,
}
use redis_server_c.Resp.Parse.{resp_parse}
use redis_server_c.Resp.Bounds.{Parsed-cases}
use redis_server_c.Epoll.Conn.{World}
use redis_server_c.Epoll.Output.{WriteResult}
use redis_server_c.Epoll.Client.{ReadResult, got, read_eintr, read_eagain, read_failed}
use redis_server_c.Threads.Handle.{max_input_buf, Shared, Handling, flush_out, handle_conn}
use redis_server_c.Threads.Interleaved.{begun}
use redis_server_c.Threads.Workers.{
  Place, reading, serving, ended, Worker, at_place, read_turn, serve_turn, turn_at, alone, finds,
  System, turn_of, on_turn, turns, all_begun,
}
use redis_server_c.Threads.Alone.{next, steps, Quiet, ran-Quiet, conn_loop-Ends}

read_turn-Quiet : (rs : List ReadResult) (h : Handling) → Quiet h → Quiet (read_turn rs h).handling
unfolding read_turn flush_out
read_turn-Quiet [] h quiet = quiet
read_turn-Quiet (read_eintr ∷ rs) h quiet = quiet
read_turn-Quiet (read_eagain ∷ rs) h quiet = quiet
read_turn-Quiet (read_failed ∷ rs) h quiet = quiet
read_turn-Quiet (got bytes ∷ rs) h quiet = elim (Bool-cases (length bytes == 0)) [
  | inl end ↦ rw (end, read_turn) quiet
  | inr more ↦ elim (Bool-cases (ltb max_input_buf (length h.input.buf + length bytes))) [
    | inl over ↦ rw (more, over, read_turn) quiet
    | inr below ↦ rw (more, below, read_turn) quiet
  ]
]

turn_at-Quiet :
    (place : Place) (rs : List ReadResult) (h : Handling)
    → Quiet h
    → Quiet (turn_at place rs h).handling
unfolding serve_turn flush_out
turn_at-Quiet reading rs h quiet = read_turn-Quiet rs h quiet
turn_at-Quiet ended rs h quiet = quiet
turn_at-Quiet serving rs h quiet = elim (Bool-cases ((length h.input.buf == 0) || h.fatal)) [
  | inl stop ↦ rw (stop, serve_turn) quiet
  | inr go ↦ elim (Parsed-cases (resp_parse h.input.buf)) [
    | inl short ↦ rw (go, short, serve_turn) quiet
    | inr (inl (m, bad)) ↦ rw (go, bad, serve_turn) quiet
    | inr (inr (argv, n, good)) ↦ rw (go, good, serve_turn) (ran-Quiet h argv n quiet)
  ]
]

-- The turns of one worker are its steps.
turns-steps :
    (q n : ℕ) (s : System) (k : Worker)
    → s.workers q ≡ k
    → k.handling.shared ≡ alone s.world
    → (turns (replicate n q) s).workers q ≡ steps n k
unfolding turns on_turn
turns-steps q zero s k here quiet = here
turns-steps q (suc n) s k here quiet =
    let self : (q == q) ≡ true = ground arith in
    let found : finds s.world k.handling ≡ k.handling =
      ap (λ (sh : Shared). record (k.handling) { shared = sh }) (sym quiet) in
    let turn : turn_of s q ≡ next k =
      ap (λ (j : Worker). turn_at j.place j.reads (finds s.world j.handling)) here
      ∙ ap (turn_at k.place k.reads) found in
    let alike : Quiet k.handling = quiet ∙ ap (λ (sh : Shared). alone sh.world) (sym quiet) in
    turns-steps q n (on_turn q s) (next k) (rw self turn) (
      turn_at-Quiet k.place k.reads k.handling alike
      ∙ ap (λ (j : Worker). alone j.handling.shared.world) (sym turn))

-- A worker that has its turns while no other has one comes to its end, and has done what
-- `handle_conn` does.
pub turns_of_one :
    (q : ℕ) (reads : ℕ → List ReadResult) (writes : ℕ → List WriteResult) (w : World)
    → (n : ℕ) × (let k = (turns (replicate n q) (all_begun reads writes w)).workers q in
        (k.place ≡ ended) × (k.handling ≡ handle_conn (reads q) (writes q) (alone w)))
unfolding handle_conn
turns_of_one q reads writes w =
    let h = begun (writes q) (alone w) in
    let e = conn_loop-Ends (reads q) h refl in
    let same =
      turns-steps q e.leads.count (all_begun reads writes w) (at_place reading (reads q) h) refl
        refl
      ∙ e.leads.there in
    (e.leads.count, (ap (λ (k : Worker). k.place) same, ap (λ (k : Worker). k.handling) same))
