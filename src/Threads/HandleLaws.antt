-- ===== src/Threads/HandleLaws.antt =====
-- src/server_threaded.c: what `handle_conn` leaves of a client's input and of the replies.
use Prim.Native.Nat.{min}
use mathlib.Core.List.{append_assoc}
use redis_server_c.Prelude.{
  ℕ, zero, suc, ◌+◌, ◌≤◌, ◌≡◌, ◌⊎◌, inl, inr, refl, ap, ◌∙◌, true, false, ◌||◌, List, [], ◌∷◌, ◌++◌,
  arith, Bytes, length, take, drop, length-append, length-drop, take-append-drop, ltb, ◌==◌,
  Bool-cases,
}
use redis_server_c.Resp.Parse.{incomplete, resp_parse}
use redis_server_c.Resp.Bounds.{Parsed-cases, resp_parse-bounds}
use redis_server_c.Resp.Reply.{resp_buf_init}
use redis_server_c.Input.{
  IsDynBuf, dyn_buf_append, dyn_buf_consume, dyn_buf_append-IsDynBuf, dyn_buf_consume-IsDynBuf,
}
use redis_server_c.Epoll.Process.{empty_waits}
use redis_server_c.Epoll.Output.{WriteResult, wrote, write_eintr, write_eagain, write_failed}
use redis_server_c.Epoll.Client.{ReadResult, got, read_eintr, read_eagain, read_failed}
use redis_server_c.Threads.Handle.{
  max_input_buf, Written, write_all, Shared, Handling, flush_out, ran, serve_loop, received,
  conn_loop, handle_conn,
}

-- All the bytes have been sent in order, or a first part of them, and more are left.
pub data Sent (bytes : Bytes) : Written → Type 0 where
  all_sent : {w : Written} → w.whole ≡ true → w.sent ≡ bytes → Sent bytes w
  cut_off :
      {w : Written} (rest : Bytes)
      → w.whole ≡ false
      → 1 ≤ length rest
      → w.sent ++ rest ≡ bytes
      → Sent bytes w

-- One call has taken the first `n` bytes.
taken-Sent :
    (n : ℕ) (bytes : Bytes) (w : Written)
    → Sent (drop n bytes) w
    → Sent bytes (record w { sent = take n bytes ++ w.sent })
taken-Sent n bytes w (all_sent whole e) =
    all_sent whole (ap (λ t. take n bytes ++ t) e ∙ take-append-drop n bytes)
taken-Sent n bytes w (cut_off rest part more e) = cut_off rest part more (
    append_assoc (take n bytes) w.sent rest
    ∙ ap (λ t. take n bytes ++ t) e
    ∙ take-append-drop n bytes)

-- `write_all` returns 0 when it has sent all the bytes in order, however write() splits the work, and
-- -1 when it has sent a first part of them and more are left.
pub write_all-Sent : (rs : List WriteResult) (bytes : Bytes) → Sent bytes (write_all rs bytes)
unfolding write_all
write_all-Sent rs [] = all_sent refl refl
write_all-Sent [] (b ∷ bytes) = cut_off (b ∷ bytes) refl (omega arith) refl
write_all-Sent (write_eintr ∷ rs) (b ∷ bytes) = write_all-Sent rs (b ∷ bytes)
write_all-Sent (write_eagain ∷ rs) (b ∷ bytes) = cut_off (b ∷ bytes) refl (omega arith) refl
write_all-Sent (write_failed ∷ rs) (b ∷ bytes) = cut_off (b ∷ bytes) refl (omega arith) refl
write_all-Sent (wrote room ∷ rs) (b ∷ bytes) =
    let n = min room (length (b ∷ bytes)) in
    elim (Bool-cases (n == 0)) [
      | inl nothing ↦ rw (nothing, write_all) (cut_off (b ∷ bytes) refl (omega arith) refl)
      | inr something ↦
          rw (something, write_all)
            (taken-Sent n (b ∷ bytes) _ (write_all-Sent rs (drop n (b ∷ bytes))))
    ]

-- The input is within its bounds, no reply waits, and no whole command does unless the connection
-- has failed.
pub record Answered (h : Handling) : Type 0 where
  pub input : IsDynBuf h.input
  pub capped : length h.input.buf ≤ max_input_buf
  pub replied : h.out.data_ ≡ []
  pub drained : (h.fatal ≡ true) ⊎ (resp_parse h.input.buf ≡ incomplete)

-- The same but for the commands still to be run.
record Receiving (h : Handling) : Type 0 where
  input : IsDynBuf h.input
  capped : length h.input.buf ≤ max_input_buf
  replied : h.out.data_ ≡ []

stopped :
    (h : Handling)
    → ((length h.input.buf == 0) || h.fatal) ≡ true
    → (h.fatal ≡ true) ⊎ (resp_parse h.input.buf ≡ incomplete)
stopped h stop = elim (Bool-cases h.fatal) [
  | inl fails ↦ inl fails
  | inr goes ↦ inr (empty_waits h.input.buf (ground (arith, stop, goes)))
]

serve_loop-Answered :
    (rounds : ℕ) (h : Handling)
    → Receiving h
    → length h.input.buf ≤ rounds
    → Answered (serve_loop rounds h)
unfolding serve_loop flush_out dyn_buf_consume
serve_loop-Answered zero h v enough = record {
  input = v.input;
  capped = v.capped;
  replied = v.replied;
  drained = inr (empty_waits h.input.buf enough);
}
serve_loop-Answered (suc rounds) h v enough =
    elim (Bool-cases ((length h.input.buf == 0) || h.fatal)) [
      | inl stop ↦
          rw (stop, serve_loop)
            (record {
              input = v.input;
              capped = v.capped;
              replied = v.replied;
              drained = stopped h stop;
            })
      | inr go ↦ elim (Parsed-cases (resp_parse h.input.buf)) [
        | inl short ↦
            rw (go, short, serve_loop)
              (record {
                input = v.input;
                capped = v.capped;
                replied = v.replied;
                drained = inr short;
              })
        | inr (inl (m, bad)) ↦
            rw (go, bad, serve_loop)
              (record { input = v.input; capped = v.capped; replied = refl; drained = inl refl })
        | inr (inr (argv, n, good)) ↦
            let (some_bytes, inside) = resp_parse-bounds h.input.buf argv n good in
            let shorter = length-drop n h.input.buf in
            let below = v.capped in
            rw (go, good, serve_loop)
              (serve_loop-Answered rounds (ran h argv n)
                (record {
                  input = dyn_buf_consume-IsDynBuf h.input n v.input;
                  capped = omega arith;
                  replied = refl;
                })
                (omega arith))
      ]
    ]

conn_loop-Answered : (rs : List ReadResult) (h : Handling) → Answered h → Answered (conn_loop rs h)
unfolding conn_loop dyn_buf_append flush_out
conn_loop-Answered [] h v = v
conn_loop-Answered (read_eintr ∷ rs) h v = conn_loop-Answered rs h v
conn_loop-Answered (read_eagain ∷ rs) h v = v
conn_loop-Answered (read_failed ∷ rs) h v = v
conn_loop-Answered (got bytes ∷ rs) h v = elim (Bool-cases (length bytes == 0)) [
  | inl end ↦ rw (end, conn_loop) v
  | inr more ↦
      let size = length h.input.buf + length bytes in
      elim (Bool-cases (ltb max_input_buf size)) [
        | inl over ↦
            rw (more, over, conn_loop)
              (record { input = v.input; capped = v.capped; replied = refl; drained = inl refl })
        | inr below ↦
            let le : size ≤ max_input_buf = ground (arith, below) in
            let longer = length-append h.input.buf bytes in
            let h' = serve_loop size (received h bytes) in
            let v' : Answered h' =
              serve_loop-Answered size (received h bytes)
                (record {
                  input = dyn_buf_append-IsDynBuf h.input bytes v.input (omega arith);
                  capped = omega arith;
                  replied = v.replied;
                })
                (omega arith) in
            elim (Bool-cases h'.fatal) [
              | inl fails ↦ rw (more, below, conn_loop) (rw fails v')
              | inr goes ↦ rw (more, below, conn_loop) (rw goes (conn_loop-Answered rs h' v'))
            ]
      ]
]

-- Whatever read() and write() return and whatever the other workers do, `handle_conn` ends with its
-- input within the bounds, no reply held back, and no whole command unserved unless the connection
-- has failed.
pub handle_conn-Answered :
    (reads : List ReadResult) (writes : List WriteResult) (sh : Shared)
    → Answered (handle_conn reads writes sh)
unfolding handle_conn resp_buf_init resp_parse
handle_conn-Answered reads writes sh = conn_loop-Answered reads _ (record {
  input = record { within = omega arith; small = omega arith };
  capped = omega arith;
  replied = refl;
  drained = inr refl;
})
