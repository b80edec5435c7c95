-- ===== src/Epoll/Process.antt =====
-- src/server.c: `conn_process_input`.
use redis_server_c.Prelude.{
  ℕ, zero, suc, ◌≤◌, ◌≡◌, ◌⊎◌, inl, inr, refl, true, false, ◌||◌, [], ◌∷◌, arith, Bytes, length,
  length-drop, ◌==◌, Bool-cases,
}
use redis_server_c.Resp.Parse.{ok, incomplete, error, resp_parse}
use redis_server_c.Resp.Bounds.{Parsed-cases, resp_parse-bounds}
use redis_server_c.Resp.Reply.{resp_reply_error}
use redis_server_c.Input.{dyn_buf_consume}
use redis_server_c.Epoll.Conn.{Conn, World, dispatch, conn_in_consume}

-- The loop, at most `rounds` times.
unfoldable pub process_loop : ℕ → World → Conn → World × Conn
process_loop zero w c = (w, c)
process_loop (suc rounds) w c = elim ((length c.input.buf == 0) || c.closing) [
  | true ↦ (w, c)
  | false ↦ elim (resp_parse c.input.buf) [
    | incomplete ↦ (w, c)
    | error m ↦ (w, record c { out = resp_reply_error c.out m; closing = true })
    | ok argv consumed ↦
        process_loop rounds (dispatch w argv c.out).0
          (conn_in_consume (record c { out = (dispatch w argv c.out).1 }) consumed)
  ]
]

-- Every command consumes a byte at least.
unfoldable pub conn_process_input : World → Conn → World × Conn
unfolding process_loop
conn_process_input w c = process_loop (length c.input.buf) w c

-- The connection is about to close, or what is left of the input is no whole command.
abbrev pub Drained : Conn → Type 0
Drained c = (c.closing ≡ true) ⊎ (resp_parse c.input.buf ≡ incomplete)

pub empty_waits : (buf : Bytes) → length buf ≤ 0 → resp_parse buf ≡ incomplete
unfolding resp_parse
empty_waits [] h = refl
empty_waits (b ∷ buf) h = absurd (omega arith)

stopped-Drained : (c : Conn) → ((length c.input.buf == 0) || c.closing) ≡ true → Drained c
stopped-Drained c stop = elim (Bool-cases c.closing) [
  | inl closes ↦ inl closes
  | inr open_ ↦ inr (empty_waits c.input.buf (ground (arith, stop, open_)))
]

process_loop-Drained :
    (rounds : ℕ) (w : World) (c : Conn)
    → length c.input.buf ≤ rounds
    → Drained (process_loop rounds w c).1
unfolding process_loop dyn_buf_consume
process_loop-Drained zero w c h = inr (empty_waits c.input.buf h)
process_loop-Drained (suc rounds) w c h =
    elim (Bool-cases ((length c.input.buf == 0) || c.closing)) [
      | inl stop ↦ rw (stop, process_loop) (stopped-Drained c stop)
      | inr go ↦ elim (Parsed-cases (resp_parse c.input.buf)) [
        | inl short ↦ rw (go, short, process_loop) (inr short)
        | inr (inl (m, bad)) ↦ rw (go, bad, process_loop) (inl refl)
        | inr (inr (argv, n, good)) ↦
            let (some_bytes, inside) = resp_parse-bounds c.input.buf argv n good in
            rw (go, good, process_loop)
              (process_loop-Drained rounds (dispatch w argv c.out).0
                (conn_in_consume (record c { out = (dispatch w argv c.out).1 }) n)
                (omega (arith, length-drop n c.input.buf)))
      ]
    ]

-- `conn_process_input` ends by its own tests: no whole command is left in the buffer of a
-- connection that is not about to close.
pub conn_process_input-Drained : (w : World) (c : Conn) → Drained (conn_process_input w c).1
unfolding conn_process_input
conn_process_input-Drained w c = process_loop-Drained (length c.input.buf) w c (omega arith)
