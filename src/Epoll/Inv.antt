-- ===== src/Epoll/Inv.antt =====
-- src/server.c: what holds of every connection between two events.
use mathlib.Core.List.{append_assoc, append-nil}
use redis_server_c.Prelude.{
  ℕ, zero, suc, ◌+◌, ◌≤◌, ◌≡◌, inl, inr, refl, sym, ap, ◌∙◌, ◌||◌, List, [], ◌∷◌, ◌++◌, Option,
  none, some, arith, Bytes, codes, length, length-append, length-drop, ltb, ◌==◌, Bool-cases,
}
use redis_server_c.Resp.Parse.{resp_parse}
use redis_server_c.Resp.Bounds.{Parsed-cases}
use redis_server_c.Resp.Buffer.{resp_buf_append-data_}
use redis_server_c.Resp.Reply.{RespBuf, resp_buf_init, resp_reply_error, crlf}
use redis_server_c.Cmd.Dispatch.{cmd_dispatch}
use redis_server_c.Cmd.OneReply.{cmd_dispatch-Replied}
use redis_server_c.Input.{
  IsDynBuf, dyn_buf_append, dyn_buf_consume, dyn_buf_append-IsDynBuf, dyn_buf_consume-IsDynBuf,
}
use redis_server_c.Epoll.Conn.{
  interest, Conn, World, dispatch, new_conn, conn_in_append, conn_in_consume, read_chunk,
  max_conn_input_buf,
}
use redis_server_c.Epoll.Process.{process_loop, conn_process_input}
use redis_server_c.Epoll.Client.{ReadResult, got, read_eintr, read_eagain, read_failed, read_loop}

-- The input lies in its allocation and below the cap, no more has been sent than there is, and
-- epoll_ctl() has last been asked for EPOLLOUT just when `want_write` says so.
pub record IsConn (c : Conn) : Type 0 where
  pub input : IsDynBuf c.input
  pub capped : length c.input.buf ≤ max_conn_input_buf
  pub sent : c.out_sent ≤ length c.out.data_
  pub asked : c.events ≡ interest c.want_write

pub new_conn-IsConn : (fd : ℕ) → IsConn (new_conn fd)
unfolding resp_buf_init
new_conn-IsConn fd = record {
  input = record { within = omega arith; small = omega arith };
  capped = omega arith;
  sent = omega arith;
  asked = refl;
}

-- The buffer has grown at its end.
abbrev Longer : RespBuf → RespBuf → Type 0
Longer out out' = (tail : Bytes) × (out'.data_ ≡ out.data_ ++ tail)

resp_reply_error-Longer : (out : RespBuf) (m : Bytes) → Longer out (resp_reply_error out m)
unfolding resp_reply_error
resp_reply_error-Longer out m = (
  codes "-" ++ (m ++ crlf),
  rw (resp_buf_append-data_, resp_buf_append-data_, resp_buf_append-data_)
      (append_assoc (out.data_ ++ codes "-") m crlf
        ∙ append_assoc out.data_ (codes "-") (m ++ crlf)),
)

dispatch-Longer :
    (w : World) (argv : List Bytes) (out : RespBuf) → Longer out (dispatch w argv out).1
dispatch-Longer w [] out = ([], unfold cmd_dispatch in sym (append-nil out.data_))
dispatch-Longer w (name ∷ args) out =
    let r = cmd_dispatch-Replied (w.answers 0) w.server (name ∷ args) out (omega arith) in
    (r.reply, r.appended)

grows_le : (out out' : RespBuf) → Longer out out' → length out.data_ ≤ length out'.data_
grows_le out out' (tail, e) = omega (arith, ap length e, length-append out.data_ tail)

process_loop-IsConn :
    (rounds : ℕ) (w : World) (c : Conn)
    → IsConn c
    → IsConn (process_loop rounds w c).1 × ((process_loop rounds w c).1.fd ≡ c.fd)
unfolding process_loop dyn_buf_consume
process_loop-IsConn zero w c v = (v, refl)
process_loop-IsConn (suc rounds) w c v =
    elim (Bool-cases ((length c.input.buf == 0) || c.closing)) [
      | inl stop ↦ rw (stop, process_loop) (v, refl)
      | inr go ↦ elim (Parsed-cases (resp_parse c.input.buf)) [
        | inl short ↦ rw (go, short, process_loop) (v, refl)
        | inr (inl (m, bad)) ↦
            let out' = resp_reply_error c.out m in
            let more = grows_le c.out out' (resp_reply_error-Longer c.out m) in
            let held = v.sent in
            rw (go, bad, process_loop)
              (
                record { input = v.input; capped = v.capped; sent = omega arith; asked = v.asked },
                refl,
              )
        | inr (inr (argv, n, good)) ↦
            let out' = (dispatch w argv c.out).1 in
            let more = grows_le c.out out' (dispatch-Longer w argv c.out) in
            let held = v.sent in
            let below = v.capped in
            rw (go, good, process_loop)
              (process_loop-IsConn rounds (dispatch w argv c.out).0
                (conn_in_consume (record c { out = out' }) n)
                (record {
                  input = dyn_buf_consume-IsDynBuf c.input n v.input;
                  capped = omega (arith, length-drop n c.input.buf);
                  sent = omega arith;
                  asked = v.asked;
                }))
      ]
    ]

pub conn_process_input-IsConn :
    (w : World) (c : Conn)
    → IsConn c
    → IsConn (conn_process_input w c).1 × ((conn_process_input w c).1.fd ≡ c.fd)
unfolding conn_process_input
conn_process_input-IsConn w c v = process_loop-IsConn (length c.input.buf) w c v

-- A connection that has not been closed is valid.
pub data Valid (fd : ℕ) : Option Conn → Type 0 where
  closed : Valid fd none
  open_ : {c : Conn} → c.fd ≡ fd → IsConn c → Valid fd (some c)

-- A read that fills the buffer takes the loop another time, so the input may reach the cap; one
-- byte above it ends the connection.
pub read_loop-Valid : (rs : List ReadResult) (c : Conn) → IsConn c → Valid c.fd (read_loop rs c)
unfolding read_loop
read_loop-Valid [] c v = open_ refl v
read_loop-Valid (read_eintr ∷ rs) c v = read_loop-Valid rs c v
read_loop-Valid (read_eagain ∷ rs) c v = open_ refl v
read_loop-Valid (read_failed ∷ rs) c v = closed
read_loop-Valid (got bytes ∷ rs) c v = elim (Bool-cases (length bytes == 0)) [
  | inl end ↦ rw (end, read_loop) closed
  | inr more ↦ elim (Bool-cases (ltb max_conn_input_buf (length c.input.buf + length bytes))) [
    | inl over ↦
        let m = codes "ERR input buffer limit exceeded" in
        let longer = grows_le c.out (resp_reply_error c.out m) (resp_reply_error-Longer c.out m) in
        let held = v.sent in
        rw (more, over, read_loop)
          (open_ refl
            (record { input = v.input; capped = v.capped; sent = omega arith; asked = v.asked }))
    | inr below ↦
        let le : length c.input.buf + length bytes ≤ max_conn_input_buf = ground (arith, below) in
        let v' : IsConn (conn_in_append c bytes) = record {
          input = dyn_buf_append-IsDynBuf c.input bytes v.input (omega arith);
          capped = unfold dyn_buf_append in omega (arith, length-append c.input.buf bytes);
          sent = v.sent;
          asked = v.asked;
        } in
        elim (Bool-cases (ltb (length bytes) read_chunk)) [
          | inl part ↦ rw (more, below, part, read_loop) (open_ refl v')
          | inr full ↦
              rw (more, below, full, read_loop) (read_loop-Valid rs (conn_in_append c bytes) v')
        ]
  ]
]
