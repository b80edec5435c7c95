-- ===== src/Epoll/Spoken.antt =====
-- src/server.c: `handle_client_readable` and `conn_service_output`, as stretches of a client's talk.
use mathlib.Core.List.{append-nil}
use redis_server_c.Prelude.{
  ℕ, ◌+◌, ◌≤◌, ◌≡◌, inl, inr, refl, sym, ap, ap₂, drop, if◌then◌else◌, ◌∙◌, Bool, true, false, List,
  [], ◌∷◌, ◌++◌, Option, none, some, Bytes, length, ltb, ◌==◌, Bool-cases,
}
use redis_server_c.Resp.Reply.{RespBuf}
use redis_server_c.Input.{dyn_buf_append}
use redis_server_c.Epoll.Conn.{Conn, World, conn_in_append, read_chunk, max_conn_input_buf}
use redis_server_c.Epoll.Client.{
  ReadResult, got, read_eintr, read_eagain, read_failed, read_loop, Handled, processed, after_read,
  handle_client_readable,
}
use redis_server_c.Epoll.Output.{
  WriteResult, FlushResult, conn_flush_output, conn_service_output, conn_arm_write_interest,
  conn_arm_write_interest-Rearmed,
}
use redis_server_c.Epoll.Delivery.{Delivered, pending, conn_flush_output-Delivered}
use redis_server_c.Epoll.Inv.{IsConn, Valid, open_, read_loop-Valid}
use redis_server_c.Epoll.Settled.{Flushed-cases, processed-IsConn}
use redis_server_c.Epoll.History.{Log, replay, own}
use redis_server_c.Epoll.Talk.{Talk, quiet-Talk, Talk-join}
use redis_server_c.Epoll.Turns.{error-Talk, processed-Ran}

-- The bytes of read() that come into the input buffer.
abbrev pub taken : List ReadResult → Conn → Bytes
taken [] c = []
taken (read_eintr ∷ rs) c = taken rs c
taken (read_eagain ∷ rs) c = []
taken (read_failed ∷ rs) c = []
taken (got bytes ∷ rs) c = elim (length bytes == 0) [
  | true ↦ []
  | false ↦ elim (ltb max_conn_input_buf (length c.input.buf + length bytes)) [
    | true ↦ []
    | false ↦ elim (ltb (length bytes) read_chunk) [
      | true ↦ bytes
      | false ↦ bytes ++ taken rs (conn_in_append c bytes)
    ]
  ]
]

-- A stretch that ends with the connection, unless it is closed.
abbrev pub TalkTo : ℕ → World → Log → Bytes → Bytes → Conn → Option Conn → Type 0
TalkTo fd w log heard said c none = Unit
TalkTo fd w log heard said c (some c') = Talk fd w log heard said c c'

append-Talk :
    (fd : ℕ) (w : World) (c : Conn) (bytes : Bytes)
    → Talk fd w [] bytes [] c (conn_in_append c bytes)
unfolding dyn_buf_append
append-Talk fd w c bytes = record {
  rest = c.input.buf ++ bytes;
  tail = [];
  closes = λ h. (h, refl);
  splits = λ h. refl;
  left = λ h. (refl, refl);
  in_order = sym (append-nil (pending c));
}

append_then :
    (fd : ℕ) (w : World) (c : Conn) (bytes more : Bytes) (o : Option Conn)
    → TalkTo fd w [] more [] (conn_in_append c bytes) o
    → TalkTo fd w [] (bytes ++ more) [] c o
append_then fd w c bytes more none t = tt
append_then fd w c bytes more (some c') t =
    Talk-join fd w [] [] bytes more [] [] c (conn_in_append c bytes) c' (append-Talk fd w c bytes) t

read_loop-TalkTo :
    (fd : ℕ) (w : World) (rs : List ReadResult) (c : Conn)
    → c.out_sent ≤ length c.out.data_
    → TalkTo fd w [] (taken rs c) [] c (read_loop rs c)
unfolding read_loop
read_loop-TalkTo fd w [] c le = quiet-Talk fd w [] c refl
read_loop-TalkTo fd w (read_eintr ∷ rs) c le = read_loop-TalkTo fd w rs c le
read_loop-TalkTo fd w (read_eagain ∷ rs) c le = quiet-Talk fd w [] c refl
read_loop-TalkTo fd w (read_failed ∷ rs) c le = tt
read_loop-TalkTo fd w (got bytes ∷ rs) c le = elim (Bool-cases (length bytes == 0)) [
  | inl end ↦ rw (end, read_loop, taken) tt
  | inr more ↦ elim (Bool-cases (ltb max_conn_input_buf (length c.input.buf + length bytes))) [
    | inl over ↦ rw (more, over, read_loop, taken) (error-Talk fd w c _ le)
    | inr below ↦ elim (Bool-cases (ltb (length bytes) read_chunk)) [
      | inl part ↦ rw (more, below, part, read_loop, taken) (append-Talk fd w c bytes)
      | inr full ↦
          rw (more, below, full, read_loop, taken)
            (append_then fd w c bytes (taken rs (conn_in_append c bytes)) _
              (read_loop-TalkTo fd w rs (conn_in_append c bytes) le))
    ]
  ]
]

-- A flush changes nothing but what is pending.
flush-Talk :
    (fd : ℕ) (w : World) (c : Conn) (r : FlushResult) (want : Bool)
    → Delivered c r
    → Talk fd w [] [] r.sent c (conn_arm_write_interest r.conn want)
flush-Talk fd w c r want d =
    let a = conn_arm_write_interest-Rearmed r.conn want in
    let left : pending (conn_arm_write_interest r.conn want) ≡ pending r.conn =
      ap₂ drop a.same_out_sent (ap (λ (b : RespBuf). b.data_) a.same_out) in
    record {
      rest = c.input.buf;
      tail = [];
      closes = λ h. (a.same_closing ∙ d.same_closing ∙ h, refl);
      splits = λ h. append-nil c.input.buf;
      left = λ h. (ap (λ t. t.buf) (a.same_input ∙ d.same_input), refl);
      in_order = ap (λ t. r.sent ++ t) left ∙ d.in_order ∙ sym (append-nil (pending c));
    }

still_open :
    (fd : ℕ) (w : World) (said : Bytes) (c : Conn) (closing : Bool) (o : Option Conn)
    → closing ≡ false
    → TalkTo fd w [] [] said c o
    → TalkTo fd w [] [] said c (if closing then none else o)
still_open fd w said c closing o stays t = rw stays t

pub service-TalkTo :
    (fd : ℕ) (w : World) (ws : List WriteResult) (c : Conn)
    → c.out_sent ≤ length c.out.data_
    → TalkTo fd w [] [] (conn_service_output ws c).1 c (conn_service_output ws c).0
unfolding conn_service_output
service-TalkTo fd w ws c le =
    let r = conn_flush_output ws c in
    let d = conn_flush_output-Delivered c ws le in
    elim (Flushed-cases r.status) [
      | inl lost ↦ rw (lost, conn_service_output) tt
      | inr (inl left) ↦ rw (left, conn_service_output) (flush-Talk fd w c r true d)
      | inr (inr done) ↦ elim (Bool-cases r.conn.closing) [
        | inl closes ↦ rw (done, closes, conn_service_output) tt
        | inr stays ↦
            let t = flush-Talk fd w c r false d in
            rw (done, conn_service_output) (still_open fd w r.sent c r.conn.closing _ stays t)
      ]
    ]

-- What read() has brought, the commands that have been run, and what write() has taken.
then_run :
    (fd : ℕ) (w : World) (a : Log) (heard : Bytes) (c c1 c2 : Conn)
    → Talk fd w [] heard [] c c1
    → Talk fd w a [] [] c1 c2
    → Talk fd w a heard [] c c2
then_run fd w a heard c c1 c2 x y =
    let t = Talk-join fd w [] a heard [] [] [] c c1 c2 x y in rw (append-nil heard) at t

then_sent :
    (fd : ℕ) (w : World) (a : Log) (heard sent : Bytes) (c c1 : Conn) (o : Option Conn)
    → Talk fd w a heard [] c c1
    → TalkTo fd (replay w a) [] [] sent c1 o
    → TalkTo fd w a heard sent c o
then_sent fd w a heard sent c c1 none x y = tt
then_sent fd w a heard sent c c1 (some c2) x y =
    let t = Talk-join fd w a [] heard [] [] sent c c1 c2 x y in
    rw (append-nil heard, append-nil a) at t

-- The commands of an event, and the talk that it is.
pub record Spoken (fd : ℕ) (w : World) (c : Conn) (heard : Bytes) (h : Handled) : Type 0 where
  pub commands : List (List Bytes)
  pub world_after : h.world ≡ replay w (own fd commands)
  pub talk : TalkTo fd w (own fd commands) heard h.sent c h.conn

valid_conn : {fd : ℕ} {c : Conn} → Valid fd (some c) → IsConn c
valid_conn (open_ same v) = v

after_read-Spoken :
    (fd fd' : ℕ) (ws : List WriteResult) (w : World) (c : Conn) (heard : Bytes) (o : Option Conn)
    → Valid fd' o
    → TalkTo fd w [] heard [] c o
    → Spoken fd w c heard (after_read ws w o)
after_read-Spoken fd fd' ws w c heard none v t = record {
  commands = [];
  world_after = refl;
  talk = tt;
}
after_read-Spoken fd fd' ws w c heard (some c1) v t =
    let valid = valid_conn v in
    let run = processed-Ran fd w c1 valid.sent in
    let c2 = (processed w c1).1 in
    let within = (processed-IsConn w c1 valid).0.sent in
    record {
      commands = run.commands;
      world_after = run.world_after;
      talk =
          then_sent fd w (own fd run.commands) heard (conn_service_output ws c2).1 c c2 _
            (then_run fd w (own fd run.commands) heard c c1 c2 t run.talk)
            (service-TalkTo fd _ ws c2 within);
    }

pub handle_client_readable-Spoken :
    (fd : ℕ) (rs : List ReadResult) (ws : List WriteResult) (w : World) (c : Conn)
    → IsConn c
    → Spoken fd w c (taken rs c) (handle_client_readable rs ws w c)
unfolding handle_client_readable
handle_client_readable-Spoken fd rs ws w c v =
    after_read-Spoken fd c.fd ws w c (taken rs c) (read_loop rs c) (read_loop-Valid rs c v)
      (read_loop-TalkTo fd w rs c v.sent)
