-- ===== src/Epoll/Settled.antt =====
-- src/server.c: what an event leaves of its connection.

use redis_server_c.Prelude.{
  ℕ, ◌≤◌, ◌≡◌, ◌⊎◌, inl, inr, refl, sym, ap, ap₂, ◌∙◌, Bytes, drop, Bool, true, false, List, [],
  Option, none, some, arith, length, ltb, Bool-cases, if◌then◌else◌,
}
use redis_server_c.Resp.Parse.{resp_parse}
use redis_server_c.Resp.Reply.{RespBuf, resp_buf_init}
use redis_server_c.Cmd.Answers.{both}
use redis_server_c.Epoll.Conn.{Conn, interest, World, new_conn}
use redis_server_c.Epoll.Process.{conn_process_input, conn_process_input-Drained, Drained}
use redis_server_c.Epoll.Output.{
  WriteResult, Flushed, all_sent, some_left, broken, conn_flush_output, conn_service_output,
  conn_arm_write_interest, conn_arm_write_interest-Rearmed,
}
use redis_server_c.Epoll.Delivery.{pending, conn_flush_output-Delivered}
use redis_server_c.Epoll.Client.{
  ReadResult, read_loop, processed, after_read, handle_client_readable,
}
use redis_server_c.Epoll.Inv.{
  IsConn, Valid, closed, open_, new_conn-IsConn, conn_process_input-IsConn, read_loop-Valid,
}

-- A connection between two events: its buffers are valid, no whole command waits unless it is
-- about to close, `want_write` is set, and epoll_ctl() has last been asked for EPOLLOUT, just when
-- reply bytes are pending, and it waits to be closed only for these.
pub record IsIdle (c : Conn) : Type 0 where
  pub valid : IsConn c
  pub drained : Drained c
  pub armed : c.want_write ≡ ltb 0 (length (pending c))
  pub flushing : (c.closing ≡ false) ⊎ (1 ≤ length (pending c))

-- Closed, or idle under its file descriptor.
pub data Settled (fd : ℕ) : Option Conn → Type 0 where
  ended : Settled fd none
  idle : {c : Conn} → c.fd ≡ fd → IsIdle c → Settled fd (some c)

pub new_conn-IsIdle : (fd : ℕ) → IsIdle (new_conn fd)
unfolding resp_buf_init resp_parse
new_conn-IsIdle fd = record {
  valid = new_conn-IsConn fd;
  drained = inr refl;
  armed = refl;
  flushing = inl refl;
}

pub Flushed-cases : (r : Flushed) → (r ≡ broken) ⊎ ((r ≡ some_left) ⊎ (r ≡ all_sent))
Flushed-cases broken = inl refl
Flushed-cases some_left = inr (inl refl)
Flushed-cases all_sent = inr (inr refl)

-- A connection with the right interest.
rearmed-Settled :
    (fd : ℕ) (c : Conn) (want : Bool)
    → c.fd ≡ fd
    → IsConn c
    → Drained c
    → want ≡ ltb 0 (length (pending c))
    → (c.closing ≡ false) ⊎ (1 ≤ length (pending c))
    → Settled fd (some (conn_arm_write_interest c want))
rearmed-Settled fd c want same v drained right flushing =
    let a = conn_arm_write_interest-Rearmed c want in
    let c' = conn_arm_write_interest c want in
    let left : pending c' ≡ pending c =
      ap₂ drop a.same_out_sent (ap (λ (b : RespBuf). b.data_) a.same_out) in
    idle {c = c'} (a.same_fd ∙ same) (record {
      valid = record {
        input = rw a.same_input v.input;
        capped = rw a.same_input v.capped;
        sent = rw (a.same_out_sent, a.same_out) v.sent;
        asked = a.asked v.asked ∙ ap interest (sym a.wants);
      };
      drained = rw (a.same_input, a.same_closing) drained;
      armed = a.wants ∙ right ∙ ap (λ (t : Bytes). ltb 0 (length t)) (sym left);
      flushing = rw (a.same_closing, left) flushing;
    })

kept_open :
    (fd : ℕ) (closing : Bool) (o : Option Conn)
    → closing ≡ false
    → Settled fd o
    → Settled fd (if closing then none else o)
kept_open fd closing o stays settled = rw stays settled

-- What is left of the replies decides what becomes of a connection.
pub conn_service_output-Settled :
    (ws : List WriteResult) (c : Conn)
    → IsConn c
    → Drained c
    → Settled c.fd (conn_service_output ws c).0
unfolding conn_service_output
conn_service_output-Settled ws c v drained =
    let r = conn_flush_output ws c in
    let d = conn_flush_output-Delivered c ws v.sent in
    let drained' : Drained r.conn = rw (d.same_input, d.same_closing) drained in
    let asked' : r.conn.events ≡ interest r.conn.want_write =
      d.same_events ∙ v.asked ∙ ap interest (sym d.same_want) in
    let valid : IsConn r.conn = record {
      input = rw d.same_input v.input;
      capped = rw d.same_input v.capped;
      sent = d.inside;
      asked = asked';
    } in
    elim (Flushed-cases r.status) [
      | inl lost ↦ rw (lost, conn_service_output) ended
      | inr (inl left) ↦
          let waiting : 1 ≤ length (pending r.conn) = let v = d.verdict in rw left at v in
          rw (left, conn_service_output)
            (rearmed-Settled c.fd r.conn true d.same_fd valid drained' (ground (arith, waiting))
              (inr waiting))
      | inr (inr done) ↦
          let nothing : pending r.conn ≡ [] = let v = d.verdict in rw done at v in
          elim (Bool-cases r.conn.closing) [
            | inl closes ↦ rw (done, closes, conn_service_output) ended
            | inr stays ↦
                let settled =
                  rearmed-Settled c.fd r.conn false d.same_fd valid drained' (rw nothing refl)
                    (inl stays) in
                rw (done, conn_service_output) (kept_open c.fd r.conn.closing _ stays settled)
          ]
    ]

skipped-Drained :
    (w : World) (c : Conn) (b : Bool)
    → c.closing ≡ b
    → Drained (if b then (w, c) else conn_process_input w c).1
skipped-Drained w c true closes = inl closes
skipped-Drained w c false stays = conn_process_input-Drained w c

processed-Drained : (w : World) (c : Conn) → Drained (processed w c).1
processed-Drained w c = skipped-Drained w c c.closing refl

pub processed-IsConn :
    (w : World) (c : Conn) → IsConn c → IsConn (processed w c).1 × ((processed w c).1.fd ≡ c.fd)
processed-IsConn w c v =
    both (λ (t : World × Conn). IsConn t.1 × (t.1.fd ≡ c.fd)) c.closing (v, refl)
      (conn_process_input-IsConn w c v)

at_fd : {fd fd' : ℕ} {o : Option Conn} → fd ≡ fd' → Settled fd o → Settled fd' o
at_fd e settled = rw (← e) settled

read-Settled :
    {fd : ℕ} (ws : List WriteResult) (w : World) (o : Option Conn)
    → Valid fd o
    → Settled fd (after_read ws w o).conn
read-Settled ws w none closed = ended
read-Settled ws w (some c) (open_ same v) =
    let (v', same') = processed-IsConn w c v in
    at_fd (same' ∙ same)
      (conn_service_output-Settled ws (processed w c).1 v' (processed-Drained w c))

-- A client's event leaves its connection closed or idle, whatever read() and write() return.
pub handle_client_readable-Settled :
    (rs : List ReadResult) (ws : List WriteResult) (w : World) (c : Conn)
    → IsConn c
    → Settled c.fd (handle_client_readable rs ws w c).conn
unfolding handle_client_readable
handle_client_readable-Settled rs ws w c v =
    read-Settled ws w (read_loop rs c) (read_loop-Valid rs c v)
