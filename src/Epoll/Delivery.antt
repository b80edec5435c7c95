-- ===== src/Epoll/Delivery.antt =====
-- src/server.c: what the calls of write() in `conn_flush_output` deliver.
use mathlib.Core.List.{append_assoc}
use Prim.Native.Nat.{min}
use redis_server_c.Prelude.{
  ℕ, ◌+◌, ◌-◌, ◌≤◌, ◌≡◌, refl, ap, ◌∙◌, true, false, List, [], ◌∷◌, ◌++◌, arith, Bytes, length,
  take, drop, length-drop, drop-drop, take-append-drop, ltb, ◌==◌, Bool-cases, inl, inr,
}
use redis_server_c.Epoll.Conn.{Conn}
use redis_server_c.Epoll.Output.{
  WriteResult, wrote, write_eintr, write_eagain, write_failed, Flushed, all_sent, some_left, broken,
  FlushResult, stopped, more_sent, conn_flush_output, reset_out,
}

-- The reply bytes that are still to be sent.
abbrev pub pending : Conn → Bytes
pending c = drop c.out_sent c.out.data_

-- What the result says of the bytes that are still to be sent.
abbrev pub Says : Flushed → Bytes → Type 0
Says all_sent left = left ≡ []
Says some_left left = 1 ≤ length left
Says broken left = 1 ≤ length left

-- The bytes sent and those still to send are the ones from before, the result says which, and the
-- rest of the connection is as it was.
pub record Delivered (c : Conn) (r : FlushResult) : Type 0 where
  pub in_order : r.sent ++ pending r.conn ≡ pending c
  pub verdict : Says r.status (pending r.conn)
  pub inside : r.conn.out_sent ≤ length r.conn.out.data_
  pub same_fd : r.conn.fd ≡ c.fd
  pub same_input : r.conn.input ≡ c.input
  pub same_closing : r.conn.closing ≡ c.closing
  pub same_cap : r.conn.out.cap ≡ c.out.cap
  pub same_want : r.conn.want_write ≡ c.want_write
  pub same_events : r.conn.events ≡ c.events

nothing_left : (s : Bytes) → length s ≤ 0 → [] ≡ s
nothing_left [] h = refl
nothing_left (b ∷ s) h = absurd (omega arith)

not_less : (a b : ℕ) → ltb a b ≡ false → b ≤ a
not_less a b h = ground arith

done-Delivered :
    (c : Conn)
    → ltb c.out_sent (length c.out.data_) ≡ false
    → Delivered c (stopped (reset_out c) all_sent)
done-Delivered c done = record {
  in_order =
      nothing_left (pending c)
        (omega (arith, length-drop c.out_sent c.out.data_, not_less _ _ done));
  verdict = refl;
  inside = omega arith;
  same_fd = refl;
  same_input = refl;
  same_closing = refl;
  same_cap = refl;
  same_want = refl;
  same_events = refl;
}

left_over : (c : Conn) → ltb c.out_sent (length c.out.data_) ≡ true → 1 ≤ length (pending c)
left_over c more = let left = length-drop c.out_sent c.out.data_ in ground (arith, more, left)

stays-Delivered :
    (c : Conn) (status : Flushed)
    → ltb c.out_sent (length c.out.data_) ≡ true
    → Says status (pending c)
    → Delivered c (stopped c status)
stays-Delivered c status more says = record {
  in_order = refl;
  verdict = says;
  inside = ground (arith, more);
  same_fd = refl;
  same_input = refl;
  same_closing = refl;
  same_cap = refl;
  same_want = refl;
  same_events = refl;
}

more_sent-Delivered :
    (c : Conn) (n : ℕ) (r : FlushResult)
    → Delivered (record c { out_sent = c.out_sent + n }) r
    → Delivered c (more_sent (take n (pending c)) r)
more_sent-Delivered c n r d = record {
  in_order =
      append_assoc (take n (pending c)) r.sent (pending r.conn)
      ∙ ap (λ t. take n (pending c) ++ t) (d.in_order ∙ drop-drop c.out_sent n c.out.data_)
      ∙ take-append-drop n (pending c);
  verdict = d.verdict;
  inside = d.inside;
  same_fd = d.same_fd;
  same_input = d.same_input;
  same_closing = d.same_closing;
  same_cap = d.same_cap;
  same_want = d.same_want;
  same_events = d.same_events;
}

-- A flush of a connection that has sent no more than there is loses, repeats and reorders no reply
-- byte, however write() splits the work; it returns 1 when none is left and 0 or -1 when some are,
-- and leaves the descriptor, the input, the closing flag, want_write, the events of the last
-- epoll_ctl() call and the allocation of the reply buffer as they were.
pub conn_flush_output-Delivered :
    (c : Conn) (rs : List WriteResult)
    → c.out_sent ≤ length c.out.data_
    → Delivered c (conn_flush_output rs c)
unfolding conn_flush_output
conn_flush_output-Delivered c [] le = elim (Bool-cases (ltb c.out_sent (length c.out.data_))) [
  | inl more ↦ rw (more, conn_flush_output) (stays-Delivered c some_left more (left_over c more))
  | inr done ↦ rw (done, conn_flush_output) (done-Delivered c done)
]
conn_flush_output-Delivered c (write_eintr ∷ rs) le =
    elim (Bool-cases (ltb c.out_sent (length c.out.data_))) [
      | inr done ↦ rw (done, conn_flush_output) (done-Delivered c done)
      | inl more ↦ rw (more, conn_flush_output) (conn_flush_output-Delivered c rs le)
    ]
conn_flush_output-Delivered c (write_eagain ∷ rs) le =
    elim (Bool-cases (ltb c.out_sent (length c.out.data_))) [
      | inr done ↦ rw (done, conn_flush_output) (done-Delivered c done)
      | inl more ↦
          rw (more, conn_flush_output) (stays-Delivered c some_left more (left_over c more))
    ]
conn_flush_output-Delivered c (write_failed ∷ rs) le =
    elim (Bool-cases (ltb c.out_sent (length c.out.data_))) [
      | inr done ↦ rw (done, conn_flush_output) (done-Delivered c done)
      | inl more ↦ rw (more, conn_flush_output) (stays-Delivered c broken more (left_over c more))
    ]
conn_flush_output-Delivered c (wrote room ∷ rs) le =
    let n = min room (length c.out.data_ - c.out_sent) in
    elim (Bool-cases (ltb c.out_sent (length c.out.data_))) [
      | inr done ↦ rw (done, conn_flush_output) (done-Delivered c done)
      | inl more ↦ elim (Bool-cases (n == 0)) [
        | inl zero_bytes ↦
            rw (more, zero_bytes, conn_flush_output)
              (stays-Delivered c broken more (left_over c more))
        | inr some_bytes ↦
            let c' = record c { out_sent = c.out_sent + n } in
            rw (more, some_bytes, conn_flush_output)
              (more_sent-Delivered c n _ (conn_flush_output-Delivered c' rs (omega arith)))
      ]
    ]
