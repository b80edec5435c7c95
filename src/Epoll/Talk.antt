-- ===== src/Epoll/Talk.antt =====
-- src/server.c: what a connection hears and says in a stretch of the event loop.
use mathlib.Core.List.{append_assoc, append-nil}
use redis_server_c.Prelude.{
  ℕ, ◌≡◌, inl, inr, refl, sym, ap, ◌∙◌, Bool, true, false, [], ◌++◌, Bytes, Bool-cases,
}
use redis_server_c.Epoll.Conn.{Conn, World}
use redis_server_c.Epoll.Delivery.{pending}
use redis_server_c.Epoll.History.{
  Log, replay, asked, replies, asked-append, replies-append, replies-nothing, Splits, Splits-more,
  Splits-join,
}

-- A stretch of the loop that began in the world `w` and ran the commands `log`, from the connection
-- `c` to the connection `c'`: what was there and what has been read is cut into the commands of
-- this client and a rest, and what has been sent and what is pending are the pending bytes of
-- before and the replies to these commands. A connection that stays open holds just the rest, and
-- nothing stands behind the replies; one that is about to close stays so and runs nothing.
pub record Talk (fd : ℕ) (w : World) (log : Log) (heard said : Bytes) (c c' : Conn) : Type 0 where
  pub rest : Bytes
  pub tail : Bytes
  pub closes : c.closing ≡ true → (c'.closing ≡ true) × (asked fd log ≡ [])
  pub splits : c.closing ≡ false → Splits (c.input.buf ++ heard) (asked fd log) rest
  pub left : c'.closing ≡ false → (c'.input.buf ≡ rest) × (tail ≡ [])
  pub in_order : said ++ pending c' ≡ pending c ++ (replies fd w log ++ tail)

not_both : {b : Bool} → b ≡ true → ¬ (b ≡ false)
not_both h k = cc

-- Nothing happens to the client.
pub quiet-Talk :
    (fd : ℕ) (w : World) (log : Log) (c : Conn) → asked fd log ≡ [] → Talk fd w log [] [] c c
quiet-Talk fd w log c nothing = record {
  rest = c.input.buf;
  tail = [];
  closes = λ h. (h, nothing);
  splits = λ h. rw (nothing, append-nil c.input.buf) refl;
  left = λ h. (refl, refl);
  in_order = rw (replies-nothing fd w log nothing) (sym (append-nil (pending c)));
}

-- Bytes sent, pending and replied in two stretches.
sent_twice :
    (s1 s2 p p1 p2 r1 r2 t1 t2 : Bytes)
    → s1 ++ p1 ≡ p ++ (r1 ++ t1)
    → s2 ++ p2 ≡ p1 ++ (r2 ++ t2)
    → (s1 ++ s2) ++ p2 ≡ p ++ (r1 ++ (t1 ++ (r2 ++ t2)))
sent_twice s1 s2 p p1 p2 r1 r2 t1 t2 h k =
    append_assoc s1 s2 p2
    ∙ ap (λ t. s1 ++ t) k
    ∙ sym (append_assoc s1 p1 (r2 ++ t2))
    ∙ ap (λ t. t ++ (r2 ++ t2)) h
    ∙ append_assoc p (r1 ++ t1) (r2 ++ t2)
    ∙ ap (λ t. p ++ t) (append_assoc r1 t1 (r2 ++ t2))

-- One stretch after another.
pub Talk-join :
    (fd : ℕ) (w : World) (a b : Log) (h1 h2 s1 s2 : Bytes) (c c1 c2 : Conn)
    → Talk fd w a h1 s1 c c1
    → Talk fd (replay w a) b h2 s2 c1 c2
    → Talk fd w (a ++ b) (h1 ++ h2) (s1 ++ s2) c c2
Talk-join fd w a b h1 h2 s1 s2 c c1 c2 x y =
    let r1 = replies fd w a in
    let r2 = replies fd (replay w a) b in
    let joined =
      sent_twice s1 s2 (pending c) (pending c1) (pending c2) r1 r2 x.tail y.tail x.in_order
        y.in_order in
    let heard = append_assoc c.input.buf h1 h2 in
    elim (Bool-cases c1.closing) [
      | inl closing ↦
          let (still, nothing) = y.closes closing in
          record {
            rest = x.rest ++ h2;
            tail = x.tail ++ y.tail;
            closes = λ h.
                (still, asked-append fd a b ∙ ap (λ t. t ++ asked fd b) (x.closes h).1 ∙ nothing);
            splits = λ h.
                rw (asked-append fd a b, nothing, append-nil (asked fd a), ← heard)
                  (Splits-more (asked fd a) (c.input.buf ++ h1) x.rest h2 (x.splits h));
            left = λ h. absurd (not_both still h);
            in_order =
                joined
                ∙ ap (λ r. pending c ++ (r1 ++ (x.tail ++ (r ++ y.tail))))
                    (replies-nothing fd (replay w a) b nothing)
                ∙ ap (λ r. pending c ++ r)
                    (sym (append_assoc r1 [] (x.tail ++ y.tail))
                      ∙ ap (λ r. (r1 ++ r) ++ (x.tail ++ y.tail))
                          (sym (replies-nothing fd (replay w a) b nothing))
                      ∙ ap (λ r. r ++ (x.tail ++ y.tail)) (sym (replies-append fd w a b)));
          }
      | inr open_ ↦
          let (same, no_tail) = x.left open_ in
          record {
            rest = y.rest;
            tail = y.tail;
            closes = λ h. absurd (not_both (x.closes h).0 open_);
            splits = λ h.
                rw (asked-append fd a b, ← heard)
                  (Splits-join (asked fd a) (asked fd b) ((c.input.buf ++ h1) ++ h2) (x.rest ++ h2)
                    y.rest (Splits-more (asked fd a) (c.input.buf ++ h1) x.rest h2 (x.splits h))
                    (let more = y.splits open_ in rw same at more));
            left = y.left;
            in_order =
                joined
                ∙ ap (λ t. pending c ++ (r1 ++ (t ++ (r2 ++ y.tail)))) no_tail
                ∙ ap (λ t. pending c ++ t)
                    (sym (append_assoc r1 r2 y.tail)
                      ∙ ap (λ r. r ++ y.tail) (sym (replies-append fd w a b)));
          }
    ]
