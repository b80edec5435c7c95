-- ===== src/Epoll/Turns.antt =====
-- src/server.c: the handlers of a client's event, as stretches of its talk with the server.
use mathlib.Core.List.{append-nil}
use redis_server_c.Prelude.{
  ℕ, zero, suc, ◌≤◌, ◌≡◌, inl, inr, refl, ap, ◌∙◌, Bool, true, false, ◌||◌, List, [], ◌∷◌, ◌++◌,
  arith, Bytes, length, drop, drop-append, length-append, ◌==◌, Bool-cases,
}
use redis_server_c.Resp.Parse.{resp_parse, ok}
use redis_server_c.Resp.Bounds.{Parsed-cases}
use redis_server_c.Resp.Reply.{RespBuf, resp_reply_error}
use redis_server_c.Cmd.Effect.{error-Appends}
use redis_server_c.Input.{dyn_buf_consume}
use redis_server_c.Epoll.Conn.{Conn, World, dispatch, conn_in_consume}
use redis_server_c.Epoll.Process.{process_loop, conn_process_input}
use redis_server_c.Epoll.Client.{processed}
use redis_server_c.Cmd.Answers.{both}
use redis_server_c.Epoll.History.{reply_of, after, dispatch-after, dispatch-reply, replay, own}
use redis_server_c.Epoll.Talk.{Talk, quiet-Talk, Talk-join}

-- The replies that wait grow with the buffer.
pending_more :
    (sent : ℕ) (out out' : RespBuf) (tail : Bytes)
    → sent ≤ length out.data_
    → out'.data_ ≡ out.data_ ++ tail
    → drop sent out'.data_ ≡ drop sent out.data_ ++ tail
pending_more sent out out' tail le e = ap (drop sent) e ∙ drop-append sent out.data_ tail le

not_both : {b : Bool} → b ≡ true → ¬ (b ≡ false)
not_both h k = cc

-- An error line, and the connection is about to close.
pub error-Talk :
    (fd : ℕ) (w : World) (c : Conn) (m : Bytes)
    → c.out_sent ≤ length c.out.data_
    → Talk fd w [] [] [] c (record c { out = resp_reply_error c.out m; closing = true })
error-Talk fd w c m le =
    let line = error-Appends m in
    record {
      rest = c.input.buf;
      tail = line.reply;
      closes = λ h. (refl, refl);
      splits = λ h. append-nil c.input.buf;
      left = λ h. absurd (not_both refl h);
      in_order =
          pending_more c.out_sent c.out (resp_reply_error c.out m) line.reply le
            (line.appended c.out);
    }

-- One command is run.
command-Talk :
    (fd : ℕ) (w : World) (c : Conn) (argv : List Bytes) (n : ℕ)
    → c.closing ≡ false
    → c.out_sent ≤ length c.out.data_
    → resp_parse c.input.buf ≡ ok argv n
    → Talk fd w
        ((fd, argv) ∷ [])
        []
        []
        c
        (conn_in_consume (record c { out = (dispatch w argv c.out).1 }) n)
unfolding dyn_buf_consume
command-Talk fd w c argv n open_ le good =
    let self : (fd == fd) ≡ true = ground arith in
    record {
      rest = drop n c.input.buf;
      tail = [];
      closes = λ h. absurd (not_both h open_);
      splits = λ h. rw (self, append-nil c.input.buf) (n, good, refl);
      left = λ h. (refl, refl);
      in_order =
          rw (self, append-nil (reply_of w argv), append-nil (reply_of w argv))
            (pending_more c.out_sent c.out (dispatch w argv c.out).1 (reply_of w argv) le
              (dispatch-reply w argv c.out));
    }

-- The commands that a connection has run, and its talk.
pub record Ran (fd : ℕ) (w : World) (c : Conn) (r : World × Conn) : Type 0 where
  pub commands : List (List Bytes)
  pub world_after : r.0 ≡ replay w (own fd commands)
  pub talk : Talk fd w (own fd commands) [] [] c r.1

Ran-nothing : (fd : ℕ) (w : World) (c : Conn) → Ran fd w c (w, c)
Ran-nothing fd w c = record { commands = []; world_after = refl; talk = quiet-Talk fd w [] c refl }

-- One command, and what follows it.
Ran-next :
    (fd : ℕ) (w w1 : World) (c c1 : Conn) (argv : List Bytes) (r : World × Conn)
    → w1 ≡ after w argv
    → Talk fd w ((fd, argv) ∷ []) [] [] c c1
    → Ran fd w1 c1 r
    → Ran fd w c r
Ran-next fd w w1 c c1 argv r here first more =
    let rest = more.talk in
    record {
      commands = argv ∷ more.commands;
      world_after = more.world_after ∙ ap (λ v. replay v (own fd more.commands)) here;
      talk =
          Talk-join fd w ((fd, argv) ∷ []) (own fd more.commands) [] [] [] [] c c1 r.1 first
            (rw here at rest);
    }

process_loop-Ran :
    (fd rounds : ℕ) (w : World) (c : Conn)
    → c.out_sent ≤ length c.out.data_
    → Ran fd w c (process_loop rounds w c)
unfolding process_loop dyn_buf_consume
process_loop-Ran fd zero w c le = Ran-nothing fd w c
process_loop-Ran fd (suc rounds) w c le =
    elim (Bool-cases ((length c.input.buf == 0) || c.closing)) [
      | inl stop ↦ rw (stop, process_loop) (Ran-nothing fd w c)
      | inr go ↦ elim (Parsed-cases (resp_parse c.input.buf)) [
        | inl short ↦ rw (go, short, process_loop) (Ran-nothing fd w c)
        | inr (inl (m, bad)) ↦
            rw (go, bad, process_loop)
              (record { commands = []; world_after = refl; talk = error-Talk fd w c m le })
        | inr (inr (argv, n, good)) ↦
            let open_ : c.closing ≡ false = ground (arith, go) in
            let w1 = (dispatch w argv c.out).0 in
            let c1 = conn_in_consume (record c { out = (dispatch w argv c.out).1 }) n in
            let longer = ap length (dispatch-reply w argv c.out) in
            let more =
              process_loop-Ran fd rounds w1 c1
                (omega (arith, longer, length-append c.out.data_ (reply_of w argv))) in
            rw (go, good, process_loop)
              (Ran-next fd w w1 c c1 argv _ (dispatch-after w argv c.out)
                (command-Talk fd w c argv n open_ le good) more)
      ]
    ]

pub processed-Ran :
    (fd : ℕ) (w : World) (c : Conn) → c.out_sent ≤ length c.out.data_ → Ran fd w c (processed w c)
unfolding conn_process_input
processed-Ran fd w c le =
    both (λ (t : World × Conn). Ran fd w c t) c.closing (Ran-nothing fd w c)
      (process_loop-Ran fd (length c.input.buf) w c le)
