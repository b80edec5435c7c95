-- ===== src/Threads/Agree.antt =====
-- The servers of src/server.c and src/server_threaded.c give a client the same replies.
use mathlib.Core.List.{append_assoc, append-nil}
use redis_server_c.Prelude.{
  ℕ, zero, suc, ◌≡◌, inl, inr, refl, sym, ap, ◌∙◌, Bool, true, false, not, ◌||◌, List, [], ◌++◌,
  arith, Bytes, length, ◌==◌, Bool-cases,
}
use redis_server_c.Resp.Parse.{resp_parse}
use redis_server_c.Resp.Bounds.{Parsed-cases}
use redis_server_c.Resp.Reply.{RespBuf}
use redis_server_c.Input.{dyn_buf_consume}
use redis_server_c.Epoll.Conn.{World, dispatch}
use redis_server_c.Epoll.Process.{empty_waits}
use redis_server_c.Epoll.History.{reply_of, after, dispatch-after, dispatch-reply}
use redis_server_c.Epoll.Serve.{Served, serve}
use redis_server_c.Threads.Handle.{Written, write_all, Shared, Handling, flush_out, ran, serve_loop}
use redis_server_c.Threads.HandleLaws.{Sent, all_sent, cut_off, write_all-Sent}

-- No other worker runs a command.
abbrev pub Alone : Shared → Type 0
Alone sh = (i : ℕ) (w : World) → sh.others i w ≡ w

-- Both have sent or queued the same bytes, and left the same world and input.
pub record Agrees (before : Bytes) (sent : Bytes) (s : Served) (h : Handling) : Type 0 where
  pub replies : Bytes
  pub queued : s.out.data_ ≡ before ++ replies
  pub sent_all : h.sent ≡ sent ++ replies
  pub same_world : h.shared.world ≡ s.world
  pub same_rest : h.input.buf ≡ s.rest
  pub still_open : s.closing ≡ false
  pub flushed : h.out.data_ ≡ []
  pub alone : Alone h.shared

-- A connection that has failed stays as it is.
fatal_stays : (rounds : ℕ) (h : Handling) → h.fatal ≡ true → (serve_loop rounds h).fatal ≡ true
unfolding serve_loop
fatal_stays zero h fails = fails
fatal_stays (suc rounds) h fails =
    let stop : ((length h.input.buf == 0) || h.fatal) ≡ true = ground (arith, fails) in
    rw (stop, serve_loop) fails

pub not_both : {b : Bool} → b ≡ true → ¬ (b ≡ false)
not_both h k = cc

-- What has gone on without a failure has sent all its bytes.
sent_whole : (bytes : Bytes) (w : Written) → Sent bytes w → not w.whole ≡ false → w.sent ≡ bytes
sent_whole bytes w (all_sent whole e) h = e
sent_whole bytes w (cut_off rest part more e) h = absurd (ground (arith, part, h))

pub nothing_more :
    (w : World) (out : RespBuf) (h : Handling)
    → h.shared.world ≡ w
    → Alone h.shared
    → h.out.data_ ≡ []
    → Agrees out.data_ h.sent
        (record { world = w; rest = h.input.buf; out = out; closing = false })
        h
nothing_more w out h same alone empty = record {
  replies = [];
  queued = sym (append-nil out.data_);
  sent_all = sym (append-nil h.sent);
  same_world = same;
  same_rest = refl;
  still_open = refl;
  flushed = empty;
  alone = alone;
}

quiet : (rounds : ℕ) (h : Handling) → (serve_loop rounds h).fatal ≡ false → h.fatal ≡ false
quiet rounds h fine = elim (Bool-cases h.fatal) [
  | inr goes ↦ goes
  | inl fails ↦ absurd (not_both (fatal_stays rounds h fails) fine)
]

right_false : (a b : Bool) → (a || b) ≡ false → b ≡ false
right_false a b h = ground (arith, h)

-- One command is run and replied to.
ran_sent :
    (w : World) (h : Handling) (argv : List Bytes) (n : ℕ)
    → h.shared.others 0 h.shared.world ≡ w
    → h.out.data_ ≡ []
    → (ran h argv n).fatal ≡ false
    → (ran h argv n).sent ≡ h.sent ++ reply_of w argv
unfolding flush_out
ran_sent w h argv n same empty fine =
    let w' = h.shared.others 0 h.shared.world in
    let out' = (dispatch w' argv h.out).1 in
    let all : (write_all h.writes out'.data_).sent ≡ out'.data_ =
      sent_whole out'.data_ (write_all h.writes out'.data_) (write_all-Sent h.writes out'.data_)
        (right_false h.fatal _ fine) in
    let replied : out'.data_ ≡ reply_of w argv =
      dispatch-reply w' argv h.out
      ∙ ap (λ t. t ++ reply_of w' argv) empty
      ∙ ap (λ v. reply_of v argv) same in
    ap (λ t. h.sent ++ t) (all ∙ replied)

pub serve_loop-Agrees :
    (rounds : ℕ) (w : World) (out : RespBuf) (h : Handling)
    → h.shared.world ≡ w
    → Alone h.shared
    → h.out.data_ ≡ []
    → (serve_loop rounds h).fatal ≡ false
    → Agrees out.data_ h.sent (serve rounds w h.input.buf out) (serve_loop rounds h)
unfolding serve serve_loop dyn_buf_consume flush_out
serve_loop-Agrees zero w out h same alone empty fine = nothing_more w out h same alone empty
serve_loop-Agrees (suc rounds) w out h same alone empty fine =
    elim (Bool-cases ((length h.input.buf == 0) || h.fatal)) [
      | inl stop ↦
          let goes = quiet (suc rounds) h fine in
          let waits = empty_waits h.input.buf (ground (arith, stop, goes)) in
          rw (stop, waits, serve, serve_loop) (nothing_more w out h same alone empty)
      | inr go ↦ elim (Parsed-cases (resp_parse h.input.buf)) [
        | inl short ↦ rw (go, short, serve, serve_loop) (nothing_more w out h same alone empty)
        | inr (inl (m, bad)) ↦ absurd (not_both refl (rw (go, bad, serve_loop) at fine))
        | inr (inr (argv, n, good)) ↦
            let fine' : (serve_loop rounds (ran h argv n)).fatal ≡ false =
              rw (go, good, serve_loop) at fine in
            let w' = h.shared.others 0 h.shared.world in
            let here : w' ≡ w = alone 0 h.shared.world ∙ same in
            let left : (ran h argv n).shared.world ≡ (dispatch w argv out).0 =
              dispatch-after w' argv h.out
              ∙ ap (λ v. after v argv) here
              ∙ sym (dispatch-after w argv out) in
            let rest =
              serve_loop-Agrees rounds (dispatch w argv out).0 (dispatch w argv out).1
                (ran h argv n) left (λ i. alone (suc i)) refl fine' in
            let r = reply_of w argv in
            let sent = ran_sent w h argv n here empty (quiet rounds (ran h argv n) fine') in
            rw (go, good, serve, serve_loop)
              (record {
                replies = r ++ rest.replies;
                queued =
                    rest.queued
                    ∙ ap (λ t. t ++ rest.replies) (dispatch-reply w argv out)
                    ∙ append_assoc out.data_ r rest.replies;
                sent_all =
                    rest.sent_all
                    ∙ ap (λ t. t ++ rest.replies) sent
                    ∙ append_assoc h.sent r rest.replies;
                same_world = rest.same_world;
                same_rest = rest.same_rest;
                still_open = rest.still_open;
                flushed = rest.flushed;
                alone = rest.alone;
              })
      ]
    ]
