-- ===== src/Threads/Ran.antt =====
-- src/server_threaded.c: one command of `handle_conn`, or an error, behind the commands of other workers.
use mathlib.Core.List.{append_assoc, append-nil}
use redis_server_c.Prelude.{
  ℕ, suc, ◌≡◌, inl, inr, refl, sym, ap, ◌∙◌, Bool, true, false, not, ◌||◌, List, [], ◌∷◌, ◌++◌,
  arith, Bytes, drop, ◌==◌,
}
use redis_server_c.Resp.Parse.{resp_parse, ok}
use redis_server_c.Resp.Reply.{resp_reply_error}
use redis_server_c.Cmd.Promise.{failure, print}
use redis_server_c.Cmd.Fulfils.{failure-Prints}
use redis_server_c.Input.{dyn_buf_consume}
use redis_server_c.Epoll.Conn.{World, dispatch}
use redis_server_c.Epoll.History.{
  Log, reply_of, after, dispatch-after, dispatch-reply, replay, asked, replies, replay-append,
  asked-append, replies-append, replies-nothing,
}
use redis_server_c.Threads.Handle.{Written, write_all, Shared, Handling, flush_out, ran}
use redis_server_c.Threads.HandleLaws.{Sent, all_sent, cut_off, write_all-Sent}
use redis_server_c.Threads.Took.{OthersRun, Took, not_both}

-- What write() has not taken when `write_all` gives up.
pub record Lost (bytes : Bytes) (w : Written) : Type 0 where
  pub rest : Bytes
  pub in_order : w.sent ++ rest ≡ bytes
  pub none_lost : not w.whole ≡ false → rest ≡ []

write_all-Lost : (bytes : Bytes) (w : Written) → Sent bytes w → Lost bytes w
write_all-Lost bytes w (all_sent whole e) = record {
  rest = [];
  in_order = append-nil w.sent ∙ e;
  none_lost = λ h. refl;
}
write_all-Lost bytes w (cut_off rest part more e) = record {
  rest = rest;
  in_order = e;
  none_lost = λ h. absurd (ground (arith, part, h));
}

right_false : (a b : Bool) → (a || b) ≡ false → b ≡ false
right_false a b h = ground (arith, h)

next_others :
    (me : ℕ) (sh : Shared) (w : World)
    → OthersRun me sh
    → OthersRun me (record { world = w; others = λ i. sh.others (suc i) })
next_others me sh w o = record {
  logs = λ i. o.logs (suc i);
  not_mine = λ i. o.not_mine (suc i);
  others_run = λ i. o.others_run (suc i);
}

-- A command, behind those of the others.
pub ran-Took :
    (me : ℕ) (h : Handling) (argv : List Bytes) (n : ℕ)
    → h.fatal ≡ false
    → h.out.data_ ≡ []
    → (o : OthersRun me h.shared) → resp_parse h.input.buf ≡ ok argv n
    → Took me (o.logs 0 ++ (me, argv) ∷ []) [] h (ran h argv n)
unfolding flush_out dyn_buf_consume
ran-Took me h argv n goes empty o good =
    let w = h.shared.world in
    let w1 = h.shared.others 0 w in
    let here : w1 ≡ replay w (o.logs 0) = o.others_run 0 w in
    let quiet = o.not_mine 0 in
    let own : Log = (me, argv) ∷ [] in
    let self : (me == me) ≡ true = ground arith in
    let out' = (dispatch w1 argv h.out).1 in
    let l =
      write_all-Lost out'.data_ (write_all h.writes out'.data_)
        (write_all-Sent h.writes out'.data_) in
    let reply : out'.data_ ≡ reply_of w1 argv =
      dispatch-reply w1 argv h.out ∙ ap (λ t. t ++ reply_of w1 argv) empty in
    let mine : asked me (o.logs 0 ++ own) ≡ argv ∷ [] =
      asked-append me (o.logs 0) own ∙ ap (λ t. t ++ asked me own) quiet ∙ rw self refl in
    let answered : replies me w (o.logs 0 ++ own) ≡ reply_of w1 argv =
      replies-append me w (o.logs 0) own
      ∙ ap (λ t. t ++ replies me (replay w (o.logs 0)) own) (replies-nothing me w (o.logs 0) quiet)
      ∙ ap (λ v. replies me v own) (sym here)
      ∙ rw (self, append-nil (reply_of w1 argv)) refl in
    record {
      rest = drop n h.input.buf;
      tail = [];
      error_line = inl refl;
      lost = l.rest;
      world_after =
          dispatch-after w1 argv h.out
          ∙ ap (λ v. after v argv) here
          ∙ sym (replay-append w (o.logs 0) own);
      splits = rw (mine, append-nil h.input.buf) (n, good, refl);
      in_order =
          append_assoc h.sent _ l.rest
          ∙ ap (λ t. h.sent ++ t)
              (l.in_order
                ∙ reply
                ∙ sym answered
                ∙ sym (append-nil (replies me w (o.logs 0 ++ own))));
      fine = λ k. (refl, refl, l.none_lost (right_false h.fatal _ k));
      flushed = refl;
      others = next_others me h.shared _ o;
      closes = λ k. absurd (not_both k goes);
    }

-- An error line, and the handling has failed.
pub error-Took :
    (me : ℕ) (h : Handling) (m : Bytes)
    → h.fatal ≡ false
    → h.out.data_ ≡ []
    → OthersRun me h.shared
    → Took me [] [] h (flush_out (record h { out = resp_reply_error h.out m; fatal = true }))
unfolding flush_out
error-Took me h m goes empty o =
    let out' = resp_reply_error h.out m in
    let l =
      write_all-Lost out'.data_ (write_all h.writes out'.data_)
        (write_all-Sent h.writes out'.data_) in
    record {
      rest = h.input.buf;
      tail = print (failure m);
      error_line = inr (m, refl);
      lost = l.rest;
      world_after = refl;
      splits = append-nil h.input.buf;
      in_order =
          append_assoc h.sent _ l.rest
          ∙ ap (λ t. h.sent ++ t)
              (l.in_order ∙ failure-Prints m h.out ∙ ap (λ t. t ++ print (failure m)) empty);
      fine = λ k. absurd cc;
      flushed = refl;
      others = o;
      closes = λ k. absurd (not_both k goes);
    }
