-- ===== src/Threads/Took.antt =====
-- src/server_threaded.c: a stretch of `handle_conn` while other workers run commands.
use mathlib.Core.List.{append_assoc, append-nil}
use redis_server_c.Prelude.{
  ℕ, ◌≡◌, ◌⊎◌, refl, sym, ap, ◌∙◌, Bool, true, false, [], ◌++◌, Bytes, Bool-cases, inl, inr,
}
use redis_server_c.Cmd.Promise.{failure, print}
use redis_server_c.Epoll.Conn.{World}
use redis_server_c.Epoll.History.{
  Log, after, replay, asked, replies, replay-append, asked-append, replies-append, replies-nothing,
  Splits, Splits-more, Splits-join,
}
use redis_server_c.Threads.Handle.{Shared, Handling}

-- What the other workers do before each command of this one is to run commands of other clients.
pub record OthersRun (me : ℕ) (sh : Shared) : Type 0 where
  pub logs : ℕ → Log
  pub not_mine : (i : ℕ) → asked me (logs i) ≡ []
  pub others_run : (i : ℕ) (w : World) → sh.others i w ≡ replay w (logs i)

-- A stretch of `handle_conn`: this order of the commands of all workers leaves the world, and this
-- client's commands in it are those that its input is cut into. The bytes sent are the replies to
-- them, in this order, with what was lost when write() failed and at most one error line at the end;
-- there is neither unless the handling has failed; one that has failed before does nothing more.
pub record Took (me : ℕ) (log : Log) (heard : Bytes) (h h' : Handling) : Type 0 where
  pub rest : Bytes
  pub tail : Bytes
  pub error_line : (tail ≡ []) ⊎ ((m : Bytes) × (tail ≡ print (failure m)))
  pub lost : Bytes
  pub world_after : h'.shared.world ≡ replay h.shared.world log
  pub splits : Splits (h.input.buf ++ heard) (asked me log) rest
  pub in_order : h'.sent ++ lost ≡ h.sent ++ (replies me h.shared.world log ++ tail)
  pub fine : h'.fatal ≡ false → (h'.input.buf ≡ rest) × (tail ≡ []) × (lost ≡ [])
  pub flushed : h'.out.data_ ≡ []
  pub others : OthersRun me h'.shared
  pub closes :
      h.fatal ≡ true → (h'.fatal ≡ true) × (asked me log ≡ []) × (heard ≡ []) × (h'.sent ≡ h.sent)

abbrev pub Taking : ℕ → Bytes → Handling → Handling → Type 0
Taking me heard h h' = (log : Log) × Took me log heard h h'

pub not_both : {b : Bool} → b ≡ true → ¬ (b ≡ false)
not_both h k = cc

-- The others run commands, and this worker does nothing.
pub Took-nothing :
    (me : ℕ) (log : Log) (h : Handling) (sh : Shared)
    → h.out.data_ ≡ []
    → OthersRun me sh
    → sh.world ≡ replay h.shared.world log
    → asked me log ≡ []
    → Took me log [] h (record h { shared = sh })
Took-nothing me log h sh empty others after quiet = record {
  rest = h.input.buf;
  tail = [];
  error_line = inl refl;
  lost = [];
  world_after = after;
  splits = rw (quiet, append-nil h.input.buf) refl;
  in_order = rw (replies-nothing me h.shared.world log quiet) refl;
  fine = λ k. (refl, refl, refl);
  flushed = empty;
  others = others;
  closes = λ k. (k, quiet, refl, refl);
}

pub Taking-nothing :
    (me : ℕ) (h : Handling) → h.out.data_ ≡ [] → OthersRun me h.shared → Taking me [] h h
Taking-nothing me h empty others = ([], Took-nothing me [] h h.shared empty others refl refl)

-- One stretch after another that has not failed.
goes_on :
    (me : ℕ) (a b : Log) (x y : Bytes) (h h1 h2 : Handling)
    → h1.fatal ≡ false
    → Took me a x h h1
    → Took me b y h1 h2
    → Took me (a ++ b) (x ++ y) h h2
goes_on me a b x y h h1 h2 goes s t =
    let (same, no_tail, none_lost) = s.fine goes in
    let w = h.shared.world in
    let r1 = replies me w a in
    let r2 = replies me (replay w a) b in
    let sent : h1.sent ≡ h.sent ++ r1 =
      sym (append-nil h1.sent)
      ∙ ap (λ t. h1.sent ++ t) (sym none_lost)
      ∙ s.in_order
      ∙ ap (λ t. h.sent ++ (r1 ++ t)) no_tail
      ∙ ap (λ t. h.sent ++ t) (append-nil r1) in
    let more = t.splits in
    record {
      rest = t.rest;
      tail = t.tail;
      error_line = t.error_line;
      lost = t.lost;
      world_after = t.world_after ∙ ap (λ v. replay v b) s.world_after ∙ sym (replay-append w a b);
      splits =
          rw (asked-append me a b, ← append_assoc h.input.buf x y)
            (Splits-join (asked me a) (asked me b) ((h.input.buf ++ x) ++ y) (s.rest ++ y) t.rest
              (Splits-more (asked me a) (h.input.buf ++ x) s.rest y s.splits) (rw same at more));
      in_order =
          t.in_order
          ∙ ap (λ v. h1.sent ++ (replies me v b ++ t.tail)) s.world_after
          ∙ ap (λ u. u ++ (r2 ++ t.tail)) sent
          ∙ append_assoc h.sent r1 (r2 ++ t.tail)
          ∙ ap (λ u. h.sent ++ u)
              (sym (append_assoc r1 r2 t.tail)
                ∙ ap (λ u. u ++ t.tail) (sym (replies-append me w a b)));
      fine = t.fine;
      flushed = t.flushed;
      others = t.others;
      closes = λ k. absurd (not_both (s.closes k).0 goes);
    }

-- One stretch after another that has failed.
stays :
    (me : ℕ) (a b : Log) (x y : Bytes) (h h1 h2 : Handling)
    → h1.fatal ≡ true
    → Took me a x h h1
    → Took me b y h1 h2
    → Took me (a ++ b) (x ++ y) h h2
stays me a b x y h h1 h2 fails s t =
    let (still, nothing, deaf, mute) = t.closes fails in
    let w = h.shared.world in
    let silent : replies me w (a ++ b) ≡ replies me w a =
      replies-append me w a b
      ∙ ap (λ u. replies me w a ++ u) (replies-nothing me (replay w a) b nothing)
      ∙ append-nil (replies me w a) in
    let asked_before : asked me (a ++ b) ≡ asked me a =
      asked-append me a b ∙ ap (λ u. asked me a ++ u) nothing ∙ append-nil (asked me a) in
    let heard_before : x ++ y ≡ x = ap (λ u. x ++ u) deaf ∙ append-nil x in
    record {
      rest = s.rest;
      tail = s.tail;
      error_line = s.error_line;
      lost = s.lost;
      world_after = t.world_after ∙ ap (λ v. replay v b) s.world_after ∙ sym (replay-append w a b);
      splits = rw (asked_before, heard_before) s.splits;
      in_order =
          ap (λ u. u ++ s.lost) mute ∙ s.in_order ∙ ap (λ u. h.sent ++ (u ++ s.tail)) (sym silent);
      fine = λ k. absurd (not_both still k);
      flushed = t.flushed;
      others = t.others;
      closes = λ k.
          let (failed_, quiet, before, same) = s.closes k in
          (still, asked_before ∙ quiet, heard_before ∙ before, mute ∙ same);
    }

pub Took-join :
    (me : ℕ) (a b : Log) (x y : Bytes) (h h1 h2 : Handling)
    → Took me a x h h1
    → Took me b y h1 h2
    → Took me (a ++ b) (x ++ y) h h2
Took-join me a b x y h h1 h2 s t = elim (Bool-cases h1.fatal) [
  | inl fails ↦ stays me a b x y h h1 h2 fails s t
  | inr goes ↦ goes_on me a b x y h h1 h2 goes s t
]

pub Taking-join :
    (me : ℕ) (x y : Bytes) (h h1 h2 : Handling)
    → Taking me x h h1
    → Taking me y h1 h2
    → Taking me (x ++ y) h h2
Taking-join me x y h h1 h2 (a, s) (b, t) = (a ++ b, Took-join me a b x y h h1 h2 s t)
