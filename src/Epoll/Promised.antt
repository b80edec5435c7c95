-- ===== src/Epoll/Promised.antt =====
-- A run of commands one after another, against what the commands promise on a map.
use mathlib.Core.Path.{subst}
use redis_server_c.Prelude.{
  ℕ, suc, ◌+◌, ◌^◌, ◌≤◌, ◌≡◌, ◌⊎◌, inl, inr, refl, sym, ap₂, ◌∙◌, List, [], ◌∷◌, ◌++◌, arith, Bytes,
  length, ◌==◌, if◌then◌else◌,
}
use redis_server_c.Prelude.Int.{ℤ}
use redis_server_c.Resp.Reply.{resp_buf_init}
use redis_server_c.Cmd.State.{Env}
use redis_server_c.Cmd.Dispatch.{cmd_dispatch}
use redis_server_c.Cmd.Promise.{Abstract, Reply, many, print}
use redis_server_c.Cmd.Promised.{Promised, exactly, lists_keys, undefined, promised}
use redis_server_c.Cmd.Fulfils.{Represents}
use redis_server_c.Cmd.Listing.{LiveKeys, values}
use redis_server_c.Cmd.Contract.{Keeps, cmd_dispatch-Keeps}
use redis_server_c.Cmd.Roomy.{Roomy, promised-Roomy}
use redis_server_c.Epoll.Conn.{World, dispatch}
use redis_server_c.Epoll.History.{
  Log, reply_of, after, replay, replies, dispatch-after, dispatch-reply,
}

-- What a command may do to the map and reply; one without a name does nothing.
pub data Allows (env : Env) (a : Abstract) : List Bytes → Abstract → Bytes → Type 0 where
  no_command : Allows env a [] a []
  fixed :
      {name : Bytes} {args : List Bytes} (b : Abstract) (r : Reply)
      → promised env a (name ∷ args) ≡ exactly (b, r)
      → Allows env a (name ∷ args) b (print r)
  listing :
      {name : Bytes} {args : List Bytes} (b : Abstract) (now : ℤ) (ks : List Bytes)
      → promised env a (name ∷ args) ≡ lists_keys b now
      → LiveKeys b now ks
      → Allows env a (name ∷ args) b (print (many (values ks)))

-- The commands on the map, one after another, with the reply to each.
pub data Run : (ℕ → Env) → Abstract → Log → List Bytes → Abstract → Type 0 where
  finished : {answers : ℕ → Env} {a : Abstract} → Run answers a [] [] a
  runs :
      {answers : ℕ → Env} {a b c : Abstract} {fd : ℕ} {argv : List Bytes} {r : Bytes} {log : Log}
      {rs : List Bytes}
      → Allows (answers 0) a argv b r
      → Run (λ i. answers (suc i)) b log rs c
      → Run answers a ((fd, argv) ∷ log) (r ∷ rs) c

-- A run comes to a command whose time `int64_t` does not hold.
pub data Unpromised : (ℕ → Env) → Abstract → Log → Type 0 where
  overflows :
      {answers : ℕ → Env} {a : Abstract} {fd : ℕ} {name : Bytes} {args : List Bytes} {log : Log}
      → promised (answers 0) a (name ∷ args) ≡ undefined
      → Unpromised answers a ((fd, name ∷ args) ∷ log)
  behind :
      {answers : ℕ → Env} {a b : Abstract} {fd : ℕ} {argv : List Bytes} {r : Bytes} {log : Log}
      → Allows (answers 0) a argv b r
      → Unpromised (λ i. answers (suc i)) b log
      → Unpromised answers a ((fd, argv) ∷ log)

-- The replies of a run to one client.
abbrev pub to_client : ℕ → Log → List Bytes → Bytes
to_client q [] rs = []
to_client q ((fd, argv) ∷ log) [] = []
to_client q ((fd, argv) ∷ log) (r ∷ rs) =
    if fd == q then r ++ to_client q log rs else to_client q log rs

-- The reply to each command.
abbrev pub each_reply : World → Log → List Bytes
each_reply w [] = []
each_reply w ((fd, argv) ∷ log) = reply_of w argv ∷ each_reply (after w argv) log

-- The number of all arguments.
abbrev pub arguments : Log → ℕ
arguments [] = 0
arguments ((fd, argv) ∷ log) = length argv + arguments log

-- The server comes to stand for what a run on the map ends with, and replies what the run replies.
pub record Kept (a : Abstract) (w : World) (log : Log) : Type 0 where
  pub final : Abstract
  pub sent : List Bytes
  pub run : Run w.answers a log sent final
  pub represents : Represents final (replay w log).server
  pub each : each_reply w log ≡ sent
  pub as_sent : (q : ℕ) → replies q w log ≡ to_client q log sent

-- One command of a run.
record Answered (w : World) (a : Abstract) (argv : List Bytes) : Type 0 where
  next : Abstract
  reply : Bytes
  allowed : Allows (w.answers 0) a argv next reply
  represents : Represents next (after w argv).server
  same : reply_of w argv ≡ reply
  grows : next.dict.card ≤ a.dict.card + length argv

data Overflowing (w : World) (a : Abstract) : List Bytes → Type 0 where
  beyond :
      {name : Bytes} {args : List Bytes}
      → promised (w.answers 0) a (name ∷ args) ≡ undefined
      → Overflowing w a (name ∷ args)

stops :
    {w : World} {a : Abstract} {argv : List Bytes} {fd : ℕ} {log : Log}
    → Overflowing w a argv
    → Unpromised w.answers a ((fd, argv) ∷ log)
stops (beyond e) = overflows e

module _ (w : World) (a : Abstract) where
  -- The effect of a handler that is known at the empty buffer.
  settled :
      (argv : List Bytes) (b : Abstract) (r : Bytes)
      → Allows (w.answers 0) a argv b r
      → b.dict.card ≤ a.dict.card + length argv
      → Represents b (dispatch w argv resp_buf_init).0.server
      → (dispatch w argv resp_buf_init).1.data_ ≡ r
      → Answered w a argv
  unfolding resp_buf_init
  settled argv b r allowed grows v e = record {
    next = b;
    reply = r;
    allowed = allowed;
    represents =
        subst (λ (u : World). Represents b u.server) (dispatch-after w argv resp_buf_init) v;
    same = sym (dispatch-reply w argv resp_buf_init) ∙ e;
    grows = grows;
  }

  kept_promise :
      (name : Bytes) (args : List Bytes) (p : Promised)
      → promised (w.answers 0) a (name ∷ args) ≡ p
      → Keeps (cmd_dispatch (w.answers 0) w.server (name ∷ args)) p
      → Roomy (length (name ∷ args)) a p
      → Overflowing w a (name ∷ args) ⊎ Answered w a (name ∷ args)
  unfolding resp_buf_init
  kept_promise name args undefined e k grows = inl (beyond e)
  kept_promise name args (exactly (b, r)) e k grows = inr (
      settled (name ∷ args) b (print r) (fixed b r e) grows (k.represents resp_buf_init)
        (k.replied resp_buf_init))
  kept_promise name args (lists_keys b now) e k grows =
      let f = k.fulfils in
      inr (
        settled (name ∷ args) b (print (many (values k.listed)))
          (listing b now k.listed e k.live_keys) grows (f.represents resp_buf_init)
          (f.replied resp_buf_init))

  answered :
      (argv : List Bytes)
      → Represents a w.server
      → a.dict.card + length argv ≤ 2 ^ 62
      → Overflowing w a argv ⊎ Answered w a argv
  unfolding cmd_dispatch resp_buf_init
  answered [] v room = inr (settled [] a [] no_command (omega arith) v refl)
  answered (name ∷ args) v room =
      let argv = name ∷ args in
      kept_promise name args (promised (w.answers 0) a argv) refl
        (cmd_dispatch-Keeps (w.answers 0) w.server a v argv (omega arith) room)
        (promised-Roomy (w.answers 0) a argv (omega arith))

-- The first command and those behind it.
then_Kept :
    (fd : ℕ) (argv : List Bytes) (log : Log) (w : World) (a : Abstract) (now : Answered w a argv)
    → Unpromised (after w argv).answers now.next log ⊎ Kept now.next (after w argv) log
    → Unpromised w.answers a ((fd, argv) ∷ log) ⊎ Kept a w ((fd, argv) ∷ log)
then_Kept fd argv log w a now (inl never) = inl (behind now.allowed never)
then_Kept fd argv log w a now (inr later) = inr (record {
  final = later.final;
  sent = now.reply ∷ later.sent;
  run = runs now.allowed later.run;
  represents = later.represents;
  each = ap₂ ◌∷◌ now.same later.each;
  as_sent = λ q. ap₂ (λ r t. if fd == q then r ++ t else t) now.same (later.as_sent q);
})

-- On a server that stands for a map with room for all the arguments, the commands one after another,
-- each on the server that those before it leave, reply what a run of them on the map replies, and
-- leave a server that stands for the map that it ends with, unless the run comes to a command whose
-- time `int64_t` does not hold.
pub replay-Kept :
    (log : Log) (w : World) (a : Abstract)
    → Represents a w.server
    → a.dict.card + arguments log ≤ 2 ^ 62
    → Unpromised w.answers a log ⊎ Kept a w log
replay-Kept [] w a v room = inr (record {
  final = a;
  sent = [];
  run = finished;
  represents = v;
  each = refl;
  as_sent = λ q. refl;
})
replay-Kept ((fd, argv) ∷ log) w a v room = elim (answered w a argv v (omega arith)) [
  | inl never ↦ inl (stops never)
  | inr now ↦
      then_Kept fd argv log w a now
        (replay-Kept log (after w argv) now.next now.represents (omega (arith, now.grows)))
]
