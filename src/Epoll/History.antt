-- ===== src/Epoll/History.antt =====
-- The commands of all clients in one order: what they leave and what each client is sent.
use mathlib.Core.List.{append_assoc}
use redis_server_c.Prelude.{
  ℕ, suc, ◌≡◌, refl, ap, false, List, [], ◌∷◌, ◌++◌, arith, Bytes, drop, drop-append, ◌==◌,
  if◌then◌else◌,
}
use redis_server_c.Resp.Parse.{ok, resp_parse}
use redis_server_c.Resp.Bounds.{resp_parse-bounds}
use redis_server_c.Resp.Framing.{resp_parse_more}
use redis_server_c.Resp.Reply.{RespBuf}
use redis_server_c.Cmd.DispatchEffect.{cmd_dispatch-Effect}
use redis_server_c.Epoll.Conn.{World, dispatch}

-- The reply of a command, and the world that it leaves.
abbrev pub reply_of : World → List Bytes → Bytes
reply_of w argv = (cmd_dispatch-Effect (w.answers 0) w.server argv).reply

abbrev pub after : World → List Bytes → World
after w argv = record {
  server = (cmd_dispatch-Effect (w.answers 0) w.server argv).server;
  answers = λ i. w.answers (suc i);
}

pub dispatch-after :
    (w : World) (argv : List Bytes) (out : RespBuf) → (dispatch w argv out).0 ≡ after w argv
dispatch-after w argv out =
    ap (λ g. record { server = g; answers = λ i. w.answers (suc i) })
      ((cmd_dispatch-Effect (w.answers 0) w.server argv).same_server out)

pub dispatch-reply :
    (w : World) (argv : List Bytes) (out : RespBuf)
    → (dispatch w argv out).1.data_ ≡ out.data_ ++ reply_of w argv
dispatch-reply w argv out = (cmd_dispatch-Effect (w.answers 0) w.server argv).appended out

-- A client, by its descriptor, and a command of it.
abbrev pub Log : Type 0
Log = List (ℕ × List Bytes)

-- The world after the commands, one after another.
abbrev pub replay : World → Log → World
replay w [] = w
replay w ((fd, argv) ∷ log) = replay (after w argv) log

-- The commands of one client.
abbrev pub asked : ℕ → Log → List (List Bytes)
asked q [] = []
asked q ((fd, argv) ∷ log) = if fd == q then argv ∷ asked q log else asked q log

-- The replies to them in that run.
abbrev pub replies : ℕ → World → Log → Bytes
replies q w [] = []
replies q w ((fd, argv) ∷ log) =
    if fd == q
    then reply_of w argv ++ replies q (after w argv) log
    else replies q (after w argv) log

-- The commands that one client sends in a row.
abbrev pub own : ℕ → List (List Bytes) → Log
own fd [] = []
own fd (argv ∷ argvs) = (fd, argv) ∷ own fd argvs

pub replay-append : (w : World) (a b : Log) → replay w (a ++ b) ≡ replay (replay w a) b
replay-append w [] b = refl
replay-append w ((fd, argv) ∷ a) b = replay-append (after w argv) a b

pub asked-append : (q : ℕ) (a b : Log) → asked q (a ++ b) ≡ asked q a ++ asked q b
asked-append q [] b = refl
asked-append q ((fd, argv) ∷ a) b = ground (arith, asked-append q a b)

pub replies-append :
    (q : ℕ) (w : World) (a b : Log)
    → replies q w (a ++ b) ≡ replies q w a ++ replies q (replay w a) b
replies-append q w [] b = refl
replies-append q w ((fd, argv) ∷ a) b = ground (
  arith,
  replies-append q (after w argv) a b,
  append_assoc (reply_of w argv) (replies q (after w argv) a)
      (replies q (replay (after w argv) a) b),
)

pub asked-own : (fd : ℕ) (argvs : List (List Bytes)) → asked fd (own fd argvs) ≡ argvs
asked-own fd [] = refl
asked-own fd (argv ∷ argvs) = ground (arith, asked-own fd argvs)

-- Another client asks for nothing and is sent nothing.
pub asked-other :
    (fd q : ℕ) (argvs : List (List Bytes)) → (fd == q) ≡ false → asked q (own fd argvs) ≡ []
asked-other fd q [] other = refl
asked-other fd q (argv ∷ argvs) other = rw other (asked-other fd q argvs other)

pub replies-nothing : (q : ℕ) (w : World) (log : Log) → asked q log ≡ [] → replies q w log ≡ []
replies-nothing q w [] h = refl
replies-nothing q w ((fd, argv) ∷ log) h = ground (arith, h, replies-nothing q (after w argv) log)

-- The input is cut into these commands, and the rest is left.
abbrev pub Splits : Bytes → List (List Bytes) → Bytes → Type 0
Splits buf [] rest = buf ≡ rest
Splits buf (argv ∷ argvs) rest =
    (n : ℕ) × (resp_parse buf ≡ ok argv n) × Splits (drop n buf) argvs rest

pub Splits-more :
    (argvs : List (List Bytes)) (buf rest more : Bytes)
    → Splits buf argvs rest
    → Splits (buf ++ more) argvs (rest ++ more)
Splits-more [] buf rest more e = ap (λ t. t ++ more) e
Splits-more (argv ∷ argvs) buf rest more (n, good, splits) =
    let (some_bytes, inside) = resp_parse-bounds buf argv n good in
    let next = Splits-more argvs (drop n buf) rest more splits in
    (n, resp_parse_more buf more argv n good, rw (drop-append n buf more inside) next)

pub Splits-join :
    (a b : List (List Bytes)) (buf middle rest : Bytes)
    → Splits buf a middle
    → Splits middle b rest
    → Splits buf (a ++ b) rest
Splits-join [] b buf middle rest e splits = rw e splits
Splits-join (argv ∷ a) b buf middle rest (n, good, first) splits =
    (n, good, Splits-join a b (drop n buf) middle rest first splits)
