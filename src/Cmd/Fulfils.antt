-- ===== src/Cmd/Fulfils.antt =====
-- src/cmd.c: a handler on the hash table, against what the command promises on a map.

use redis_server_c.Prelude.{
  ◌≡◌, ap, ◌∙◌, Bool, true, false, List, ◌∷◌, ◌++◌, Option, some, Bytes, codes, if◌then◌else◌,
}
use redis_server_c.Prelude.Int.{ℤ}
use redis_server_c.Store.Number.{print_ll}
use redis_server_c.Store.State.{Store}
use redis_server_c.Store.Spec.{Dict}
use redis_server_c.Store.Ops.Model.{Models, Refines}
use redis_server_c.Resp.Reply.{
  RespBuf, crlf, resp_reply_simple_string, resp_reply_error, resp_reply_integer,
  resp_reply_bulk_string,
}
use redis_server_c.Resp.Buffer.{resp_buf_append-data_, resp_reply_bulk_string-data_}
use redis_server_c.Cmd.Args.{reply_wrong_arity}
use redis_server_c.Cmd.State.{Server, Handled, with_store}
use redis_server_c.Cmd.Keyspace.{reply_value}
use redis_server_c.Cmd.Reply.{line_appended}
use redis_server_c.Cmd.Replies.{reply_value-data_}
use redis_server_c.Cmd.Promise.{
  Reply, status, failure, number, single, print, Abstract, with_dict, Outcome, done, arity_text,
  unless_arity,
}

-- The server stands for the abstract one.
pub record Represents (a : Abstract) (g : Server) : Type 0 where
  pub models : Models a.dict g.store
  pub same_path : g.save_path ≡ a.save_path
  pub same_time : g.lastsave_time ≡ a.lastsave_time

-- The handler leaves a server that stands for the promised one, and appends just the promised reply.
pub record Fulfils (f : RespBuf → Handled) (p : Outcome) : Type 0 where
  pub represents : (out : RespBuf) → Represents p.0 (f out).0
  pub replied : (out : RespBuf) → (f out).1.data_ ≡ out.data_ ++ print p.1

-- A function of the buffer that appends a reply.
abbrev pub Prints : (RespBuf → RespBuf) → Reply → Type 0
Prints f r = (out : RespBuf) → (f out).data_ ≡ out.data_ ++ print r

pub status-Prints : (s : Bytes) → Prints (λ out. resp_reply_simple_string out s) (status s)
unfolding resp_reply_simple_string
status-Prints s out = line_appended out (codes "+") s

pub failure-Prints : (s : Bytes) → Prints (λ out. resp_reply_error out s) (failure s)
unfolding resp_reply_error
failure-Prints s out = line_appended out (codes "-") s

pub number-Prints : (v : ℤ) → Prints (λ out. resp_reply_integer out v) (number v)
unfolding resp_reply_integer
number-Prints v out = resp_buf_append-data_ out (b':' ∷ (print_ll v ++ crlf))

pub bulk-Prints : (s : Bytes) → Prints (λ out. resp_reply_bulk_string out s) (single (some s))
bulk-Prints s out = resp_reply_bulk_string-data_ out s

pub single-Prints : (v : Option Bytes) → Prints (λ out. reply_value out v) (single v)
single-Prints v out = reply_value-data_ out v

-- A handler that leaves `g'` and replies.
pub answers :
    {a : Abstract} {g : Server} {f : RespBuf → RespBuf} {r : Reply}
    → Represents a g
    → Prints f r
    → Fulfils (λ out. (g, f out)) (a, r)
answers v p = record { represents = λ out. v; replied = p }

pub choose :
    (b : Bool) {f h : RespBuf → Handled} {p q : Outcome}
    → Fulfils f p
    → Fulfils h q
    → Fulfils (λ out. if b then f out else h out) (if b then p else q)
choose true x y = x
choose false x y = y

pub Represents-with :
    (a : Abstract) (g : Server) (d : Dict) (s : Store)
    → Represents a g
    → Models d s
    → Represents (with_dict a d) (with_store g s)
Represents-with a g d s v m = record {
  models = m;
  same_path = v.same_path;
  same_time = v.same_time;
}

-- A call of the store with a reply to its result.
pub called :
    {A : Type 0} (a : Abstract) (g : Server) (f : A → RespBuf → RespBuf) (r : A → Reply)
    (x : Store × A) (p : Dict × A)
    → Represents a g
    → ((y : A) → Prints (f y) (r y))
    → Refines x p
    → Fulfils (λ out. (with_store g x.0, f x.1 out)) (done a r p)
called a g f r (s, x) (d, y) v prints (m, e) = record {
  represents = λ out. Represents-with a g d s v m;
  replied = λ out. prints x out ∙ ap (λ t. out.data_ ++ print (r t)) e;
}

-- The test of the number of arguments.
pub arity-Fulfils :
    {a : Abstract} {g : Server} (wrong : Bool) (argv : List Bytes) {f : RespBuf → Handled}
    {o : Outcome}
    → Represents a g
    → Fulfils f o
    → Fulfils
        (λ out. if wrong then (g, reply_wrong_arity out argv) else f out)
        (unless_arity wrong a argv o)
unfolding reply_wrong_arity
arity-Fulfils wrong argv v x = choose wrong (answers v (failure-Prints (arity_text argv))) x
