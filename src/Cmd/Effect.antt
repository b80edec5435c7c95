-- ===== src/Cmd/Effect.antt =====
-- What a command of src/cmd.c does to the store, and what it replies, whatever the buffer holds.

use redis_server_c.Prelude.{
  ◌≡◌, refl, Bool, true, false, List, [], ◌∷◌, ◌++◌, Bytes, codes, if◌then◌else◌,
}
use redis_server_c.Prelude.Int.{ℤ}
use redis_server_c.Store.Number.{print_ll}
use redis_server_c.Store.Session.{Call, final}
use redis_server_c.Resp.Reply.{
  RespBuf, crlf, resp_reply_simple_string, resp_reply_error, resp_reply_integer,
}
use redis_server_c.Resp.Buffer.{resp_buf_append-data_}
use redis_server_c.Cmd.Args.{reply_wrong_arity}
use redis_server_c.Cmd.State.{Server, Handled}
use redis_server_c.Cmd.Reply.{line_appended}

-- A fixed reply behind whatever the buffer holds.
pub record Appends (f : RespBuf → RespBuf) : Type 0 where
  pub reply : Bytes
  pub appended : (out : RespBuf) → (f out).data_ ≡ out.data_ ++ reply

-- The server that a handler leaves and its reply do not depend on the buffer, and the store is the
-- one that some calls of the store leave.
pub record Effect (g : Server) (f : RespBuf → Handled) : Type 0 where
  pub server : Server
  pub calls : List Call
  pub reply : Bytes
  pub store_final : server.store ≡ final g.store calls
  pub same_server : (out : RespBuf) → (f out).0 ≡ server
  pub appended : (out : RespBuf) → (f out).1.data_ ≡ out.data_ ++ reply

pub simple_string-Appends : (s : Bytes) → Appends (λ out. resp_reply_simple_string out s)
unfolding resp_reply_simple_string
simple_string-Appends s = record {
  reply = codes "+" ++ (s ++ crlf);
  appended = λ out. line_appended out (codes "+") s;
}

pub error-Appends : (s : Bytes) → Appends (λ out. resp_reply_error out s)
unfolding resp_reply_error
error-Appends s = record {
  reply = codes "-" ++ (s ++ crlf);
  appended = λ out. line_appended out (codes "-") s;
}

pub integer-Appends : (v : ℤ) → Appends (λ out. resp_reply_integer out v)
unfolding resp_reply_integer
integer-Appends v = record {
  reply = b':' ∷ (print_ll v ++ crlf);
  appended = λ out. resp_buf_append-data_ out (b':' ∷ (print_ll v ++ crlf));
}

pub wrong_arity-Appends : (argv : List Bytes) → Appends (λ out. reply_wrong_arity out argv)
unfolding reply_wrong_arity
wrong_arity-Appends argv = error-Appends _

-- A handler that leaves `g'` and replies.
pub replying :
    {g : Server} {f : RespBuf → RespBuf} (g' : Server) (calls : List Call)
    → g'.store ≡ final g.store calls
    → Appends f
    → Effect g (λ out. (g', f out))
replying g' calls e a = record {
  server = g';
  calls = calls;
  reply = a.reply;
  store_final = e;
  same_server = λ out. refl;
  appended = a.appended;
}

-- One that leaves the store as it is.
pub only_replying : {g : Server} {f : RespBuf → RespBuf} → Appends f → Effect g (λ out. (g, f out))
unfolding final
only_replying {g} a = replying g [] refl a

pub choice :
    {g : Server} (b : Bool) {f h : RespBuf → Handled}
    → Effect g f
    → Effect g h
    → Effect g (λ out. if b then f out else h out)
choice true x y = x
choice false x y = y

-- A handler that tests the number of arguments first.
pub arity_checked :
    {g : Server} (argv : List Bytes) (b : Bool) {h : RespBuf → Handled}
    → Effect g h
    → Effect g (λ out. if b then (g, reply_wrong_arity out argv) else h out)
arity_checked argv b x = choice b (only_replying (wrong_arity-Appends argv)) x
