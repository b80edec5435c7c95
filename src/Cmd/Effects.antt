-- ===== src/Cmd/Effects.antt =====
-- src/cmd.c: the effect of every handler, and so of `cmd_dispatch`.
use mathlib.Core.List.{append_assoc, append-nil}
use redis_server_c.Prelude.{
  ℕ, suc, ◌+◌, ◌≡◌, refl, sym, ap, ◌∙◌, Bool, not, ◌&&◌, List, [], ◌∷◌, ◌++◌, Option, none, some,
  Bytes, length, drop, ltb, ◌==◌,
}
use redis_server_c.Prelude.Int.{int64, ℤ, pos, ◌+ℤ◌, ◌*ℤ◌, ◌-ℤ◌, is_zero, int64_min}
use redis_server_c.Store.Number.{parse_strict_ll}
use redis_server_c.Store.State.{Store}
use redis_server_c.Store.Ops.{
  IncrResult, incr_ok, incr_not_integer, incr_overflow, store_set, store_get, store_exists,
  store_del,
}
use redis_server_c.Store.Session.{Call, final, step}
use redis_server_c.Store.Session
use redis_server_c.Resp.Reply.{RespBuf, resp_reply_bulk_string}
use redis_server_c.Resp.RoundTrip.{bulk}
use redis_server_c.Resp.Buffer.{resp_reply_bulk_string-data_}
use redis_server_c.Cmd.Args.{arg}
use redis_server_c.Cmd.State.{Env, Server}
use redis_server_c.Cmd.Keyspace.{
  Expiry, expire_at, refused, set_expiry, set_with, reply_value, reply_incr_result, incr_by,
  expire_with, del_all, exists_all, cmd_set, cmd_get, cmd_del, cmd_exists, cmd_expire,
  cmd_ttl_generic, cmd_incr, cmd_decr,
}
use redis_server_c.Cmd.Many.{incrby_with, cmd_incrby_generic, get_all, set_all}
use redis_server_c.Cmd.Reply.{item}
use redis_server_c.Cmd.Replies.{reply_value-data_}
use redis_server_c.Cmd.Effect.{
  Appends, Effect, simple_string-Appends, error-Appends, integer-Appends, replying, only_replying,
  choice, arity_checked,
}

pub bulk_string-Appends : (s : Bytes) → Appends (λ out. resp_reply_bulk_string out s)
bulk_string-Appends s = record {
  reply = bulk s;
  appended = λ out. resp_reply_bulk_string-data_ out s;
}

value-Appends : (v : Option Bytes) → Appends (λ out. reply_value out v)
value-Appends v = record { reply = item v; appended = λ out. reply_value-data_ out v }

-- The stores that the loops leave.
abbrev pub Called : Store → Store → Type 0
Called s s' = (calls : List Call) × (s' ≡ final s calls)

del_all-Called : (s : Store) (ks : List Bytes) (n : ℕ) → Called s (del_all s ks n).0
unfolding del_all final step
del_all-Called s [] n = ([], refl)
del_all-Called s (k ∷ ks) n =
    let (calls, e) = del_all-Called (store_del s k).0 ks (n + (store_del s k).1) in
    (Session.del k ∷ calls, e)

exists_all-Called :
    (env : Env) (i : ℕ) (s : Store) (ks : List Bytes) (n : ℕ) → Called s (exists_all env i s ks n).0
unfolding exists_all final step
exists_all-Called env i s [] n = ([], refl)
exists_all-Called env i s (k ∷ ks) n =
    let r = store_exists s k (env.now_ms i) in
    let (calls, e) = exists_all-Called env (suc i) r.0 ks (n + r.1) in
    (Session.exists k (env.now_ms i) ∷ calls, e)

pub set_all-Called : (s : Store) (ks : List Bytes) → Called s (set_all s ks)
unfolding set_all final step
set_all-Called s [] = ([], refl)
set_all-Called s (k ∷ []) = ([], refl)
set_all-Called s (k ∷ v ∷ rest) =
    let (calls, e) = set_all-Called (store_set s k v (pos 0)).0 rest in
    (Session.set k v (pos 0) ∷ calls, e)

-- The loop of MGET.
pub record Gets (env : Env) (i : ℕ) (s : Store) (ks : List Bytes) : Type 0 where
  pub store : Store
  pub calls : List Call
  pub reply : Bytes
  pub store_final : store ≡ final s calls
  pub same_store : (out : RespBuf) → (get_all env i s ks out).0 ≡ store
  pub appended : (out : RespBuf) → (get_all env i s ks out).1.data_ ≡ out.data_ ++ reply

pub get_all-Gets : (env : Env) (i : ℕ) (s : Store) (ks : List Bytes) → Gets env i s ks
unfolding get_all final step
get_all-Gets env i s [] = record {
  store = s;
  calls = [];
  reply = [];
  store_final = refl;
  same_store = λ out. refl;
  appended = λ out. sym (append-nil out.data_);
}
get_all-Gets env i s (k ∷ ks) =
    let r = store_get s k (env.now_ms i) in
    let rest = get_all-Gets env (suc i) r.0 ks in
    record {
      store = rest.store;
      calls = Session.get k (env.now_ms i) ∷ rest.calls;
      reply = item r.1 ++ rest.reply;
      store_final = rest.store_final;
      same_store = λ out. rest.same_store (reply_value out r.1);
      appended = λ out.
          rest.appended (reply_value out r.1)
          ∙ ap (λ t. t ++ rest.reply) (reply_value-data_ out r.1)
          ∙ append_assoc out.data_ (item r.1) rest.reply;
    }

module _ (env : Env) (g : Server) (argv : List Bytes) where
  set_with-Effect : (x : Expiry) → Effect g (λ out. set_with g argv out x)
  unfolding set_with final step
  set_with-Effect (refused m) = only_replying (error-Appends m)
  set_with-Effect (expire_at at) =
      replying _ (Session.set (arg argv 1) (arg argv 2) at ∷ []) refl (simple_string-Appends _)

  pub cmd_set-Effect : Effect g (cmd_set env g argv)
  unfolding cmd_set
  cmd_set-Effect = arity_checked argv _ (set_with-Effect (set_expiry (env.now_ms 0) argv))

  pub cmd_get-Effect : Effect g (cmd_get env g argv)
  unfolding cmd_get final step
  cmd_get-Effect =
      arity_checked argv (not (length argv == 2))
        (replying _ (Session.get (arg argv 1) (env.now_ms 0) ∷ []) refl (value-Appends _))

  pub cmd_del-Effect : Effect g (cmd_del env g argv)
  unfolding cmd_del
  cmd_del-Effect =
      let (calls, e) = del_all-Called g.store (drop 1 argv) 0 in
      arity_checked argv (ltb (length argv) 2) (replying _ calls e (integer-Appends _))

  pub cmd_exists-Effect : Effect g (cmd_exists env g argv)
  unfolding cmd_exists
  cmd_exists-Effect =
      let (calls, e) = exists_all-Called env 0 g.store (drop 1 argv) 0 in
      arity_checked argv (ltb (length argv) 2) (replying _ calls e (integer-Appends _))

  expire_with-Effect : (n : Option ℤ) → Effect g (λ out. expire_with env g argv out n)
  unfolding expire_with final step
  expire_with-Effect none = only_replying (error-Appends _)
  expire_with-Effect (some n) =
      replying _
        (Session.expire (arg argv 1) (int64 (env.now_ms 0 +ℤ int64 (n *ℤ pos 1000))) (env.now_ms 1)
          ∷ [])
        refl (integer-Appends _)

  pub cmd_expire-Effect : Effect g (cmd_expire env g argv)
  unfolding cmd_expire
  cmd_expire-Effect =
      arity_checked argv (not (length argv == 3))
        (expire_with-Effect (parse_strict_ll (arg argv 2)))

  pub cmd_ttl_generic-Effect : (want_ms : Bool) → Effect g (cmd_ttl_generic want_ms env g argv)
  unfolding cmd_ttl_generic final step
  cmd_ttl_generic-Effect want_ms = arity_checked argv (not (length argv == 2)) (
      replying _ (Session.ttl (arg argv 1) (env.now_ms 0) (env.now_ms 1) ∷ []) refl
        (integer-Appends _))

  incr_result-Appends : (r : IncrResult) → Appends (λ out. reply_incr_result out r)
  unfolding reply_incr_result
  incr_result-Appends (incr_ok, v) = integer-Appends v
  incr_result-Appends (incr_not_integer, v) = error-Appends _
  incr_result-Appends (incr_overflow, v) = error-Appends _

  incr_by-Effect : (delta : ℤ) → Effect g (λ out. incr_by env g argv out delta)
  unfolding incr_by final step
  incr_by-Effect delta =
      replying _ (Session.incrby (arg argv 1) delta (env.now_ms 0) ∷ []) refl
        (incr_result-Appends _)

  pub cmd_incr-Effect : Effect g (cmd_incr env g argv)
  unfolding cmd_incr
  cmd_incr-Effect = arity_checked argv (not (length argv == 2)) (incr_by-Effect _)

  pub cmd_decr-Effect : Effect g (cmd_decr env g argv)
  unfolding cmd_decr
  cmd_decr-Effect = arity_checked argv (not (length argv == 2)) (incr_by-Effect _)

  pub incrby_with-Effect :
      (negated : Bool) (delta : Option ℤ)
      → Effect g (λ out. incrby_with negated env g argv out delta)
  unfolding incrby_with
  incrby_with-Effect negated none = only_replying (error-Appends _)
  incrby_with-Effect negated (some delta) =
      choice (negated && is_zero (delta -ℤ int64_min)) (only_replying (error-Appends _))
        (incr_by-Effect _)

  pub cmd_incrby_generic-Effect :
      (negated : Bool) → Effect g (cmd_incrby_generic negated env g argv)
  unfolding cmd_incrby_generic
  cmd_incrby_generic-Effect negated =
      arity_checked argv (not (length argv == 3))
        (incrby_with-Effect negated (parse_strict_ll (arg argv 2)))
