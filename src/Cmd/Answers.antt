-- ===== src/Cmd/Answers.antt =====
-- Every handler of src/cmd.c, and so `cmd_dispatch`, appends exactly one reply.

use redis_server_c.Prelude.{
  ◌%◌, ◌≡◌, refl, Bool, true, false, not, ◌&&◌, ◌||◌, List, Option, none, some, Bytes, codes,
  length, ltb, ◌==◌, if◌then◌else◌,
}
use redis_server_c.Prelude.Int.{ℤ, pos, ◌-ℤ◌, is_zero, ltb_ℤ, int64_min}
use redis_server_c.Store.Number.{parse_strict_ll}
use redis_server_c.Store.Ops.{IncrResult, incr_ok, incr_not_integer, incr_overflow}
use redis_server_c.Resp.Reply.{RespBuf}
use redis_server_c.Cmd.Args.{arg, reply_wrong_arity}
use redis_server_c.Cmd.State.{Env, Server, Handled}
use redis_server_c.Persist.Status.{
  PersistStatus, persist_ok, persist_err_io, persist_err_format, persist_err_corrupt,
}
use redis_server_c.Cmd.Keyspace.{
  Expiry, expire_at, refused, set_number, set_expiry, set_with, reply_value, reply_incr_result,
  incr_by, expire_with, cmd_set, cmd_get, cmd_del, cmd_exists, cmd_expire, cmd_ttl_generic,
  cmd_incr, cmd_decr,
}
use redis_server_c.Cmd.Many.{incrby_with, cmd_incrby_generic, cmd_mset}
use redis_server_c.Cmd.Admin.{
  saved, do_save, cmd_ping, cmd_echo, cmd_dbsize, cmd_flushdb, cmd_lastsave, cmd_save, cmd_bgsave,
}
use redis_server_c.Cmd.Reply.{
  no_breaks, Replied, resp_reply_simple_string-Replied, resp_reply_error-Replied,
  resp_reply_integer-Replied, resp_reply_bulk_string-Replied, resp_reply_null_bulk-Replied,
  reply_wrong_arity-Replied,
}

-- Both branches have the property.
pub both {ℓ m} :
    {A : Type ℓ} (P : A → Type m) (b : Bool) {x y : A} → P x → P y → P (if b then x else y)
both P true p q = p
both P false p q = q

-- What a handler leaves in the buffer is one reply more.
pub record Answers (out : RespBuf) (h : Handled) : Type 0 where
  pub replied : Replied out h.1

pub answered : {out out' : RespBuf} {g : Server} → Replied out out' → Answers out (g, out')
answered p = record { replied = p }

-- A handler that tests the number of arguments first.
pub guarded :
    (out : RespBuf) (argv : List Bytes) (b : Bool) (g : Server) {h : Handled}
    → Answers out h
    → Answers out (if b then (g, reply_wrong_arity out argv) else h)
guarded out argv b g p = both (Answers out) b (answered (reply_wrong_arity-Replied out argv)) p

-- The messages of `cmd_set` are one line each.
data IsPlain : Expiry → Type 0 where
  plain_time : (at : ℤ) → IsPlain (expire_at at)
  plain_message : (m : Bytes) → no_breaks m ≡ true → IsPlain (refused m)

set_number-IsPlain : (is_ex : Bool) (now : ℤ) (n : Option ℤ) → IsPlain (set_number is_ex now n)
unfolding set_number no_breaks
set_number-IsPlain is_ex now none = plain_message _ refl
set_number-IsPlain is_ex now (some n) =
    both IsPlain (ltb_ℤ (pos 0) n) (plain_time _) (plain_message _ refl)

set_expiry-IsPlain : (now : ℤ) (argv : List Bytes) → IsPlain (set_expiry now argv)
unfolding set_expiry no_breaks
set_expiry-IsPlain now argv =
    both IsPlain (length argv == 5)
      (both IsPlain _ (plain_message _ refl)
        (set_number-IsPlain _ now (parse_strict_ll (arg argv 4))))
      (plain_time _)

module _ (env : Env) (g : Server) (argv : List Bytes) (out : RespBuf) where
  set_with-Answers : (x : Expiry) → IsPlain x → Answers out (set_with g argv out x)
  unfolding set_with no_breaks
  set_with-Answers (refused m) (plain_message _ h) = answered (resp_reply_error-Replied out m h)
  set_with-Answers (expire_at at) plain =
      answered (resp_reply_simple_string-Replied out (codes "OK") refl)

  pub cmd_set-Answers : Answers out (cmd_set env g argv out)
  unfolding cmd_set
  cmd_set-Answers =
      guarded out argv _ g
        (set_with-Answers (set_expiry (env.now_ms 0) argv) (set_expiry-IsPlain (env.now_ms 0) argv))

  reply_value-Replied : (v : Option Bytes) → Replied out (reply_value out v)
  unfolding reply_value
  reply_value-Replied none = resp_reply_null_bulk-Replied out
  reply_value-Replied (some v) = resp_reply_bulk_string-Replied out v

  pub cmd_get-Answers : Answers out (cmd_get env g argv out)
  unfolding cmd_get
  cmd_get-Answers = guarded out argv (not (length argv == 2)) g (answered (reply_value-Replied _))

  pub cmd_del-Answers : Answers out (cmd_del env g argv out)
  unfolding cmd_del
  cmd_del-Answers =
      guarded out argv (ltb (length argv) 2) g (answered (resp_reply_integer-Replied out _))

  pub cmd_exists-Answers : Answers out (cmd_exists env g argv out)
  unfolding cmd_exists
  cmd_exists-Answers =
      guarded out argv (ltb (length argv) 2) g (answered (resp_reply_integer-Replied out _))

  expire_with-Answers : (n : Option ℤ) → Answers out (expire_with env g argv out n)
  unfolding expire_with no_breaks
  expire_with-Answers none = answered (resp_reply_error-Replied out _ refl)
  expire_with-Answers (some n) = answered (resp_reply_integer-Replied out _)

  pub cmd_expire-Answers : Answers out (cmd_expire env g argv out)
  unfolding cmd_expire
  cmd_expire-Answers =
      guarded out argv (not (length argv == 3)) g
        (expire_with-Answers (parse_strict_ll (arg argv 2)))

  pub cmd_ttl_generic-Answers :
      (want_ms : Bool) → Answers out (cmd_ttl_generic want_ms env g argv out)
  unfolding cmd_ttl_generic
  cmd_ttl_generic-Answers want_ms =
      guarded out argv (not (length argv == 2)) g (answered (resp_reply_integer-Replied out _))

  reply_incr_result-Replied : (r : IncrResult) → Replied out (reply_incr_result out r)
  unfolding reply_incr_result no_breaks
  reply_incr_result-Replied (incr_ok, v) = resp_reply_integer-Replied out v
  reply_incr_result-Replied (incr_not_integer, v) = resp_reply_error-Replied out _ refl
  reply_incr_result-Replied (incr_overflow, v) = resp_reply_error-Replied out _ refl

  incr_by-Answers : (delta : ℤ) → Answers out (incr_by env g argv out delta)
  unfolding incr_by
  incr_by-Answers delta = answered (reply_incr_result-Replied _)

  pub cmd_incr-Answers : Answers out (cmd_incr env g argv out)
  unfolding cmd_incr
  cmd_incr-Answers = guarded out argv (not (length argv == 2)) g (incr_by-Answers _)

  pub cmd_decr-Answers : Answers out (cmd_decr env g argv out)
  unfolding cmd_decr
  cmd_decr-Answers = guarded out argv (not (length argv == 2)) g (incr_by-Answers _)

  incrby_with-Answers :
      (negated : Bool) (delta : Option ℤ) → Answers out (incrby_with negated env g argv out delta)
  unfolding incrby_with no_breaks
  incrby_with-Answers negated none = answered (resp_reply_error-Replied out _ refl)
  incrby_with-Answers negated (some delta) =
      both (Answers out) (negated && is_zero (delta -ℤ int64_min))
        (answered (resp_reply_error-Replied out _ refl)) (incr_by-Answers _)

  pub cmd_incrby_generic-Answers :
      (negated : Bool) → Answers out (cmd_incrby_generic negated env g argv out)
  unfolding cmd_incrby_generic
  cmd_incrby_generic-Answers negated =
      guarded out argv (not (length argv == 3)) g
        (incrby_with-Answers negated (parse_strict_ll (arg argv 2)))

  pub cmd_mset-Answers : Answers out (cmd_mset env g argv out)
  unfolding cmd_mset no_breaks
  cmd_mset-Answers =
      guarded out argv (ltb (length argv) 3 || (length argv % 2 == 0)) g
        (answered (resp_reply_simple_string-Replied out (codes "OK") refl))

  pub cmd_ping-Answers : Answers out (cmd_ping env g argv out)
  unfolding cmd_ping no_breaks
  cmd_ping-Answers = guarded out argv (ltb 2 (length argv)) g (
      both (Answers out) (length argv == 2) (answered (resp_reply_bulk_string-Replied out _))
        (answered (resp_reply_simple_string-Replied out (codes "PONG") refl)))

  pub cmd_echo-Answers : Answers out (cmd_echo env g argv out)
  unfolding cmd_echo
  cmd_echo-Answers =
      guarded out argv (not (length argv == 2)) g (answered (resp_reply_bulk_string-Replied out _))

  pub cmd_dbsize-Answers : Answers out (cmd_dbsize env g argv out)
  unfolding cmd_dbsize
  cmd_dbsize-Answers =
      guarded out argv (not (length argv == 1)) g (answered (resp_reply_integer-Replied out _))

  pub cmd_flushdb-Answers : Answers out (cmd_flushdb env g argv out)
  unfolding cmd_flushdb no_breaks
  cmd_flushdb-Answers =
      guarded out argv (not (length argv == 1)) g
        (answered (resp_reply_simple_string-Replied out (codes "OK") refl))

  pub cmd_lastsave-Answers : Answers out (cmd_lastsave env g argv out)
  unfolding cmd_lastsave
  cmd_lastsave-Answers =
      guarded out argv (not (length argv == 1)) g (answered (resp_reply_integer-Replied out _))

  saved-Answers : (st : PersistStatus) → Answers out (saved env g out st)
  unfolding saved no_breaks
  saved-Answers persist_ok = answered (resp_reply_simple_string-Replied out _ refl)
  saved-Answers persist_err_io = answered (resp_reply_error-Replied out _ refl)
  saved-Answers persist_err_format = answered (resp_reply_error-Replied out _ refl)
  saved-Answers persist_err_corrupt = answered (resp_reply_error-Replied out _ refl)

  pub cmd_save-Answers : Answers out (cmd_save env g argv out)
  unfolding cmd_save do_save no_breaks
  cmd_save-Answers = guarded out argv (not (length argv == 1)) g (
      both (Answers out) (length g.save_path == 0) (answered (resp_reply_error-Replied out _ refl))
        (saved-Answers env.save_status))

  pub cmd_bgsave-Answers : Answers out (cmd_bgsave env g argv out)
  unfolding cmd_bgsave no_breaks
  cmd_bgsave-Answers = guarded out argv (not (length argv == 1)) g (
      both (Answers out) (length g.save_path == 0) (answered (resp_reply_error-Replied out _ refl))
        (both (Answers out) (not env.fork_ok) (answered (resp_reply_error-Replied out _ refl))
          (answered (resp_reply_simple_string-Replied out _ refl))))
