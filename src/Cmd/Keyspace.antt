-- ===== src/Cmd/Keyspace.antt =====
-- src/cmd.c: the handlers of the commands on keys.
use redis_server_c.Prelude.{
  ℕ, zero, suc, ◌+◌, ◌-◌, ◌/◌, Bool, true, false, not, ◌&&◌, List, [], ◌∷◌, Option, none, some,
  Bytes, codes, length, drop, ltb, leb, ◌==◌, if◌then◌else◌,
}
use redis_server_c.Prelude.Int.{int64, ℤ, pos, negsuc, ◌+ℤ◌, ◌*ℤ◌, ltb_ℤ}
use redis_server_c.Store.Number.{parse_strict_ll, negate}
use redis_server_c.Store.State.{Store}
use redis_server_c.Store.Ops.{
  store_set, store_get, store_exists, store_del, store_expire, store_ttl_ms, store_incrby, incr_ok,
  incr_not_integer, incr_overflow, IncrResult,
}
use redis_server_c.Resp.Reply.{
  RespBuf, resp_reply_simple_string, resp_reply_error, resp_reply_integer, resp_reply_bulk_string,
  resp_reply_null_bulk,
}
use redis_server_c.Cmd.Args.{arg_eq_ci, arg, reply_wrong_arity}
use redis_server_c.Cmd.State.{Env, Server, Handled, Handler, with_store}

abbrev pub not_an_integer : Bytes
not_an_integer = codes "ERR value is not an integer or out of range"

abbrev pub would_overflow : Bytes
would_overflow = codes "ERR increment or decrement would overflow"

-- The argument "EX" or "PX" and the number behind it: the expiry, or the error message.
pub data Expiry : Type 0 where
  expire_at : ℤ → Expiry
  refused : Bytes → Expiry

-- A product or sum outside `int64_t` is undefined behaviour in C; here it wraps around.
unfoldable pub set_number : Bool → ℤ → Option ℤ → Expiry
set_number is_ex now none = refused (codes "ERR invalid expire time in 'set' command")
set_number is_ex now (some n) =
    if ltb_ℤ (pos 0) n
    then expire_at (int64 (now +ℤ (if is_ex then int64 (n *ℤ pos 1000) else n)))
    else refused (codes "ERR invalid expire time in 'set' command")

unfoldable pub set_expiry : ℤ → List Bytes → Expiry
unfolding set_number
set_expiry now argv =
    let is_ex = arg_eq_ci (arg argv 3) (codes "EX") in
    let is_px = arg_eq_ci (arg argv 3) (codes "PX") in
    if length argv == 5
    then if not is_ex && not is_px
      then refused (codes "ERR syntax error")
      else set_number is_ex now (parse_strict_ll (arg argv 4))
    else expire_at (pos 0)

unfoldable pub set_with : Server → List Bytes → RespBuf → Expiry → Handled
set_with g argv out (refused m) = (g, resp_reply_error out m)
set_with g argv out (expire_at at) = (
  with_store g (store_set g.store (arg argv 1) (arg argv 2) at).0,
  resp_reply_simple_string out (codes "OK"),
)

unfoldable pub cmd_set : Handler
unfolding set_with set_expiry
cmd_set env g argv out =
    if not (length argv == 3) && not (length argv == 5)
    then (g, reply_wrong_arity out argv)
    else set_with g argv out (set_expiry (env.now_ms 0) argv)

-- The reply to a lookup: the value, or null.
unfoldable pub reply_value : RespBuf → Option Bytes → RespBuf
reply_value out none = resp_reply_null_bulk out
reply_value out (some v) = resp_reply_bulk_string out v

unfoldable pub cmd_get : Handler
unfolding reply_value
cmd_get env g argv out =
    if not (length argv == 2)
    then (g, reply_wrong_arity out argv)
    else let (s, v) = store_get g.store (arg argv 1) (env.now_ms 0) in
      (with_store g s, reply_value out v)

-- The loops of DEL and EXISTS over the keys that are left, from the clock's call `i` on.
unfoldable pub del_all : Store → List Bytes → ℕ → Store × ℕ
del_all s [] count = (s, count)
del_all s (k ∷ ks) count = let (s', n) = store_del s k in del_all s' ks (count + n)

unfoldable pub cmd_del : Handler
unfolding del_all
cmd_del env g argv out =
    if ltb (length argv) 2
    then (g, reply_wrong_arity out argv)
    else let (s, count) = del_all g.store (drop 1 argv) 0 in
      (with_store g s, resp_reply_integer out (pos count))

unfoldable pub exists_all : Env → ℕ → Store → List Bytes → ℕ → Store × ℕ
exists_all env i s [] count = (s, count)
exists_all env i s (k ∷ ks) count =
    let (s', n) = store_exists s k (env.now_ms i) in exists_all env (suc i) s' ks (count + n)

unfoldable pub cmd_exists : Handler
unfolding exists_all
cmd_exists env g argv out =
    if ltb (length argv) 2
    then (g, reply_wrong_arity out argv)
    else let (s, count) = exists_all env 0 g.store (drop 1 argv) 0 in
      (with_store g s, resp_reply_integer out (pos count))

-- `now_ms` is called for the argument first, and then in `store_expire`.
unfoldable pub expire_with : Env → Server → List Bytes → RespBuf → Option ℤ → Handled
expire_with env g argv out none = (g, resp_reply_error out not_an_integer)
expire_with env g argv out (some seconds) =
    let (s, ok) =
      store_expire g.store (arg argv 1) (int64 (env.now_ms 0 +ℤ int64 (seconds *ℤ pos 1000)))
        (env.now_ms 1) in
    (with_store g s, resp_reply_integer out (if ok == 0 then pos 0 else pos 1))

unfoldable pub cmd_expire : Handler
unfolding expire_with
cmd_expire env g argv out =
    if not (length argv == 3)
    then (g, reply_wrong_arity out argv)
    else expire_with env g argv out (parse_strict_ll (arg argv 2))

-- `(ttl_ms + 999) / 1000`, which C rounds towards zero.
abbrev pub ceil_seconds : ℤ → ℤ
ceil_seconds (pos n) = pos ((n + 999) / 1000)
ceil_seconds (negsuc n) = if leb n 998 then pos 0 else negate ((n - 998) / 1000)

-- The two special results, -2 and -1, are replied as they are.
abbrev pub ttl_reply : Bool → ℤ → ℤ
ttl_reply want_ms (negsuc (suc zero)) = negsuc 1
ttl_reply want_ms (negsuc zero) = negsuc 0
ttl_reply want_ms (negsuc (suc (suc n))) =
    if want_ms then negsuc (suc (suc n)) else ceil_seconds (negsuc (suc (suc n)))
ttl_reply want_ms (pos n) = if want_ms then pos n else ceil_seconds (pos n)

unfoldable pub cmd_ttl_generic : Bool → Handler
cmd_ttl_generic want_ms env g argv out =
    if not (length argv == 2)
    then (g, reply_wrong_arity out argv)
    else let (s, ttl_ms) = store_ttl_ms g.store (arg argv 1) (env.now_ms 0) (env.now_ms 1) in
      (with_store g s, resp_reply_integer out (ttl_reply want_ms ttl_ms))

abbrev pub cmd_ttl : Handler
cmd_ttl = cmd_ttl_generic false

abbrev pub cmd_pttl : Handler
cmd_pttl = cmd_ttl_generic true

unfoldable pub reply_incr_result : RespBuf → IncrResult → RespBuf
reply_incr_result out (incr_ok, val) = resp_reply_integer out val
reply_incr_result out (incr_not_integer, val) = resp_reply_error out not_an_integer
reply_incr_result out (incr_overflow, val) = resp_reply_error out would_overflow

-- The call of `store_incrby` with the reply to its result.
unfoldable pub incr_by : Env → Server → List Bytes → RespBuf → ℤ → Handled
unfolding reply_incr_result
incr_by env g argv out delta =
    let (s, result) = store_incrby g.store (arg argv 1) delta (env.now_ms 0) in
    (with_store g s, reply_incr_result out result)

unfoldable pub cmd_incr : Handler
unfolding incr_by
cmd_incr env g argv out =
    if not (length argv == 2)
    then (g, reply_wrong_arity out argv)
    else incr_by env g argv out (pos 1)

unfoldable pub cmd_decr : Handler
unfolding incr_by
cmd_decr env g argv out =
    if not (length argv == 2)
    then (g, reply_wrong_arity out argv)
    else incr_by env g argv out (negsuc 0)
