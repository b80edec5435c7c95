-- ===== src/Cmd/Many.antt =====
-- src/cmd.c: INCRBY and DECRBY, and the handlers that reply with an array or set several keys.
use redis_server_c.Prelude.{
  ℕ, suc, ◌+◌, ◌%◌, Bool, true, false, not, ◌&&◌, ◌||◌, List, [], ◌∷◌, Option, none, some, Bytes,
  codes, length, drop, ltb, ◌==◌, if◌then◌else◌, bytes_eq,
}
use redis_server_c.Prelude.Int.{ℤ, pos, ◌-ℤ◌, is_zero, int64_min}
use redis_server_c.Store.Number.{parse_strict_ll}
use redis_server_c.Store.Chain.{Entry}
use redis_server_c.Store.State.{Store}
use redis_server_c.Store.Ops.{store_set, store_get, store_foreach}
use redis_server_c.Resp.Reply.{
  RespBuf, resp_buf_init, resp_buf_append, resp_reply_simple_string, resp_reply_error,
  resp_reply_bulk_string, resp_reply_array_header,
}
use redis_server_c.Cmd.Args.{arg, reply_wrong_arity}
use redis_server_c.Cmd.State.{Env, Server, Handled, Handler, with_store}
use redis_server_c.Cmd.Keyspace.{not_an_integer, would_overflow, incr_by, reply_value}

-- `negate ? -delta : delta`, behind the guard against INT64_MIN.
unfoldable pub incrby_with : Bool → Env → Server → List Bytes → RespBuf → Option ℤ → Handled
incrby_with negated env g argv out none = (g, resp_reply_error out not_an_integer)
incrby_with negated env g argv out (some delta) =
    if negated && is_zero (delta -ℤ int64_min)
    then (g, resp_reply_error out would_overflow)
    else incr_by env g argv out (if negated then pos 0 -ℤ delta else delta)

unfoldable pub cmd_incrby_generic : Bool → Handler
unfolding incrby_with
cmd_incrby_generic negated env g argv out =
    if not (length argv == 3)
    then (g, reply_wrong_arity out argv)
    else incrby_with negated env g argv out (parse_strict_ll (arg argv 2))

abbrev pub cmd_incrby : Handler
cmd_incrby = cmd_incrby_generic false

abbrev pub cmd_decrby : Handler
cmd_decrby = cmd_incrby_generic true

-- The loop of MGET over the keys that are left, from the clock's call `i` on.
unfoldable pub get_all : Env → ℕ → Store → List Bytes → RespBuf → Store × RespBuf
get_all env i s [] out = (s, out)
get_all env i s (k ∷ ks) out =
    let (s', v) = store_get s k (env.now_ms i) in get_all env (suc i) s' ks (reply_value out v)

unfoldable pub cmd_mget : Handler
unfolding get_all
cmd_mget env g argv out =
    if ltb (length argv) 2
    then (g, reply_wrong_arity out argv)
    else let keys = drop 1 argv in
      let (s, out') = get_all env 0 g.store keys (resp_reply_array_header out (length keys)) in
      (with_store g s, out')

-- The loop of MSET over the pairs that are left; the handler sees to it that their number is even.
unfoldable pub set_all : Store → List Bytes → Store
set_all s [] = s
set_all s (k ∷ []) = s
set_all s (k ∷ v ∷ rest) = set_all (store_set s k v (pos 0)).0 rest

unfoldable pub cmd_mset : Handler
unfolding set_all
cmd_mset env g argv out =
    if ltb (length argv) 3 || (length argv % 2 == 0)
    then (g, reply_wrong_arity out argv)
    else (with_store g (set_all g.store (drop 1 argv)), resp_reply_simple_string out (codes "OK"))

-- `keys_collect_cb` on the scratch buffer and the count of `keys_ctx_t`.
unfoldable pub keys_collect_cb : Entry → RespBuf × ℕ → RespBuf × ℕ
keys_collect_cb e (scratch, count) = (resp_reply_bulk_string scratch e.key, count + 1)

-- The copy of the scratch buffer grows `out` by the loop of `resp_buf_ensure`.
unfoldable pub append_scratch : RespBuf → RespBuf → RespBuf
append_scratch out scratch =
    if ltb 0 (length scratch.data_) then resp_buf_append out scratch.data_ else out

unfoldable pub cmd_keys : Handler
unfolding keys_collect_cb append_scratch
cmd_keys env g argv out =
    if not (length argv == 2)
    then (g, reply_wrong_arity out argv)
    else if not (bytes_eq (arg argv 1) (codes "*"))
    then (g, resp_reply_error out (codes "ERR only '*' pattern supported in KEYS"))
    else let (scratch, count) =
        store_foreach g.store (env.now_ms 0) keys_collect_cb (resp_buf_init, 0) in
      (g, append_scratch (resp_reply_array_header out count) scratch)
