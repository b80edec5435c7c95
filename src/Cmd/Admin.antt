-- ===== src/Cmd/Admin.antt =====
-- src/cmd.c: the handlers that are not about keys.
use redis_server_c.Prelude.{not, ◌++◌, Bytes, codes, length, take, ltb, ◌==◌, if◌then◌else◌}
use redis_server_c.Prelude.Int.{pos}
use redis_server_c.Store.Ops.{store_size, store_flush}
use redis_server_c.Resp.Reply.{
  RespBuf, resp_reply_simple_string, resp_reply_error, resp_reply_integer, resp_reply_bulk_string,
}
use redis_server_c.Cmd.Args.{arg, snprintf, reply_wrong_arity}
use redis_server_c.Cmd.State.{Env, Server, Handled, Handler, with_store}
use redis_server_c.Persist.Status.{PersistStatus, persist_ok, persist_strerror}

unfoldable pub cmd_ping : Handler
cmd_ping env g argv out =
    if ltb 2 (length argv)
    then (g, reply_wrong_arity out argv)
    else if length argv == 2
    then (g, resp_reply_bulk_string out (arg argv 1))
    else (g, resp_reply_simple_string out (codes "PONG"))

unfoldable pub cmd_echo : Handler
cmd_echo env g argv out =
    if not (length argv == 2)
    then (g, reply_wrong_arity out argv)
    else (g, resp_reply_bulk_string out (arg argv 1))

unfoldable pub cmd_dbsize : Handler
cmd_dbsize env g argv out =
    if not (length argv == 1)
    then (g, reply_wrong_arity out argv)
    else (g, resp_reply_integer out (pos (store_size g.store)))

unfoldable pub cmd_flushdb : Handler
cmd_flushdb env g argv out =
    if not (length argv == 1)
    then (g, reply_wrong_arity out argv)
    else (with_store g (store_flush g.store).0, resp_reply_simple_string out (codes "OK"))

unfoldable pub cmd_lastsave : Handler
cmd_lastsave env g argv out =
    if not (length argv == 1)
    then (g, reply_wrong_arity out argv)
    else (g, resp_reply_integer out g.lastsave_time)

-- The path holds at most 4095 bytes, without the NUL.
unfoldable pub cmd_set_save_path : Server → Bytes → Server
cmd_set_save_path g path = record g { save_path = take 4095 path }

abbrev pub no_save_path : Bytes
no_save_path = codes "ERR no save path configured (start server with --save <file>)"

-- What follows `persist_save`, by its status.
unfoldable pub saved : Env → Server → RespBuf → PersistStatus → Handled
unfolding persist_strerror
saved env g out persist_ok =
    (record g { lastsave_time = env.now_s }, resp_reply_simple_string out (codes "OK"))
saved env g out status =
    (g, resp_reply_error out (snprintf 128 (codes "ERR save failed: " ++ persist_strerror status)))

unfoldable pub do_save : Env → Server → RespBuf → Handled
unfolding saved
do_save env g out =
    if length g.save_path == 0
    then (g, resp_reply_error out no_save_path)
    else saved env g out env.save_status

unfoldable pub cmd_save : Handler
unfolding do_save
cmd_save env g argv out =
    if not (length argv == 1) then (g, reply_wrong_arity out argv) else do_save env g out

-- The parent's part; the child saves the store that it inherits and exits.
unfoldable pub cmd_bgsave : Handler
cmd_bgsave env g argv out =
    if not (length argv == 1)
    then (g, reply_wrong_arity out argv)
    else if length g.save_path == 0
    then (g, resp_reply_error out no_save_path)
    else if not env.fork_ok
    then (g, resp_reply_error out (codes "ERR fork failed"))
    else (
      record g { lastsave_time = env.now_s },
      resp_reply_simple_string out (codes "Background saving started"),
    )
