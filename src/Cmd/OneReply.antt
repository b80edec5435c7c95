-- ===== src/Cmd/OneReply.antt =====
-- `cmd_dispatch` of src/cmd.c: one command in, one reply out.
use redis_server_c.Prelude.{
  ◌≤◌, ◌≡◌, refl, true, false, List, [], ◌∷◌, arith, Bytes, codes, length, ◌==◌,
}
use redis_server_c.Resp.Reply.{RespBuf}
use redis_server_c.Cmd.Args.{arg, arg_eq_ci}
use redis_server_c.Cmd.State.{Env, Server, Handler}
use redis_server_c.Cmd.Dispatch.{
  CmdEntry, command_table, dispatch_in, unknown_command, cmd_dispatch,
}
use redis_server_c.Cmd.Reply.{no_breaks, Replied, resp_reply_error-Replied, quoted_one_line}
use redis_server_c.Cmd.Answers.{
  Answers, answered, both, cmd_ping-Answers, cmd_echo-Answers, cmd_set-Answers, cmd_get-Answers,
  cmd_mset-Answers, cmd_del-Answers, cmd_exists-Answers, cmd_expire-Answers,
  cmd_ttl_generic-Answers, cmd_incr-Answers, cmd_decr-Answers, cmd_incrby_generic-Answers,
  cmd_dbsize-Answers, cmd_flushdb-Answers, cmd_save-Answers, cmd_bgsave-Answers,
  cmd_lastsave-Answers,
}
use redis_server_c.Cmd.Replies.{cmd_mget-Answers, cmd_keys-Answers}

-- Every row of a table has a handler that appends one reply.
data AllAnswer : List CmdEntry → Type 0 where
  no_rows : AllAnswer []
  row :
      {name : Bytes} {handler : Handler} {table : List CmdEntry}
      → ((env : Env) (g : Server) (argv : List Bytes) (out : RespBuf)
          → Answers out (handler env g argv out))
      → AllAnswer table
      → AllAnswer ((name, handler) ∷ table)

dispatch_in-Answers :
    (table : List CmdEntry)
    → AllAnswer table
    → (env : Env) (g : Server) (argv : List Bytes) (out : RespBuf)
    → Answers out (dispatch_in table env g argv out)
unfolding dispatch_in unknown_command no_breaks
dispatch_in-Answers [] no_rows env g argv out = answered (
    resp_reply_error-Replied out _
      (quoted_one_line 80 (codes "ERR unknown command '") (arg argv 0) (codes "'") refl refl))
dispatch_in-Answers ((name, handler) ∷ table) (row here rest) env g argv out =
    both (Answers out) (arg_eq_ci (arg argv 0) name) (here env g argv out)
      (dispatch_in-Answers table rest env g argv out)

command_table-AllAnswer : AllAnswer command_table
unfolding command_table
command_table-AllAnswer = row cmd_ping-Answers (
    row cmd_echo-Answers (
      row cmd_set-Answers (
        row cmd_get-Answers (
          row cmd_mget-Answers (
            row cmd_mset-Answers (
              row cmd_del-Answers (
                row cmd_exists-Answers (
                  row cmd_keys-Answers (
                    row cmd_expire-Answers (
                      row (λ e g a o. cmd_ttl_generic-Answers e g a o false)
                        (row (λ e g a o. cmd_ttl_generic-Answers e g a o true)
                          (row cmd_incr-Answers (
                            row cmd_decr-Answers (
                              row (λ e g a o. cmd_incrby_generic-Answers e g a o false)
                                (row (λ e g a o. cmd_incrby_generic-Answers e g a o true)
                                  (row cmd_dbsize-Answers (
                                    row cmd_flushdb-Answers (
                                      row cmd_save-Answers (
                                        row cmd_bgsave-Answers
                                          (row cmd_lastsave-Answers no_rows))))))))))))))))))))

-- A command with a name, known or not and with any arguments, appends exactly one reply of the
-- protocol to the buffer, and its line, where it has one, has no line break inside.
pub cmd_dispatch-Replied :
    (env : Env) (g : Server) (argv : List Bytes) (out : RespBuf)
    → 1 ≤ length argv
    → Replied out (cmd_dispatch env g argv out).1
unfolding cmd_dispatch
cmd_dispatch-Replied env g [] out h = absurd (omega arith)
cmd_dispatch-Replied env g (name ∷ args) out h =
    let named : (length (name ∷ args) == 0) ≡ false = ground arith in
    rw (named, cmd_dispatch)
      (dispatch_in-Answers command_table command_table-AllAnswer env g (name ∷ args) out).replied
