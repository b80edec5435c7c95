-- ===== src/Cmd/Dispatch.antt =====
-- src/cmd.c: `COMMAND_TABLE` and `cmd_dispatch`.
use redis_server_c.Prelude.{List, [], ◌∷◌, ◌++◌, Bytes, codes, length, ◌==◌, if◌then◌else◌}
use redis_server_c.Resp.Reply.{resp_reply_error}
use redis_server_c.Cmd.Args.{arg_eq_ci, arg, safe_token, snprintf}
use redis_server_c.Cmd.State.{Handler}
use redis_server_c.Cmd.Keyspace.{
  cmd_set, cmd_get, cmd_del, cmd_exists, cmd_expire, cmd_ttl, cmd_pttl, cmd_incr, cmd_decr,
}
use redis_server_c.Cmd.Many.{cmd_incrby, cmd_decrby, cmd_mget, cmd_mset, cmd_keys}
use redis_server_c.Cmd.Admin.{
  cmd_ping, cmd_echo, cmd_dbsize, cmd_flushdb, cmd_lastsave, cmd_save, cmd_bgsave,
}

-- `cmd_entry_t`
abbrev pub CmdEntry : Type 0
CmdEntry = Bytes × Handler

abbrev pub named : Bytes → Handler → CmdEntry
named name handler = (name, handler)

unfoldable pub command_table : List CmdEntry
command_table =
    named (codes "PING") cmd_ping
    ∷ named (codes "ECHO") cmd_echo
    ∷ named (codes "SET") cmd_set
    ∷ named (codes "GET") cmd_get
    ∷ named (codes "MGET") cmd_mget
    ∷ named (codes "MSET") cmd_mset
    ∷ named (codes "DEL") cmd_del
    ∷ named (codes "EXISTS") cmd_exists
    ∷ named (codes "KEYS") cmd_keys
    ∷ named (codes "EXPIRE") cmd_expire
    ∷ named (codes "TTL") cmd_ttl
    ∷ named (codes "PTTL") cmd_pttl
    ∷ named (codes "INCR") cmd_incr
    ∷ named (codes "DECR") cmd_decr
    ∷ named (codes "INCRBY") cmd_incrby
    ∷ named (codes "DECRBY") cmd_decrby
    ∷ named (codes "DBSIZE") cmd_dbsize
    ∷ named (codes "FLUSHDB") cmd_flushdb
    ∷ named (codes "SAVE") cmd_save
    ∷ named (codes "BGSAVE") cmd_bgsave
    ∷ named (codes "LASTSAVE") cmd_lastsave
    ∷ []

unfoldable pub unknown_command : Handler
unknown_command env g argv out = (
  g,
  resp_reply_error out
      (snprintf 80 (codes "ERR unknown command '" ++ (safe_token (arg argv 0) ++ codes "'"))),
)

-- The loop over the rows of the table that are left.
unfoldable pub dispatch_in : List CmdEntry → Handler
unfolding unknown_command
dispatch_in [] env g argv out = unknown_command env g argv out
dispatch_in ((name, handler) ∷ table) env g argv out =
    if arg_eq_ci (arg argv 0) name then handler env g argv out else dispatch_in table env g argv out

unfoldable pub cmd_dispatch : Handler
unfolding dispatch_in
cmd_dispatch env g argv out =
    if length argv == 0 then (g, out) else dispatch_in command_table env g argv out
