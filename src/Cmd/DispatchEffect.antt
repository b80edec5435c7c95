-- ===== src/Cmd/DispatchEffect.antt =====
-- src/cmd.c: the effect of the handlers with arrays or without keys, and of `cmd_dispatch`.
use mathlib.Core.List.{append_assoc, append-nil}
use redis_server_c.Prelude.{
  ℕ, ◌%◌, refl, sym, ap, ◌∙◌, true, false, not, ◌||◌, List, [], ◌∷◌, ◌++◌, Bytes, codes, length,
  drop, ltb, ◌==◌, bytes_eq,
}
use redis_server_c.Store.Number.{print_ℕ}
use redis_server_c.Store.Ops.{store_foreach}
use redis_server_c.Store.Session.{final, step}
use redis_server_c.Store.Session
use redis_server_c.Resp.Reply.{RespBuf, resp_buf_init, crlf, resp_reply_array_header}
use redis_server_c.Resp.Buffer.{resp_buf_append-data_}
use redis_server_c.Persist.Status.{
  PersistStatus, persist_ok, persist_err_io, persist_err_format, persist_err_corrupt,
}
use redis_server_c.Cmd.Args.{arg, arg_eq_ci}
use redis_server_c.Cmd.State.{Env, Server, Handler, with_store}
use redis_server_c.Cmd.Many.{cmd_mget, cmd_mset, keys_collect_cb, append_scratch, cmd_keys}
use redis_server_c.Cmd.Admin.{
  saved, do_save, cmd_ping, cmd_echo, cmd_dbsize, cmd_flushdb, cmd_lastsave, cmd_save, cmd_bgsave,
}
use redis_server_c.Cmd.Dispatch.{
  CmdEntry, command_table, dispatch_in, unknown_command, cmd_dispatch,
}
use redis_server_c.Cmd.Replies.{append_scratch-data_}
use redis_server_c.Cmd.Effect.{
  Appends, Effect, simple_string-Appends, error-Appends, integer-Appends, replying, only_replying,
  choice, arity_checked,
}
use redis_server_c.Cmd.Effects.{
  get_all-Gets, set_all-Called, bulk_string-Appends, cmd_set-Effect, cmd_get-Effect, cmd_del-Effect,
  cmd_exists-Effect, cmd_expire-Effect, cmd_ttl_generic-Effect, cmd_incr-Effect, cmd_decr-Effect,
  cmd_incrby_generic-Effect,
}

header-Appends : (n : ℕ) → Appends (λ out. resp_reply_array_header out n)
unfolding resp_reply_array_header
header-Appends n = record {
  reply = b'*' ∷ (print_ℕ n ++ crlf);
  appended = λ out. resp_buf_append-data_ out (b'*' ∷ (print_ℕ n ++ crlf));
}

module _ (env : Env) (g : Server) (argv : List Bytes) where
  cmd_mget-Effect : Effect g (cmd_mget env g argv)
  unfolding cmd_mget
  cmd_mget-Effect =
      let keys = drop 1 argv in
      let r = get_all-Gets env 0 g.store keys in
      let h = header-Appends (length keys) in
      let start : RespBuf → RespBuf = λ out. resp_reply_array_header out (length keys) in
      arity_checked argv (ltb (length argv) 2) (record {
        server = with_store g r.store;
        calls = r.calls;
        reply = h.reply ++ r.reply;
        store_final = r.store_final;
        same_server = λ out. ap (with_store g) (r.same_store (start out));
        appended = λ out.
            r.appended (start out)
            ∙ ap (λ t. t ++ r.reply) (h.appended out)
            ∙ append_assoc out.data_ h.reply r.reply;
      })

  cmd_mset-Effect : Effect g (cmd_mset env g argv)
  unfolding cmd_mset
  cmd_mset-Effect =
      let (calls, e) = set_all-Called g.store (drop 1 argv) in
      arity_checked argv (ltb (length argv) 3 || (length argv % 2 == 0))
        (replying _ calls e (simple_string-Appends _))

  scratch-Appends :
      (n : ℕ) (scratch : RespBuf)
      → Appends (λ out. append_scratch (resp_reply_array_header out n) scratch)
  scratch-Appends n scratch =
      let h = header-Appends n in
      record {
        reply = h.reply ++ scratch.data_;
        appended = λ out.
            append_scratch-data_ (resp_reply_array_header out n) scratch
            ∙ ap (λ t. t ++ scratch.data_) (h.appended out)
            ∙ append_assoc out.data_ h.reply scratch.data_;
      }

  cmd_keys-Effect : Effect g (cmd_keys env g argv)
  unfolding cmd_keys
  cmd_keys-Effect =
      let done = store_foreach g.store (env.now_ms 0) keys_collect_cb (resp_buf_init, 0) in
      arity_checked argv (not (length argv == 2)) (
        choice (not (bytes_eq (arg argv 1) (codes "*"))) (only_replying (error-Appends _))
          (only_replying (scratch-Appends done.1 done.0)))

  cmd_ping-Effect : Effect g (cmd_ping env g argv)
  unfolding cmd_ping
  cmd_ping-Effect = arity_checked argv (ltb 2 (length argv)) (
      choice (length argv == 2) (only_replying (bulk_string-Appends _))
        (only_replying (simple_string-Appends _)))

  cmd_echo-Effect : Effect g (cmd_echo env g argv)
  unfolding cmd_echo
  cmd_echo-Effect =
      arity_checked argv (not (length argv == 2)) (only_replying (bulk_string-Appends _))

  cmd_dbsize-Effect : Effect g (cmd_dbsize env g argv)
  unfolding cmd_dbsize
  cmd_dbsize-Effect =
      arity_checked argv (not (length argv == 1)) (only_replying (integer-Appends _))

  cmd_flushdb-Effect : Effect g (cmd_flushdb env g argv)
  unfolding cmd_flushdb final step
  cmd_flushdb-Effect =
      arity_checked argv (not (length argv == 1))
        (replying _ (Session.flush ∷ []) refl (simple_string-Appends _))

  cmd_lastsave-Effect : Effect g (cmd_lastsave env g argv)
  unfolding cmd_lastsave
  cmd_lastsave-Effect =
      arity_checked argv (not (length argv == 1)) (only_replying (integer-Appends _))

  saved-Effect : (st : PersistStatus) → Effect g (λ out. saved env g out st)
  unfolding saved final
  saved-Effect persist_ok = replying _ [] refl (simple_string-Appends _)
  saved-Effect persist_err_io = only_replying (error-Appends _)
  saved-Effect persist_err_format = only_replying (error-Appends _)
  saved-Effect persist_err_corrupt = only_replying (error-Appends _)

  cmd_save-Effect : Effect g (cmd_save env g argv)
  unfolding cmd_save do_save
  cmd_save-Effect = arity_checked argv (not (length argv == 1)) (
      choice (length g.save_path == 0) (only_replying (error-Appends _))
        (saved-Effect env.save_status))

  cmd_bgsave-Effect : Effect g (cmd_bgsave env g argv)
  unfolding cmd_bgsave final
  cmd_bgsave-Effect = arity_checked argv (not (length argv == 1)) (
      choice (length g.save_path == 0) (only_replying (error-Appends _)) (
        choice (not env.fork_ok) (only_replying (error-Appends _))
          (replying _ [] refl (simple_string-Appends _))))

  unknown_command-Effect : Effect g (unknown_command env g argv)
  unfolding unknown_command
  unknown_command-Effect = only_replying (error-Appends _)

-- Every row of a table has a handler with an effect.
data AllHave : List CmdEntry → Type 0 where
  no_rows : AllHave []
  row :
      {name : Bytes} {handler : Handler} {table : List CmdEntry}
      → ((env : Env) (g : Server) (argv : List Bytes) → Effect g (handler env g argv))
      → AllHave table
      → AllHave ((name, handler) ∷ table)

dispatch_in-Effect :
    (table : List CmdEntry)
    → AllHave table
    → (env : Env) (g : Server) (argv : List Bytes) → Effect g (dispatch_in table env g argv)
unfolding dispatch_in
dispatch_in-Effect [] no_rows env g argv = unknown_command-Effect env g argv
dispatch_in-Effect ((name, handler) ∷ table) (row here rest) env g argv =
    choice (arg_eq_ci (arg argv 0) name) (here env g argv)
      (dispatch_in-Effect table rest env g argv)

-- The rows in the order of `COMMAND_TABLE`.
all_rows : AllHave command_table
unfolding command_table
all_rows = row cmd_ping-Effect (
    row cmd_echo-Effect (
      row cmd_set-Effect (
        row cmd_get-Effect (
          row cmd_mget-Effect (
            row cmd_mset-Effect (
              row cmd_del-Effect (
                row cmd_exists-Effect (
                  row cmd_keys-Effect (
                    row cmd_expire-Effect (
                      row (λ e g a. cmd_ttl_generic-Effect e g a false)
                        (row (λ e g a. cmd_ttl_generic-Effect e g a true)
                          (row cmd_incr-Effect (
                            row cmd_decr-Effect (
                              row (λ e g a. cmd_incrby_generic-Effect e g a false)
                                (row (λ e g a. cmd_incrby_generic-Effect e g a true)
                                  (row cmd_dbsize-Effect (
                                    row cmd_flushdb-Effect (
                                      row cmd_save-Effect (
                                        row cmd_bgsave-Effect
                                          (row cmd_lastsave-Effect no_rows))))))))))))))))))))

nothing : (g : Server) → Effect g (λ out. (g, out))
nothing g = only_replying (record { reply = []; appended = λ out. sym (append-nil out.data_) })

-- What any command leaves and replies does not depend on what the reply buffer holds, and the
-- store that it leaves is the one that some calls of the store leave.
pub cmd_dispatch-Effect :
    (env : Env) (g : Server) (argv : List Bytes) → Effect g (cmd_dispatch env g argv)
unfolding cmd_dispatch
cmd_dispatch-Effect env g argv =
    choice (length argv == 0) (nothing g) (dispatch_in-Effect command_table all_rows env g argv)
