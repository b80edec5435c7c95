-- ===== src/Cmd/Housekeeping.antt =====
-- src/cmd.c: the handlers that are not about keys keep their promises.
use redis_server_c.Prelude.{
  ◌≡◌, refl, ap, ◌∙◌, Bool, not, List, Bytes, codes, ◌++◌, length, ltb, ◌==◌, if◌then◌else◌,
}
use redis_server_c.Prelude.Int.{ℤ, pos}
use redis_server_c.Store.Ops.{store_size}
use redis_server_c.Store.Session.{store_size-card, store_flush-Refines}
use redis_server_c.Resp.Reply.{RespBuf, resp_reply_error}
use redis_server_c.Persist.Status.{
  PersistStatus, persist_ok, persist_err_format, persist_err_corrupt, persist_err_io,
}
use redis_server_c.Cmd.Args.{arg}
use redis_server_c.Cmd.State.{Env, Server, Handled}
use redis_server_c.Cmd.Admin.{
  cmd_ping, cmd_echo, cmd_dbsize, cmd_flushdb, cmd_lastsave, cmd_save, do_save, saved, cmd_bgsave,
  no_save_path,
}
use redis_server_c.Cmd.Dispatch.{unknown_command}
use redis_server_c.Cmd.Promise
use redis_server_c.Cmd.Promise.{Abstract, Outcome, failure, number, saved_with}
use redis_server_c.Cmd.Fulfils.{
  Represents, Fulfils, status-Prints, failure-Prints, number-Prints, bulk-Prints, answers, choose,
  Represents-with, arity-Fulfils,
}

-- A save that is recorded.
stamped :
    (a : Abstract) (g : Server) (t : ℤ)
    → Represents a g
    → Represents (record a { lastsave_time = t }) (record g { lastsave_time = t })
stamped a g t v = record { models = v.models; same_path = v.same_path; same_time = refl }

choose_alike :
    {b b' : Bool} {f h : RespBuf → Handled} {p q : Outcome}
    → b ≡ b'
    → Fulfils f p
    → Fulfils h q
    → Fulfils (λ out. if b then f out else h out) (if b' then p else q)
choose_alike {b' = b'} same x y = rw same (choose b' x y)

module _ (env : Env) (g : Server) (a : Abstract) (v : Represents a g) (argv : List Bytes) where
  pub cmd_ping-Fulfils : Fulfils (cmd_ping env g argv) (Promise.ping env a argv)
  unfolding cmd_ping Promise.ping
  cmd_ping-Fulfils = arity-Fulfils (ltb 2 (length argv)) argv v (
      choose (length argv == 2) (answers v (bulk-Prints (arg argv 1)))
        (answers v (status-Prints (codes "PONG"))))

  pub cmd_echo-Fulfils : Fulfils (cmd_echo env g argv) (Promise.echo env a argv)
  unfolding cmd_echo Promise.echo
  cmd_echo-Fulfils =
      arity-Fulfils (not (length argv == 2)) argv v (answers v (bulk-Prints (arg argv 1)))

  pub cmd_dbsize-Fulfils : Fulfils (cmd_dbsize env g argv) (Promise.dbsize env a argv)
  unfolding cmd_dbsize Promise.dbsize
  cmd_dbsize-Fulfils = arity-Fulfils (not (length argv == 1)) argv v (
      answers v (λ out.
        number-Prints (pos (store_size g.store)) out
        ∙ ap (λ n. out.data_ ++ Promise.print (number (pos n)))
            (store_size-card a.dict g.store v.models)))

  pub cmd_flushdb-Fulfils : Fulfils (cmd_flushdb env g argv) (Promise.flushdb env a argv)
  unfolding cmd_flushdb Promise.flushdb
  cmd_flushdb-Fulfils = arity-Fulfils (not (length argv == 1)) argv v (
      answers (Represents-with a g _ _ v (store_flush-Refines a.dict g.store v.models).0)
        (status-Prints (codes "OK")))

  pub cmd_lastsave-Fulfils : Fulfils (cmd_lastsave env g argv) (Promise.lastsave env a argv)
  unfolding cmd_lastsave Promise.lastsave
  cmd_lastsave-Fulfils = arity-Fulfils (not (length argv == 1)) argv v (
      answers v (λ out.
        number-Prints g.lastsave_time out
        ∙ ap (λ t. out.data_ ++ Promise.print (number t)) v.same_time))

  saved-Fulfils : (st : PersistStatus) → Fulfils (λ out. saved env g out st) (saved_with env a st)
  unfolding saved saved_with
  saved-Fulfils persist_ok = answers (stamped a g env.now_s v) (status-Prints (codes "OK"))
  saved-Fulfils persist_err_io = answers v (failure-Prints _)
  saved-Fulfils persist_err_format = answers v (failure-Prints _)
  saved-Fulfils persist_err_corrupt = answers v (failure-Prints _)

  -- The two refuse alike, since the paths agree.
  with_path :
      {f : RespBuf → Handled} {o : Outcome}
      → Fulfils f o
      → Fulfils
          (λ out. if length g.save_path == 0 then (g, resp_reply_error out no_save_path) else f out)
          (if length a.save_path == 0 then (a, failure no_save_path) else o)
  with_path x =
      choose_alike (ap (λ p. length p == 0) v.same_path) (answers v (failure-Prints no_save_path)) x

  pub cmd_save-Fulfils : Fulfils (cmd_save env g argv) (Promise.save env a argv)
  unfolding cmd_save do_save Promise.save
  cmd_save-Fulfils =
      arity-Fulfils (not (length argv == 1)) argv v (with_path (saved-Fulfils env.save_status))

  pub cmd_bgsave-Fulfils : Fulfils (cmd_bgsave env g argv) (Promise.bgsave env a argv)
  unfolding cmd_bgsave Promise.bgsave
  cmd_bgsave-Fulfils = arity-Fulfils (not (length argv == 1)) argv v (
      with_path (
        choose (not env.fork_ok) (answers v (failure-Prints (codes "ERR fork failed")))
          (answers (stamped a g env.now_s v) (status-Prints (codes "Background saving started")))))

  pub unknown_command-Fulfils : Fulfils (unknown_command env g argv) (Promise.unknown env a argv)
  unfolding unknown_command Promise.unknown
  unknown_command-Fulfils = answers v (failure-Prints _)
