-- ===== src/Cmd/Contract.antt =====
-- `cmd_dispatch` of src/cmd.c keeps the promise of the command that it is given.
use redis_server_c.Prelude.{
  Bool-cases, inl, inr, ◌+◌, ◌^◌, ◌≤◌, ◌≡◌, Bool, true, false, not, List, [], ◌∷◌, arith, Bytes,
  codes, length, bytes_eq, ◌==◌, if◌then◌else◌,
}
use redis_server_c.Resp.Reply.{RespBuf}
use redis_server_c.Cmd.Args.{arg, arg_eq_ci, reply_wrong_arity}
use redis_server_c.Cmd.State.{Env, Server, Handled, Handler}
use redis_server_c.Cmd.Many.{cmd_keys}
use redis_server_c.Cmd.Dispatch.{CmdEntry, command_table, dispatch_in, cmd_dispatch}
use redis_server_c.Cmd.Promise
use redis_server_c.Cmd.Wording.{arg_eq_ci-spelled}
use redis_server_c.Cmd.Promise.{spelled, Abstract, Meaning, arity_text}
use redis_server_c.Cmd.Promised
use redis_server_c.Cmd.Promised.{
  Promised, exactly, lists_keys, undefined, Command, fixed, timed, set_fits, expire_fits, commands,
  promised_in, promised,
}
use redis_server_c.Cmd.Fulfils.{Represents, Fulfils, failure-Prints, answers}
use redis_server_c.Cmd.Keeps.{
  cmd_get-Fulfils, cmd_mget-Fulfils, cmd_del-Fulfils, cmd_exists-Fulfils, cmd_expire-Fulfils,
  cmd_ttl_generic-Fulfils, cmd_set-Fulfils, cmd_mset-Fulfils, cmd_incr-Fulfils, cmd_decr-Fulfils,
  cmd_incrby_generic-Fulfils,
}
use redis_server_c.Cmd.Listing.{ListsKeys, keys-ListsKeys}
use redis_server_c.Cmd.Housekeeping.{
  cmd_ping-Fulfils, cmd_echo-Fulfils, cmd_dbsize-Fulfils, cmd_flushdb-Fulfils, cmd_lastsave-Fulfils,
  cmd_save-Fulfils, cmd_bgsave-Fulfils, unknown_command-Fulfils,
}

abbrev pub Keeps : (RespBuf → Handled) → Promised → Type 0
Keeps f (exactly o) = Fulfils f o
Keeps f (lists_keys a now) = ListsKeys f a now
Keeps f undefined = Unit

choose-Keeps :
    (b : Bool) (f h : RespBuf → Handled) (p q : Promised)
    → Keeps f p
    → Keeps h q
    → Keeps (λ out. if b then f out else h out) (if b then p else q)
choose-Keeps true f h p q x y = x
choose-Keeps false f h p q x y = y

alike-Keeps :
    (b b' : Bool) (f h : RespBuf → Handled) (p q : Promised)
    → b ≡ b'
    → Keeps f p
    → Keeps h q
    → Keeps (λ out. if b then f out else h out) (if b' then p else q)
alike-Keeps b b' f h p q same x y = rw same (choose-Keeps b' f h p q x y)

-- The handler keeps the promise of the command whenever the map has room for its arguments.
abbrev Implements : Handler → Command → Type 0
Implements handler command =
    (env : Env) (g : Server) (a : Abstract)
    → Represents a g
    → (argv : List Bytes) → 1 ≤ length argv
    → a.dict.card + length argv ≤ 2 ^ 62
    → Keeps (handler env g argv) (command env a argv)

-- A handler that needs no room.
anywhere :
    {handler : Handler} {meaning : Meaning}
    → ((env : Env) (g : Server) (a : Abstract)
        → Represents a g
        → (argv : List Bytes) → Fulfils (handler env g argv) (meaning env a argv))
    → Implements handler (fixed meaning)
anywhere kept env g a v argv named room = kept env g a v argv

-- Nothing is promised where the time does not fit.
timely :
    (fits : Env → List Bytes → Bool) (meaning : Meaning) (env : Env) (a : Abstract)
    (argv : List Bytes) (f : RespBuf → Handled)
    → (fits env argv ≡ true → Fulfils f (meaning env a argv))
    → Keeps f (timed fits meaning env a argv)
timely fits meaning env a argv f kept = elim (Bool-cases (fits env argv)) [
  | inl there ↦ rw there (kept there)
  | inr beyond ↦ rw beyond tt
]

cmd_keys-Implements : Implements cmd_keys Promised.keys
unfolding cmd_keys Promised.keys reply_wrong_arity
cmd_keys-Implements env g a v argv named room =
    choose-Keeps (not (length argv == 2)) _ _ _ _ (answers v (failure-Prints (arity_text argv))) (
      choose-Keeps (not (bytes_eq (arg argv 1) (codes "*"))) _ _ _ _ (answers v (failure-Prints _))
        (keys-ListsKeys env g a v))

-- Two tables with the same names, row by row.
data Tables : List CmdEntry → List (Bytes × Command) → Type 0 where
  no_rows : Tables [] []
  row :
      {name : Bytes} {handler : Handler} {command : Command} {table : List CmdEntry}
      {rest : List (Bytes × Command)}
      → Implements handler command
      → Tables table rest
      → Tables ((name, handler) ∷ table) ((name, command) ∷ rest)

command_table-Tables : Tables command_table commands
unfolding command_table commands
command_table-Tables = row (anywhere cmd_ping-Fulfils) (
    row (anywhere cmd_echo-Fulfils) (
      row
        (λ e g a v argv named room.
          timely set_fits Promise.set e a argv _ (cmd_set-Fulfils e g a v argv named room))
        (row (anywhere cmd_get-Fulfils) (
          row (anywhere cmd_mget-Fulfils) (
            row cmd_mset-Fulfils (
              row (anywhere cmd_del-Fulfils) (
                row (anywhere cmd_exists-Fulfils) (
                  row cmd_keys-Implements (
                    row
                      (λ e g a v argv named room.
                        timely expire_fits Promise.expire e a argv _
                          (cmd_expire-Fulfils e g a v argv))
                      (row (λ e g a v argv named room. cmd_ttl_generic-Fulfils e g a v argv false)
                        (row (λ e g a v argv named room. cmd_ttl_generic-Fulfils e g a v argv true)
                          (row cmd_incr-Fulfils (
                            row cmd_decr-Fulfils (
                              row
                                (λ e g a v argv named room.
                                  cmd_incrby_generic-Fulfils e g a v argv named room false)
                                (row
                                  (λ e g a v argv named room.
                                    cmd_incrby_generic-Fulfils e g a v argv named room true)
                                  (row (anywhere cmd_dbsize-Fulfils) (
                                    row (anywhere cmd_flushdb-Fulfils) (
                                      row (anywhere cmd_save-Fulfils) (
                                        row (anywhere cmd_bgsave-Fulfils) (
                                          row (anywhere cmd_lastsave-Fulfils)
                                            no_rows))))))))))))))))))))

dispatch_in-Implements :
    (table : List CmdEntry) (rest : List (Bytes × Command))
    → Tables table rest
    → Implements (dispatch_in table) (promised_in rest)
unfolding dispatch_in promised_in
dispatch_in-Implements [] [] no_rows env g a v argv named room =
    unknown_command-Fulfils env g a v argv
dispatch_in-Implements ((name, handler) ∷ table) ((_, command) ∷ rest) (row here later) env g a v
      argv named room =
    alike-Keeps (arg_eq_ci (arg argv 0) name) (spelled (arg argv 0) name) _ _ _ _
      (arg_eq_ci-spelled (arg argv 0) name) (here env g a v argv named room)
      (dispatch_in-Implements table rest later env g a v argv named room)
dispatch_in-Implements [] (_ ∷ rest) odd env g a v argv named room = elim odd [ ]
dispatch_in-Implements ((name, handler) ∷ table) [] odd env g a v argv named room = elim odd [ ]

-- A command with a name, on a server that stands for a map with room for its arguments, leaves a
-- server that stands for the map that the command promises and appends just the reply that it
-- promises, whatever the reply buffer holds; for KEYS the reply lists each live key once. Nothing
-- is promised of a SET or EXPIRE whose time int64_t does not hold.
pub cmd_dispatch-Keeps :
    (env : Env) (g : Server) (a : Abstract)
    → Represents a g
    → (argv : List Bytes) → 1 ≤ length argv
    → a.dict.card + length argv ≤ 2 ^ 62
    → Keeps (cmd_dispatch env g argv) (promised env a argv)
unfolding cmd_dispatch promised
cmd_dispatch-Keeps env g a v (name ∷ args) named room =
    let some_name : (length (name ∷ args) == 0) ≡ false = ground arith in
    rw (some_name, cmd_dispatch)
      (dispatch_in-Implements command_table commands command_table-Tables env g a v (name ∷ args)
        named room)
cmd_dispatch-Keeps env g a v [] named room = absurd (omega arith)
