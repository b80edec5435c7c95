-- ===== src/Cmd/Tests.antt =====
-- The theorems about src/cmd.c at a small command, and runs of the dispatcher.
use redis_server_c.Prelude.{◌≡◌, refl, true, List, [], ◌∷◌, ◌++◌, arith, Bytes, codes}
use redis_server_c.Prelude.Int.{pos}
use redis_server_c.Store.Ops.{store_create}
use redis_server_c.Resp.Reply.{resp_buf_init, crlf}
use redis_server_c.Cmd.Args.{arg_eq_ci, safe_token}
use redis_server_c.Cmd.State.{Env, Server}
use redis_server_c.Persist.Status.{persist_ok}
use redis_server_c.Cmd.Dispatch.{cmd_dispatch}
use redis_server_c.Cmd.Reply.{Replied}
use redis_server_c.Cmd.Promise.{Abstract}
use redis_server_c.Cmd.Promised.{promised}
use redis_server_c.Cmd.Fulfils.{Represents}
use redis_server_c.Cmd.Contract.{Keeps, cmd_dispatch-Keeps}
use redis_server_c.Store.Spec.{empty}
use redis_server_c.Store.Session.{store_create-Models}
use redis_server_c.Cmd.OneReply.{cmd_dispatch-Replied}

abbrev env : Env
env = record { now_ms = λ i. pos 1000; now_s = pos 1; save_status = persist_ok; fork_ok = true }

abbrev server : Server
server = record { store = store_create; save_path = []; lastsave_time = pos 0 }

abbrev set_k : List Bytes
set_k = codes "set" ∷ codes "k" ∷ codes "v" ∷ codes "Px" ∷ codes "250" ∷ []

abbrev abstract : Abstract
abstract = record { dict = empty; save_path = []; lastsave_time = pos 0 }

empty-Represents : Represents abstract server
empty-Represents = record { models = store_create-Models; same_path = refl; same_time = refl }

cmd_dispatch-Keeps_example : Keeps (cmd_dispatch env server set_k) (promised env abstract set_k)
cmd_dispatch-Keeps_example =
    cmd_dispatch-Keeps env server abstract empty-Represents set_k (unfold empty in omega arith)
      (unfold empty in omega arith)

abbrev forged : Bytes
forged = codes "FOO" ++ crlf ++ codes "+OK"

name_samples :
    (arg_eq_ci (codes "gEt") (codes "GET") ≡ true) × (safe_token forged ≡ codes "foo??+ok")
unfolding arg_eq_ci safe_token
name_samples = (refl, refl)

cmd_dispatch-Replied_example :
    Replied resp_buf_init (cmd_dispatch env server (forged ∷ []) resp_buf_init).1
cmd_dispatch-Replied_example =
    cmd_dispatch-Replied env server (forged ∷ []) resp_buf_init (omega arith)
