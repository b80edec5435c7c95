-- ===== src/Cmd/Roomy.antt =====
-- The commands by their names: none promises more new keys than it has arguments.
use redis_server_c.Prelude.{
  ℕ, ◌+◌, ◌≤◌, Bool, true, false, not, List, [], ◌∷◌, arith, Bytes, codes, length, bytes_eq, ◌==◌,
  if◌then◌else◌,
}
use redis_server_c.Prelude.Int.{pos, negsuc}
use redis_server_c.Cmd.Args.{arg}
use redis_server_c.Cmd.State.{Env}
use redis_server_c.Cmd.Promise
use redis_server_c.Cmd.Promise.{
  spelled, Meaning, seconds_for, same_time, Abstract, Reply, Outcome, Meaning, done, unless_arity,
  stored, stored_for, seconds, milliseconds, get_each, set_each, del_each, exists_each, expire_in,
  add, add_parsed, saved_with,
}
use redis_server_c.Cmd.Promised
use redis_server_c.Cmd.Promised.{
  Promised, exactly, lists_keys, undefined, timed, set_fits, expire_fits, Command, fixed, commands,
  promised_in, promised,
}
use redis_server_c.Cmd.Room.{
  Fits, ping-Fits, echo-Fits, set-Fits, get-Fits, mget-Fits, mset-Fits, del-Fits, exists-Fits,
  expire-Fits, ttl-Fits, by_one-Fits, by_number-Fits, dbsize-Fits, flushdb-Fits, save-Fits,
  bgsave-Fits, lastsave-Fits,
}

-- What the promise leaves has room for as many keys as there are arguments.
abbrev pub Roomy : ℕ → Abstract → Promised → Type 0
Roomy n a (exactly o) = Fits n a o
Roomy n a undefined = Unit
Roomy n a (lists_keys b now) = b.dict.card ≤ a.dict.card + n

abbrev Bounded : Command → Type 0
Bounded f =
    (env : Env) (a : Abstract) (argv : List Bytes)
    → 1 ≤ length argv
    → Roomy (length argv) a (f env a argv)

either-Roomy :
    (n : ℕ) (a : Abstract) (p q : Promised) (b : Bool)
    → Roomy n a p
    → Roomy n a q
    → Roomy n a (if b then p else q)
either-Roomy n a p q true h k = h
either-Roomy n a p q false h k = k

timed-Roomy :
    (fits : Env → List Bytes → Bool) (meaning : Meaning) (env : Env) (a : Abstract)
    (argv : List Bytes)
    → Fits (length argv) a (meaning env a argv)
    → Roomy (length argv) a (timed fits meaning env a argv)
timed-Roomy fits meaning env a argv h =
    either-Roomy (length argv) a (exactly (meaning env a argv)) undefined (fits env argv) h tt

keys-Bounded : Bounded Promised.keys
unfolding Promised.keys
keys-Bounded env a argv named =
    either-Roomy _ a _ _ (not (length argv == 2)) (omega arith)
      (either-Roomy _ a _ _ (not (bytes_eq (arg argv 1) (codes "*"))) (omega arith) (omega arith))

-- Every row of a table.
data AllBounded : List (Bytes × Command) → Type 0 where
  no_rows : AllBounded []
  row :
      {name : Bytes} {command : Command} {rest : List (Bytes × Command)}
      → Bounded command
      → AllBounded rest
      → AllBounded ((name, command) ∷ rest)

commands-AllBounded : AllBounded commands
unfolding commands
commands-AllBounded = row ping-Fits (
    row echo-Fits (
      row (λ e a v n. timed-Roomy set_fits Promise.set e a v (set-Fits e a v n))
        (row get-Fits (
          row mget-Fits (
            row mset-Fits (
              row del-Fits (
                row exists-Fits (
                  row keys-Bounded (
                    row
                      (λ e a v n.
                        timed-Roomy expire_fits Promise.expire e a v (expire-Fits e a v n))
                      (row (λ e a v n. ttl-Fits e a v n seconds_for)
                        (row (λ e a v n. ttl-Fits e a v n same_time)
                          (row (λ e a v n. by_one-Fits e a v n (pos 1))
                            (row (λ e a v n. by_one-Fits e a v n (negsuc 0))
                              (row (λ e a v n. by_number-Fits e a v n false)
                                (row (λ e a v n. by_number-Fits e a v n true)
                                  (row dbsize-Fits (
                                    row flushdb-Fits (
                                      row save-Fits (
                                        row bgsave-Fits
                                          (row lastsave-Fits no_rows))))))))))))))))))))

promised_in-Bounded : (rows : List (Bytes × Command)) → AllBounded rows → Bounded (promised_in rows)
unfolding promised_in Promise.unknown
promised_in-Bounded [] no_rows env a argv named = omega arith
promised_in-Bounded ((name, command) ∷ rest) (row here later) env a argv named =
    either-Roomy _ a _ _ (spelled (arg argv 0) name) (here env a argv named)
      (promised_in-Bounded rest later env a argv named)

pub promised-Roomy :
    (env : Env) (a : Abstract) (argv : List Bytes)
    → 1 ≤ length argv
    → Roomy (length argv) a (promised env a argv)
unfolding promised
promised-Roomy = promised_in-Bounded commands commands-AllBounded
