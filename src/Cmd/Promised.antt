-- ===== src/Cmd/Promised.antt =====
-- What each command promises, by its name.
use redis_server_c.Prelude.{
  true, false, not, ◌&&◌, true, Option, none, some, Bool, List, [], ◌∷◌, Bytes, codes, length,
  bytes_eq, ◌==◌, if◌then◌else◌,
}
use redis_server_c.Prelude.Int.{ℤ, pos, negsuc, ◌+ℤ◌, ltb_ℤ, in_int64}
use redis_server_c.Store.Number.{parse_strict_ll}
use redis_server_c.Cmd.Args.{arg}
use redis_server_c.Cmd.State.{Env}
use redis_server_c.Cmd.Promise
use redis_server_c.Cmd.Promise.{
  seconds, milliseconds, seconds_for, same_time, spelled, Abstract, Outcome, Meaning, failure,
  arity_text,
}

-- Just this outcome, or a list of the live keys in an order that is left open, or nothing at all.
pub data Promised : Type 0 where
  exactly : Outcome → Promised
  lists_keys : Abstract → ℤ → Promised
  undefined : Promised

abbrev pub Command : Type 0
Command = Env → Abstract → List Bytes → Promised

abbrev pub fixed : Meaning → Command
fixed f env a argv = exactly (f env a argv)

-- The time that this number of units from now is, and the units in milliseconds, are in `int64_t`.
abbrev pub in_range : Env → (ℤ → ℤ) → ℤ → Bool
in_range env in_ms n = in_int64 (in_ms n) && in_int64 (env.now_ms 0 +ℤ in_ms n)

-- A number that is not positive is refused before it is used.
abbrev pub lifetime_fits : Env → (ℤ → ℤ) → Option ℤ → Bool
lifetime_fits env in_ms none = true
lifetime_fits env in_ms (some n) = if ltb_ℤ (pos 0) n then in_range env in_ms n else true

abbrev pub option_fits : Env → List Bytes → Bool
option_fits env argv =
    if spelled (arg argv 3) (codes "EX")
    then lifetime_fits env seconds (parse_strict_ll (arg argv 4))
    else if spelled (arg argv 3) (codes "PX")
    then lifetime_fits env milliseconds (parse_strict_ll (arg argv 4))
    else true

abbrev pub set_fits : Env → List Bytes → Bool
set_fits env argv = if length argv == 5 then option_fits env argv else true

abbrev pub number_fits : Env → Option ℤ → Bool
number_fits env none = true
number_fits env (some n) = in_range env seconds n

abbrev pub expire_fits : Env → List Bytes → Bool
expire_fits env argv =
    if length argv == 3 then number_fits env (parse_strict_ll (arg argv 2)) else true

-- Nothing is promised of a command whose time `int64_t` does not hold.
abbrev pub timed : (Env → List Bytes → Bool) → Meaning → Command
timed fits f env a argv = if fits env argv then exactly (f env a argv) else undefined

unfoldable pub keys : Command
keys env a argv =
    if not (length argv == 2)
    then exactly (a, failure (arity_text argv))
    else if not (bytes_eq (arg argv 1) (codes "*"))
    then exactly (a, failure (codes "ERR only '*' pattern supported in KEYS"))
    else lists_keys a (env.now_ms 0)

abbrev row : Bytes → Command → Bytes × Command
row name command = (name, command)

unfoldable pub commands : List (Bytes × Command)
commands =
    row (codes "PING") (fixed Promise.ping)
    ∷ row (codes "ECHO") (fixed Promise.echo)
    ∷ row (codes "SET") (timed set_fits Promise.set)
    ∷ row (codes "GET") (fixed Promise.get)
    ∷ row (codes "MGET") (fixed Promise.mget)
    ∷ row (codes "MSET") (fixed Promise.mset)
    ∷ row (codes "DEL") (fixed Promise.del)
    ∷ row (codes "EXISTS") (fixed Promise.exists)
    ∷ row (codes "KEYS") keys
    ∷ row (codes "EXPIRE") (timed expire_fits Promise.expire)
    ∷ row (codes "TTL") (fixed (Promise.ttl seconds_for))
    ∷ row (codes "PTTL") (fixed (Promise.ttl same_time))
    ∷ row (codes "INCR") (fixed (Promise.by_one (pos 1)))
    ∷ row (codes "DECR") (fixed (Promise.by_one (negsuc 0)))
    ∷ row (codes "INCRBY") (fixed (Promise.by_number false))
    ∷ row (codes "DECRBY") (fixed (Promise.by_number true))
    ∷ row (codes "DBSIZE") (fixed Promise.dbsize)
    ∷ row (codes "FLUSHDB") (fixed Promise.flushdb)
    ∷ row (codes "SAVE") (fixed Promise.save)
    ∷ row (codes "BGSAVE") (fixed Promise.bgsave)
    ∷ row (codes "LASTSAVE") (fixed Promise.lastsave)
    ∷ []

unfoldable pub promised_in : List (Bytes × Command) → Command
promised_in [] env a argv = exactly (Promise.unknown env a argv)
promised_in ((name, command) ∷ rest) env a argv =
    if spelled (arg argv 0) name then command env a argv else promised_in rest env a argv

-- What a command with at least one argument promises.
unfoldable pub promised : Command
unfolding commands promised_in
promised = promised_in commands
