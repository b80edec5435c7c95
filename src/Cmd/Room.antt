-- ===== src/Cmd/Room.antt =====
-- No command promises more new keys than it has arguments.
use redis_server_c.Prelude.{
  ℕ, suc, ◌+◌, ◌≤◌, Bool, List, [], ◌∷◌, Option, none, some, arith, Bytes, length, drop,
  length-drop, if◌then◌else◌,
}
use redis_server_c.Prelude.Int.{ℤ, pos, ◌+ℤ◌, ◌-ℤ◌}
use redis_server_c.Store.Chain.{Entry}
use redis_server_c.Store.Number.{parse_strict_ll}
use redis_server_c.Store.Spec
use redis_server_c.Store.Spec.{Dict}
use redis_server_c.Store.Session.{card-put, card-incrby}
use redis_server_c.Persist.Status.{
  PersistStatus, persist_ok, persist_err_io, persist_err_format, persist_err_corrupt,
}
use redis_server_c.Cmd.Args.{arg}
use redis_server_c.Cmd.State.{Env}
use redis_server_c.Cmd.Promise
use redis_server_c.Cmd.Promise.{
  Abstract, Reply, Outcome, Meaning, done, unless_arity, stored, stored_for, seconds, milliseconds,
  get_each, set_each, del_each, exists_each, expire_in, add, add_parsed, saved_with,
}

-- The outcome has at most `n` keys more.
abbrev pub Fits : ℕ → Abstract → Outcome → Type 0
Fits n a o = o.0.dict.card ≤ a.dict.card + n

-- The loops add a key for each argument at most.
get_each-card :
    (env : Env) (i : ℕ) (ks : List Bytes) (d : Dict)
    → (get_each env i d ks).0.card ≤ d.card + length ks
unfolding get_each Spec.get
get_each-card env i [] d = omega arith
get_each-card env i (k ∷ ks) d =
    let d' = (Spec.get d k (env.now_ms i)).0 in
    omega (arith, card-put d k (Spec.at d k (env.now_ms i)), get_each-card env (suc i) ks d')

exists_each-card :
    (env : Env) (i : ℕ) (ks : List Bytes) (d : Dict) (n : ℕ)
    → (exists_each env i d ks n).0.card ≤ d.card + length ks
unfolding exists_each Spec.exists
exists_each-card env i [] d n = omega arith
exists_each-card env i (k ∷ ks) d n =
    let (d', one) = Spec.exists d k (env.now_ms i) in
    omega (
      arith,
      card-put d k (Spec.at d k (env.now_ms i)),
      exists_each-card env (suc i) ks d' (n + one),
    )

del_each-card : (ks : List Bytes) (d : Dict) (n : ℕ) → (del_each d ks n).0.card ≤ d.card + length ks
unfolding del_each Spec.del
del_each-card [] d n = omega arith
del_each-card (k ∷ ks) d n =
    let (d', one) = Spec.del d k in omega (arith, card-put d k none, del_each-card ks d' (n + one))

set_each-card : (ks : List Bytes) (d : Dict) → (set_each d ks).card ≤ d.card + length ks
unfolding set_each Spec.set
set_each-card [] d = omega arith
set_each-card (k ∷ []) d = omega arith
set_each-card (k ∷ v ∷ rest) d =
    let d' = (Spec.set d k v (pos 0)).0 in
    omega (
      arith,
      card-put d k (some (record { key = k; val = v; expire_at_ms = pos 0 })),
      set_each-card rest d',
    )

-- The promises of a command with a name.
module _ (env : Env) (a : Abstract) (argv : List Bytes) (some_name : 1 ≤ length argv) where
  few : length (drop 1 argv) ≤ length argv
  few = omega (arith, length-drop 1 argv)

  stored-Fits : (x : ℤ) → Fits (length argv) a (stored a argv x)
  unfolding Spec.set
  stored-Fits x =
      let e : Entry = record { key = arg argv 1; val = arg argv 2; expire_at_ms = x } in
      omega (arith, card-put a.dict (arg argv 1) (some e))

  stored_for-Fits :
      (in_ms : ℤ → ℤ) (n : Option ℤ) → Fits (length argv) a (stored_for env a argv in_ms n)
  unfolding stored_for
  stored_for-Fits in_ms none = omega arith
  stored_for-Fits in_ms (some n) = ground (arith, stored-Fits (env.now_ms 0 +ℤ in_ms n))

  pub set-Fits : Fits (length argv) a (Promise.set env a argv)
  unfolding Promise.set
  set-Fits =
      let n = parse_strict_ll (arg argv 4) in
      ground (arith, stored-Fits (pos 0), stored_for-Fits seconds n, stored_for-Fits milliseconds n)

  pub get-Fits : Fits (length argv) a (Promise.get env a argv)
  unfolding Promise.get Spec.get
  get-Fits =
      ground (arith, card-put a.dict (arg argv 1) (Spec.at a.dict (arg argv 1) (env.now_ms 0)))

  pub mget-Fits : Fits (length argv) a (Promise.mget env a argv)
  unfolding Promise.mget
  mget-Fits = ground (arith, few, get_each-card env 0 (drop 1 argv) a.dict)

  pub mset-Fits : Fits (length argv) a (Promise.mset env a argv)
  unfolding Promise.mset
  mset-Fits = ground (arith, few, set_each-card (drop 1 argv) a.dict)

  pub del-Fits : Fits (length argv) a (Promise.del env a argv)
  unfolding Promise.del
  del-Fits = ground (arith, few, del_each-card (drop 1 argv) a.dict 0)

  pub exists-Fits : Fits (length argv) a (Promise.exists env a argv)
  unfolding Promise.exists
  exists-Fits = ground (arith, few, exists_each-card env 0 (drop 1 argv) a.dict 0)

  expire_in-Fits : (n : Option ℤ) → Fits (length argv) a (expire_in env a argv n)
  unfolding expire_in Spec.expire
  expire_in-Fits none = omega arith
  expire_in-Fits (some n) = omega (arith, card-put a.dict (arg argv 1) _)

  pub expire-Fits : Fits (length argv) a (Promise.expire env a argv)
  unfolding Promise.expire
  expire-Fits = ground (arith, expire_in-Fits (parse_strict_ll (arg argv 2)))

  pub ttl-Fits : (of_ms : ℕ → ℕ) → Fits (length argv) a (Promise.ttl of_ms env a argv)
  unfolding Promise.ttl Spec.ttl
  ttl-Fits of_ms =
      ground (arith, card-put a.dict (arg argv 1) (Spec.at a.dict (arg argv 1) (env.now_ms 0)))

  add-Fits : (delta : ℤ) → Fits (length argv) a (add env a argv delta)
  unfolding add
  add-Fits delta = omega (arith, card-incrby a.dict (arg argv 1) delta (env.now_ms 0))

  pub by_one-Fits : (delta : ℤ) → Fits (length argv) a (Promise.by_one delta env a argv)
  unfolding Promise.by_one
  by_one-Fits delta = ground (arith, add-Fits delta)

  add_parsed-Fits :
      (negated : Bool) (n : Option ℤ) → Fits (length argv) a (add_parsed negated env a argv n)
  unfolding add_parsed
  add_parsed-Fits negated none = omega arith
  add_parsed-Fits negated (some delta) =
      ground (arith, add-Fits (if negated then pos 0 -ℤ delta else delta))

  pub by_number-Fits :
      (negated : Bool) → Fits (length argv) a (Promise.by_number negated env a argv)
  unfolding Promise.by_number
  by_number-Fits negated = ground (arith, add_parsed-Fits negated (parse_strict_ll (arg argv 2)))

  pub ping-Fits : Fits (length argv) a (Promise.ping env a argv)
  unfolding Promise.ping
  ping-Fits = ground arith

  pub echo-Fits : Fits (length argv) a (Promise.echo env a argv)
  unfolding Promise.echo
  echo-Fits = ground arith

  pub dbsize-Fits : Fits (length argv) a (Promise.dbsize env a argv)
  unfolding Promise.dbsize
  dbsize-Fits = ground arith

  pub flushdb-Fits : Fits (length argv) a (Promise.flushdb env a argv)
  unfolding Promise.flushdb Spec.flush Spec.empty
  flushdb-Fits = ground arith

  pub lastsave-Fits : Fits (length argv) a (Promise.lastsave env a argv)
  unfolding Promise.lastsave
  lastsave-Fits = ground arith

  saved_with-Fits : (st : PersistStatus) → Fits (length argv) a (saved_with env a st)
  unfolding saved_with
  saved_with-Fits persist_ok = omega arith
  saved_with-Fits persist_err_io = omega arith
  saved_with-Fits persist_err_format = omega arith
  saved_with-Fits persist_err_corrupt = omega arith

  pub save-Fits : Fits (length argv) a (Promise.save env a argv)
  unfolding Promise.save
  save-Fits = ground (arith, saved_with-Fits env.save_status)

  pub bgsave-Fits : Fits (length argv) a (Promise.bgsave env a argv)
  unfolding Promise.bgsave
  bgsave-Fits = ground arith
