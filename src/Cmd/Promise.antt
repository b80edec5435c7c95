-- ===== src/Cmd/Promise.antt =====
-- What the commands promise: the reply to each and its effect, on the map of Store/Spec. Reading and
-- printing a number and quoting a name are those of the code.
use redis_server_c.Prelude.{
  ℕ, ◌/◌, leb, true, false, suc, ◌+◌, ◌%◌, Bool, not, ◌&&◌, ◌||◌, List, [], ◌∷◌, ◌++◌, Option, none,
  some, Bytes, codes, length, drop, ltb, ◌==◌, if◌then◌else◌,
}
use redis_server_c.Prelude.Int.{
  pos_part, negsuc, ℤ, pos, ◌+ℤ◌, ◌*ℤ◌, ◌-ℤ◌, is_zero, ltb_ℤ, int64_min,
}
use redis_server_c.Store.Chain.{Entry}
use redis_server_c.Store.Number.{parse_strict_ll, print_ll, print_ℕ}
use redis_server_c.Store.Ops.{IncrResult, incr_ok, incr_not_integer, incr_overflow}
use redis_server_c.Store.Spec
use redis_server_c.Store.Spec.{Dict}
use redis_server_c.Resp.Reply.{crlf}
use redis_server_c.Persist.Status.{PersistStatus, persist_ok, persist_strerror}
use redis_server_c.Cmd.Args.{arg, safe_token, snprintf}
use redis_server_c.Cmd.State.{Env}
use redis_server_c.Cmd.Keyspace.{not_an_integer, would_overflow}
use redis_server_c.Cmd.Admin.{no_save_path}
use redis_server_c.Cmd.Reply.{item, items}

-- The five shapes of a reply, and their bytes.
pub data Reply : Type 0 where
  status failure : Bytes → Reply
  number : ℤ → Reply
  single : Option Bytes → Reply
  many : List (Option Bytes) → Reply

abbrev pub print : Reply → Bytes
print (status s) = codes "+" ++ (s ++ crlf)
print (failure s) = codes "-" ++ (s ++ crlf)
print (number v) = b':' ∷ (print_ll v ++ crlf)
print (single v) = item v
print (many vs) = (b'*' ∷ (print_ℕ (length vs) ++ crlf)) ++ items vs

-- A server with a map for its store.
pub record Abstract : Type 0 where
  pub dict : Dict
  pub save_path : Bytes
  pub lastsave_time : ℤ

abbrev pub with_dict : Abstract → Dict → Abstract
with_dict a d = record a { dict = d }

abbrev pub Outcome : Type 0
Outcome = Abstract × Reply

-- `c` is the letter `u`, in either case, or the same byte.
abbrev pub same_letter : ℕ → ℕ → Bool
same_letter c u =
    (c == u)
    || (leb b'A' u && leb u b'Z' && (c == u + 32))
    || (leb b'A' c && leb c b'Z' && (c + 32 == u))

-- The two are spelled alike, up to case.
unfoldable pub spelled : Bytes → Bytes → Bool
spelled [] [] = true
spelled (c ∷ s) (u ∷ t) = same_letter c u && spelled s t
spelled [] (u ∷ t) = false
spelled (c ∷ s) [] = false

-- What a command with these arguments leaves and replies.
abbrev pub Meaning : Type 0
Meaning = Env → Abstract → List Bytes → Outcome

abbrev pub done : Abstract → {A : Type 0} → (A → Reply) → Dict × A → Outcome
done a r (d, x) = (with_dict a d, r x)

abbrev pub arity_text : List Bytes → Bytes
arity_text argv =
    snprintf 80 (
      codes "ERR wrong number of arguments for '" ++ (safe_token (arg argv 0) ++ codes "' command"))

-- The outcome unless the number of arguments is wrong.
abbrev pub unless_arity : Bool → Abstract → List Bytes → Outcome → Outcome
unless_arity wrong a argv o = if wrong then (a, failure (arity_text argv)) else o

unfoldable pub ping : Meaning
ping env a argv =
    unless_arity (ltb 2 (length argv)) a argv
      (if length argv == 2 then (a, single (some (arg argv 1))) else (a, status (codes "PONG")))

unfoldable pub echo : Meaning
echo env a argv = unless_arity (not (length argv == 2)) a argv (a, single (some (arg argv 1)))

abbrev invalid_expiry : Bytes
invalid_expiry = codes "ERR invalid expire time in 'set' command"

abbrev pub stored : Abstract → List Bytes → ℤ → Outcome
stored a argv x = (with_dict a (Spec.set a.dict (arg argv 1) (arg argv 2) x).0, status (codes "OK"))

-- The key is there for the given time from now on.
unfoldable pub stored_for : Env → Abstract → List Bytes → (ℤ → ℤ) → Option ℤ → Outcome
stored_for env a argv in_ms none = (a, failure invalid_expiry)
stored_for env a argv in_ms (some n) =
    if ltb_ℤ (pos 0) n then stored a argv (env.now_ms 0 +ℤ in_ms n) else (a, failure invalid_expiry)

abbrev pub seconds : ℤ → ℤ
seconds n = n *ℤ pos 1000

abbrev pub milliseconds : ℤ → ℤ
milliseconds n = n

unfoldable pub set : Meaning
unfolding stored_for
set env a argv = unless_arity (not (length argv == 3) && not (length argv == 5)) a argv (
    if length argv == 5
    then if spelled (arg argv 3) (codes "EX")
      then stored_for env a argv seconds (parse_strict_ll (arg argv 4))
      else if spelled (arg argv 3) (codes "PX")
      then stored_for env a argv milliseconds (parse_strict_ll (arg argv 4))
      else (a, failure (codes "ERR syntax error"))
    else stored a argv (pos 0))

unfoldable pub get : Meaning
get env a argv =
    unless_arity (not (length argv == 2)) a argv
      (done a single (Spec.get a.dict (arg argv 1) (env.now_ms 0)))

unfoldable pub get_each : Env → ℕ → Dict → List Bytes → Dict × List (Option Bytes)
get_each env i d [] = (d, [])
get_each env i d (k ∷ ks) =
    let (d', v) = Spec.get d k (env.now_ms i) in
    let (d'', vs) = get_each env (suc i) d' ks in (d'', v ∷ vs)

unfoldable pub mget : Meaning
unfolding get_each
mget env a argv =
    unless_arity (ltb (length argv) 2) a argv (done a many (get_each env 0 a.dict (drop 1 argv)))

unfoldable pub set_each : Dict → List Bytes → Dict
set_each d [] = d
set_each d (k ∷ []) = d
set_each d (k ∷ v ∷ rest) = set_each (Spec.set d k v (pos 0)).0 rest

unfoldable pub mset : Meaning
unfolding set_each
mset env a argv =
    unless_arity (ltb (length argv) 3 || (length argv % 2 == 0)) a argv
      (with_dict a (set_each a.dict (drop 1 argv)), status (codes "OK"))

-- The keys are removed one after another, and counted as they are met.
unfoldable pub del_each : Dict → List Bytes → ℕ → Dict × ℕ
del_each d [] n = (d, n)
del_each d (k ∷ ks) n = let (d', one) = Spec.del d k in del_each d' ks (n + one)

unfoldable pub del : Meaning
unfolding del_each
del env a argv =
    unless_arity (ltb (length argv) 2) a argv
      (done a (λ n. number (pos n)) (del_each a.dict (drop 1 argv) 0))

unfoldable pub exists_each : Env → ℕ → Dict → List Bytes → ℕ → Dict × ℕ
exists_each env i d [] n = (d, n)
exists_each env i d (k ∷ ks) n =
    let (d', one) = Spec.exists d k (env.now_ms i) in exists_each env (suc i) d' ks (n + one)

unfoldable pub exists : Meaning
unfolding exists_each
exists env a argv =
    unless_arity (ltb (length argv) 2) a argv
      (done a (λ n. number (pos n)) (exists_each env 0 a.dict (drop 1 argv) 0))

unfoldable pub expire_in : Env → Abstract → List Bytes → Option ℤ → Outcome
expire_in env a argv none = (a, failure not_an_integer)
expire_in env a argv (some seconds) =
    done a (λ n. number (if n == 0 then pos 0 else pos 1))
      (Spec.expire a.dict (arg argv 1) (env.now_ms 0 +ℤ seconds *ℤ pos 1000) (env.now_ms 1))

unfoldable pub expire : Meaning
unfolding expire_in
expire env a argv =
    unless_arity (not (length argv == 3)) a argv
      (expire_in env a argv (parse_strict_ll (arg argv 2)))

-- As many seconds as it takes to have `n` milliseconds.
abbrev pub seconds_for : ℕ → ℕ
seconds_for n = if n % 1000 == 0 then n / 1000 else n / 1000 + 1

abbrev pub same_time : ℕ → ℕ
same_time n = n

-- The time that is left at `later`: -2 for no key, -1 for one that stays.
abbrev pub time_left : (ℕ → ℕ) → ℤ → Option Entry → ℤ
time_left of_ms later none = negsuc 1
time_left of_ms later (some e) =
    if is_zero e.expire_at_ms then negsuc 0 else pos (of_ms (pos_part (e.expire_at_ms -ℤ later)))

-- TTL and PTTL
unfoldable pub ttl : (ℕ → ℕ) → Meaning
ttl of_ms env a argv =
    let found = Spec.at a.dict (arg argv 1) (env.now_ms 0) in
    unless_arity (not (length argv == 2)) a argv (
      with_dict a (Spec.touch a.dict (arg argv 1) (env.now_ms 0)),
      number (time_left of_ms (env.now_ms 1) found),
    )

abbrev pub incr_reply : IncrResult → Reply
incr_reply (incr_ok, v) = number v
incr_reply (incr_not_integer, v) = failure not_an_integer
incr_reply (incr_overflow, v) = failure would_overflow

unfoldable pub add : Env → Abstract → List Bytes → ℤ → Outcome
add env a argv delta = done a incr_reply (Spec.incrby a.dict (arg argv 1) delta (env.now_ms 0))

-- INCR and DECR
unfoldable pub by_one : ℤ → Meaning
unfolding add
by_one delta env a argv = unless_arity (not (length argv == 2)) a argv (add env a argv delta)

unfoldable pub add_parsed : Bool → Env → Abstract → List Bytes → Option ℤ → Outcome
unfolding add
add_parsed negated env a argv none = (a, failure not_an_integer)
add_parsed negated env a argv (some delta) =
    if negated && is_zero (delta -ℤ int64_min)
    then (a, failure would_overflow)
    else add env a argv (if negated then pos 0 -ℤ delta else delta)

-- INCRBY and DECRBY
unfoldable pub by_number : Bool → Meaning
unfolding add_parsed
by_number negated env a argv =
    unless_arity (not (length argv == 3)) a argv
      (add_parsed negated env a argv (parse_strict_ll (arg argv 2)))

unfoldable pub dbsize : Meaning
dbsize env a argv = unless_arity (not (length argv == 1)) a argv (a, number (pos a.dict.card))

unfoldable pub flushdb : Meaning
flushdb env a argv =
    unless_arity (not (length argv == 1)) a argv
      (with_dict a (Spec.flush a.dict).0, status (codes "OK"))

unfoldable pub lastsave : Meaning
lastsave env a argv = unless_arity (not (length argv == 1)) a argv (a, number a.lastsave_time)

unfoldable pub saved_with : Env → Abstract → PersistStatus → Outcome
saved_with env a persist_ok = (record a { lastsave_time = env.now_s }, status (codes "OK"))
saved_with env a st = (a, failure (snprintf 128 (codes "ERR save failed: " ++ persist_strerror st)))

unfoldable pub save : Meaning
unfolding saved_with
save env a argv = unless_arity (not (length argv == 1)) a argv (
    if length a.save_path == 0 then (a, failure no_save_path) else saved_with env a env.save_status)

unfoldable pub bgsave : Meaning
bgsave env a argv = unless_arity (not (length argv == 1)) a argv (
    if length a.save_path == 0
    then (a, failure no_save_path)
    else if not env.fork_ok
    then (a, failure (codes "ERR fork failed"))
    else (record a { lastsave_time = env.now_s }, status (codes "Background saving started")))

unfoldable pub unknown : Meaning
unknown env a argv = (
  a,
  failure (snprintf 80 (codes "ERR unknown command '" ++ (safe_token (arg argv 0) ++ codes "'"))),
)
