-- ===== src/Store/Spec.antt =====
-- What include/store.h promises of a store, on a map from keys to entries with its number of keys.
use mathlib.Core.Option
use redis_server_c.Prelude.{ℕ, ◌+◌, ◌-◌, Option, none, some, Bytes, bytes_eq, if◌then◌else◌}
use redis_server_c.Prelude.Int.{ℤ, pos, ◌+ℤ◌, ◌-ℤ◌, is_zero, ltb_ℤ}
use redis_server_c.Store.Number.{parse_strict_ll, print_ll}
use redis_server_c.Store.Chain.{Entry}
use redis_server_c.Store.State.{is_expired}
use redis_server_c.Store.State.Access.{held}
use redis_server_c.Store.Ops.{
  IncrResult, incr_ok, incr_not_integer, incr_overflow, overflows, ttl_no_key, ttl_no_expiry,
}

pub record Dict : Type 0 where
  pub map : Bytes → Option Entry
  pub card : ℕ

unfoldable pub empty : Dict
empty = record { map = λ q. none; card = 0 }

-- `o` under `k`, and everything else as it was.
unfoldable pub put : Dict → Bytes → Option Entry → Dict
put d k o = record {
  map = λ q. if bytes_eq k q then o else d.map q;
  card = d.card + held o - held (d.map k);
}

-- What is under a key for a reader at time `now`.
unfoldable pub live : ℤ → Option Entry → Option Entry
live now none = none
live now (some e) = if is_expired e now then none else some e

abbrev pub at : Dict → Bytes → ℤ → Option Entry
at d k now = live now (d.map k)

-- A reader that meets an expired entry removes it.
abbrev pub touch : Dict → Bytes → ℤ → Dict
touch d k now = put d k (at d k now)

unfoldable pub set : Dict → Bytes → Bytes → ℤ → Dict × ℕ
set d k v x = (put d k (some (record { key = k; val = v; expire_at_ms = x })), 1 - held (d.map k))

unfoldable pub get : Dict → Bytes → ℤ → Dict × Option Bytes
get d k now = (touch d k now, Option.map (λ (e : Entry). e.val) (at d k now))

unfoldable pub exists : Dict → Bytes → ℤ → Dict × ℕ
exists d k now = (touch d k now, held (at d k now))

-- An entry that has expired and was not met by a reader is still removed, and counted.
unfoldable pub del : Dict → Bytes → Dict × ℕ
del d k = (put d k none, held (d.map k))

unfoldable pub expire : Dict → Bytes → ℤ → ℤ → Dict × ℕ
expire d k x now = (
  put d k (Option.map (λ (e : Entry). record e { expire_at_ms = x }) (at d k now)),
  held (at d k now),
)

abbrev pub remaining : ℤ → Option Entry → ℤ
remaining later none = ttl_no_key
remaining later (some e) =
    if is_zero e.expire_at_ms
    then ttl_no_expiry
    else if ltb_ℤ (pos 0) (e.expire_at_ms -ℤ later)
    then e.expire_at_ms -ℤ later
    else pos 0

unfoldable pub ttl : Dict → Bytes → ℤ → ℤ → Dict × ℤ
ttl d k now later = (touch d k now, remaining later (at d k now))

-- The number under a key: 0 if there is none, and `none` if the value is no `int64_t`.
abbrev pub number : Option Entry → Option ℤ
number none = some (pos 0)
number (some e) = parse_strict_ll e.val

abbrev pub with_val : Bytes → Bytes → Option Entry → Entry
with_val k v none = record { key = k; val = v; expire_at_ms = pos 0 }
with_val k v (some e) = record e { val = v }

unfoldable pub incrby : Dict → Bytes → ℤ → ℤ → Dict × IncrResult
incrby d k delta now = elim (number (at d k now)) [
  | none ↦ (touch d k now, (incr_not_integer, pos 0))
  | some n ↦
      if overflows n delta
      then (touch d k now, (incr_overflow, pos 0))
      else (put d k (some (with_val k (print_ll (n +ℤ delta)) (at d k now))), (incr_ok, n +ℤ delta))
]

unfoldable pub flush : Dict → Dict × ℕ
flush d = (empty, d.card)
