-- ===== src/Store/Ops.antt =====
-- src/store.c: the public operations. Each returns the new store beside its result.
pub mod Insert
pub mod Locate
pub mod Model
pub mod Reads
pub mod Writes
pub mod Incr
pub mod Foreach
use mathlib.Core.List.{flatten}
use redis_server_c.Prelude.{
  ℕ, ◌+◌, ◌%◌, ◌^◌, Bool, ◌&&◌, ◌||◌, List, [], ◌∷◌, ◌++◌, Option, none, some, Bytes, if◌then◌else◌,
}
use redis_server_c.Prelude.Int.{ℤ, pos, negsuc, ◌+ℤ◌, ◌-ℤ◌, is_zero, ltb_ℤ, int64_max, int64_min}
use redis_server_c.Store.Number.{parse_strict_ll, print_ll}
use redis_server_c.Store.Hash.{fnv1a_hash}
use redis_server_c.Store.Chain.{Entry}
use redis_server_c.Store.Table.{Slot, table_init, index, push_front}
use redis_server_c.Store.State.{
  Store, Side, is_rehashing, is_expired, find_slot_either, unlink, assign, locate_live, rehash_step,
  maybe_start_rehash,
}

-- STORE_INITIAL_SIZE
abbrev pub initial_size : ℕ
initial_size = 4

unfoldable pub store_create : Store
store_create = record { ht0 = table_init initial_size; ht1 = table_init 0; rehash_idx = none }

unfoldable pub store_size : Store → ℕ
store_size s = (s.ht0.used + s.ht1.used) % 2 ^ 64

unfoldable pub store_is_rehashing : Store → Bool
store_is_rehashing s = is_rehashing s

-- The new entry goes to `ht[1]` during a rehash and to `ht[0]` otherwise.
unfoldable pub insert_entry : Store → Entry → Store
insert_entry s e =
    let h = fnv1a_hash e.key in
    if is_rehashing s
    then record s { ht1 = push_front s.ht1 (index s.ht1 h) e }
    else maybe_start_rehash (record s { ht0 = push_front s.ht0 (index s.ht0 h) e })

unfoldable pub store_set : Store → Bytes → Bytes → ℤ → Store × ℕ
store_set s key val expire_at_ms =
    let s' = rehash_step s in
    let e : Entry = record { key = key; val = val; expire_at_ms = expire_at_ms } in
    elim (find_slot_either s' key (fnv1a_hash key)) [
      | some found ↦
          (assign s' found (record (found.1.entry) { val = val; expire_at_ms = expire_at_ms }), 0)
      | none ↦ (insert_entry s' e, 1)
    ]

-- What `locate_live` returns: the store, and the live entry with its slot.
abbrev pub Lookup : Type 0
Lookup = Store × Option (Side × Slot)

get_found : Lookup → Store × Option Bytes
get_found (s, none) = (s, none)
get_found (s, some found) = (s, some (found.1.entry.val))

-- The value, for a return of 1 with the two out parameters.
unfoldable pub store_get : Store → Bytes → ℤ → Store × Option Bytes
unfolding get_found
store_get s key now = get_found (locate_live (rehash_step s) key now)

exists_found : Lookup → Store × ℕ
exists_found (s, none) = (s, 0)
exists_found (s, some found) = (s, 1)

unfoldable pub store_exists : Store → Bytes → ℤ → Store × ℕ
unfolding exists_found
store_exists s key now = exists_found (locate_live (rehash_step s) key now)

unfoldable pub store_del : Store → Bytes → Store × ℕ
store_del s key =
    let s' = rehash_step s in
    elim (find_slot_either s' key (fnv1a_hash key)) [
      | none ↦ (s', 0)
      | some found ↦ (unlink s' found, 1)
    ]

expire_found : ℤ → Lookup → Store × ℕ
expire_found expire_at_ms (s, none) = (s, 0)
expire_found expire_at_ms (s, some found) =
    (assign s found (record (found.1.entry) { expire_at_ms = expire_at_ms }), 1)

unfoldable pub store_expire : Store → Bytes → ℤ → ℤ → Store × ℕ
unfolding expire_found
store_expire s key expire_at_ms now =
    expire_found expire_at_ms (locate_live (rehash_step s) key now)

-- STORE_TTL_NO_KEY and STORE_TTL_NO_EXPIRY
abbrev pub ttl_no_key : ℤ
ttl_no_key = negsuc 1

abbrev pub ttl_no_expiry : ℤ
ttl_no_expiry = negsuc 0

ttl_found : ℤ → Lookup → Store × ℤ
ttl_found now (s, none) = (s, ttl_no_key)
ttl_found now (s, some found) =
    let at = found.1.entry.expire_at_ms in
    let remaining = at -ℤ now in
    if is_zero at
    then (s, ttl_no_expiry)
    else if ltb_ℤ (pos 0) remaining
    then (s, remaining)
    else (s, pos 0)

-- The clock is read twice: `now` by `locate_live`, then `later` for the difference.
unfoldable pub store_ttl_ms : Store → Bytes → ℤ → ℤ → Store × ℤ
unfolding ttl_found
store_ttl_ms s key now later = ttl_found later (locate_live (rehash_step s) key now)

pub data IncrStatus : Type 0 where
  incr_ok incr_not_integer incr_overflow : IncrStatus

-- The status and `*new_value_out`, which is written only on success.
abbrev pub IncrResult : Type 0
IncrResult = IncrStatus × ℤ

-- The guard of `store_incrby`, in which no subtraction leaves the range of `int64_t`.
abbrev pub overflows : ℤ → ℤ → Bool
overflows current delta =
    (ltb_ℤ (pos 0) delta && ltb_ℤ (int64_max -ℤ delta) current)
    || (ltb_ℤ delta (pos 0) && ltb_ℤ current (int64_min -ℤ delta))

-- The store of a result: in the entry that `locate_live` returned, or under a new key.
incr_store : Bytes → ℤ → Lookup → Store
incr_store key result (s, none) = (store_set s key (print_ll result) (pos 0)).0
incr_store key result (s, some found) =
    assign s found (record (found.1.entry) { val = print_ll result })

-- `current`: 0 for a missing key, and `none` if the value is not an integer.
incr_current : Lookup → Option ℤ
incr_current (s, none) = some (pos 0)
incr_current (s, some found) = parse_strict_ll (found.1.entry.val)

incr_found : Bytes → ℤ → Lookup → Store × IncrResult
incr_found key delta found = elim (incr_current found) [
  | none ↦ (found.0, (incr_not_integer, pos 0))
  | some current ↦
      if overflows current delta
      then (found.0, (incr_overflow, pos 0))
      else (incr_store key (current +ℤ delta) found, (incr_ok, current +ℤ delta))
]

unfoldable pub store_incrby : Store → Bytes → ℤ → ℤ → Store × IncrResult
unfolding incr_found incr_current incr_store
store_incrby s key delta now = incr_found key delta (locate_live (rehash_step s) key now)

-- `table_free_entries` on both tables, and the tables made anew.
unfoldable pub store_flush : Store → Store × ℕ
store_flush s =
    (record { ht0 = table_init initial_size; ht1 = table_init 0; rehash_idx = none }, store_size s)

-- The entries in the order of the two nested walks, `ht[0]` first.
unfoldable pub entries : Store → List Entry
entries s = flatten s.ht0.buckets ++ flatten s.ht1.buckets

unfoldable pub foreach_from {ℓ} : {A : Type ℓ} → List Entry → ℤ → (Entry → A → A) → A → A
foreach_from [] now visit ud = ud
foreach_from (e ∷ es) now visit ud =
    foreach_from es now visit (if is_expired e now then ud else visit e ud)

-- `visit` is the callback `fn` on the state that `ud` points to; an expired entry is skipped.
unfoldable pub store_foreach {ℓ} : {A : Type ℓ} → Store → ℤ → (Entry → A → A) → A → A
unfolding entries foreach_from
store_foreach s now visit ud = foreach_from (entries s) now visit ud
