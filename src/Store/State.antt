-- ===== src/Store/State.antt =====
-- src/store.c: `struct store`, slots over its two tables, and the helpers up to `maybe_start_rehash`.
pub mod Inv
pub mod Migrate
pub mod Rehash
pub mod Access
pub mod Progress
use redis_server_c.Prelude.{
  ℕ, zero, suc, ◌+◌, ◌*◌, ◌%◌, ◌^◌, Bool, true, false, ◌&&◌, not, [], ◌∷◌, Option, none, some,
  Bytes, set, ltb, leb, if◌then◌else◌,
}
use redis_server_c.Prelude.Int.{ℤ, is_zero, leb_ℤ}
use redis_server_c.Store.Hash.{fnv1a_hash, next_pow2}
use redis_server_c.Store.Chain.{Entry, Chain, unlink_at}
use redis_server_c.Store.Table.{
  Table, Slot, table_init, bucket, index, size_dec, find_in_table, push_front,
}
use mathlib.Core.Option

-- `ht[0]`, `ht[1]` and `rehash_idx`, which is `none` for -1.
pub record Store : Type 0 where
  pub ht0 : Table
  pub ht1 : Table
  pub rehash_idx : Option ℕ

abbrev pub is_rehashing : Store → Bool
is_rehashing s = elim s.rehash_idx [ none ↦ false | some i ↦ true ]

-- What `table_out` points to.
pub data Side : Type 0 where
  first second : Side

abbrev pub on : Side → Slot → Side × Slot
on side slot = (side, slot)

unfoldable pub find_slot_either : Store → Bytes → ℕ → Option (Side × Slot)
find_slot_either s key h = elim (find_in_table s.ht0 key h) [
  | some slot ↦ some (first, slot)
  | none ↦ if is_rehashing s then Option.map (on second) (find_in_table s.ht1 key h) else none
]

-- `*slot = e->next; t->used--`
unlink_in : Table → Slot → Table
unlink_in t slot = record t {
  buckets = set t.buckets slot.at (unlink_at slot.place (bucket t slot.at));
  used = size_dec t.used;
}

unfoldable pub unlink : Store → Side × Slot → Store
unfolding unlink_in
unlink s (first, slot) = record s { ht0 = unlink_in s.ht0 slot }
unlink s (second, slot) = record s { ht1 = unlink_in s.ht1 slot }

-- The fields of the entry that the slot points to are assigned.
assign_in : Table → Slot → Entry → Table
assign_in t slot e = record t {
  buckets = set t.buckets slot.at (set (bucket t slot.at) slot.place e);
}

unfoldable pub assign : Store → Side × Slot → Entry → Store
unfolding assign_in
assign s (first, slot) e = record s { ht0 = assign_in s.ht0 slot e }
assign s (second, slot) e = record s { ht1 = assign_in s.ht1 slot e }

-- `expire_at_ms != 0 && expire_at_ms <= now_ms()`
abbrev pub is_expired : Entry → ℤ → Bool
is_expired e now = not (is_zero e.expire_at_ms) && leb_ℤ e.expire_at_ms now

-- `now` is what `now_ms()` returns in the call. The entry is returned with its slot.
unfoldable pub locate_live : Store → Bytes → ℤ → Store × Option (Side × Slot)
locate_live s key now = elim (find_slot_either s key (fnv1a_hash key)) [
  | none ↦ (s, none)
  | some found ↦ if is_expired found.1.entry now then (unlink s found, none) else (s, some found)
]

-- The inner loop of `rehash_step`: the chain is relinked entry by entry from `src` into `dst`.
unfoldable pub migrate_chain : Chain → Table → Table → Table × Table
migrate_chain [] src dst = (src, dst)
migrate_chain (e ∷ c) src dst =
    migrate_chain c (record src { used = size_dec src.used })
      (push_front dst (index dst (fnv1a_hash e.key)) e)

-- One unit of work: the chain of bucket `i`, and `src->buckets[i] = NULL`.
unfoldable pub migrate_bucket : Table → Table → ℕ → Table × Table
migrate_bucket src dst i =
    let (src', dst') = migrate_chain (bucket src i) src dst in
    (record src' { buckets = set src'.buckets i [] }, dst')

-- The outer loop on the empty visits that are left, with the final `rehash_idx`.
unfoldable pub rehash_scan : ℕ → Table → Table → ℕ → Table × Table × ℕ
rehash_scan zero src dst i = (src, dst, i)
rehash_scan (suc visits) src dst i = elim (ltb i src.size) [
  | false ↦ (src, dst, i)
  | true ↦ elim (bucket src i) [
    | [] ↦ rehash_scan visits src dst (i + 1)
    | e ∷ c ↦ let (src', dst') = migrate_bucket src dst i in (src', dst', i + 1)
  ]
]

-- When every bucket is migrated `ht[1]` takes the place of `ht[0]`.
unfoldable pub finish_rehash : Table × Table × ℕ → Store
finish_rehash (src, dst, i) =
    if leb src.size i
    then record { ht0 = dst; ht1 = table_init 0; rehash_idx = none }
    else record { ht0 = src; ht1 = dst; rehash_idx = some i }

-- REHASH_EMPTY_VISITS_LIMIT
abbrev pub empty_visits_limit : ℕ
empty_visits_limit = 10

unfoldable pub rehash_step : Store → Store
rehash_step s = elim s.rehash_idx [
  | none ↦ s
  | some i ↦ finish_rehash (rehash_scan empty_visits_limit s.ht0 s.ht1 i)
]

unfoldable pub maybe_start_rehash : Store → Store
maybe_start_rehash s =
    if is_rehashing s
    then s
    else if ltb s.ht0.used s.ht0.size
    then s
    else record s { ht1 = table_init (next_pow2 (s.ht0.size * 2 % 2 ^ 64)); rehash_idx = some 0 }
