-- ===== src/Store/Table/Inv.antt =====
-- What one table holds: every entry in the bucket that its hash selects, and `used` of them.
use mathlib.Core.List.{flatten}
use redis_server_c.Prelude.{
  ℕ, ◌-◌, ◌≤◌, ◌<◌, ◌≡◌, ◌≢◌, ap, [], Option, none, some, arith, Bytes, length, get_or_beyond,
  length-replicate, get_or-replicate, flatten-replicate,
}
use redis_server_c.Prelude.Bits.{bit_and-le}
use redis_server_c.Store.Hash.{fnv1a_hash}
use redis_server_c.Store.Chain.{Entry, Chain}
use redis_server_c.Store.Chain.Laws.{lookup, count, lookup_absent, count_absent, count_present}
use redis_server_c.Store.Table.{Table, table_init, bucket, index}

-- The bucket where the code looks for a key.
unfoldable pub home : Table → Bytes → ℕ
home t key = index t (fnv1a_hash key)

abbrev pub chain_of : Table → Bytes → Chain
chain_of t key = bucket t (home t key)

-- The entry that the table holds under a key, and how many it holds there.
unfoldable pub find : Table → Bytes → Option Entry
find t q = lookup q (chain_of t q)

unfoldable pub copies : Table → Bytes → ℕ
copies t q = count q (chain_of t q)

pub record IsTable (t : Table) : Type 0 where
  pub sized : length t.buckets ≡ t.size
  pub masked : t.mask ≡ t.size - 1
  pub counted : length (flatten t.buckets) ≡ t.used
  pub placed : (q : Bytes) (i : ℕ) → home t q ≢ i → count q (bucket t i) ≡ 0

-- The bucket index is in range.
pub home-lt : (t : Table) (q : Bytes) → IsTable t → 0 < t.size → home t q < length t.buckets
unfolding home
home-lt t q v h = omega (arith, bit_and-le (fnv1a_hash q) t.mask, v.masked, v.sized)

pub table_init-IsTable : (n : ℕ) → IsTable (table_init n)
unfolding table_init count
table_init-IsTable n = record {
  sized = length-replicate n [];
  masked = ground arith;
  counted = ap length (flatten-replicate n);
  placed = λ q i h. rw get_or-replicate;
}

pub find-table_init : (n : ℕ) (q : Bytes) → find (table_init n) q ≡ none
unfolding find table_init lookup
find-table_init n q = rw get_or-replicate

pub copies-table_init : (n : ℕ) (q : Bytes) → copies (table_init n) q ≡ 0
unfolding copies table_init count
copies-table_init n q = rw get_or-replicate

-- A table with no bucket holds nothing.
pub find_unallocated : (t : Table) (q : Bytes) → IsTable t → t.size ≡ 0 → find t q ≡ none
unfolding find lookup
find_unallocated t q v h = rw (get_or_beyond t.buckets (home t q) [] (omega (arith, v.sized)))

pub copies_unallocated : (t : Table) (q : Bytes) → IsTable t → t.size ≡ 0 → copies t q ≡ 0
unfolding copies count
copies_unallocated t q v h = rw (get_or_beyond t.buckets (home t q) [] (omega (arith, v.sized)))

pub find_absent : (t : Table) (q : Bytes) → copies t q ≡ 0 → find t q ≡ none
unfolding find copies
find_absent t q h = lookup_absent q (chain_of t q) h

pub copies_present : (t : Table) (q : Bytes) (e : Entry) → find t q ≡ some e → 1 ≤ copies t q
unfolding find copies
copies_present t q e h = count_present q (chain_of t q) e h

pub copies_absent : (t : Table) (q : Bytes) → find t q ≡ none → copies t q ≡ 0
unfolding find copies
copies_absent t q h = count_absent q (chain_of t q) h
