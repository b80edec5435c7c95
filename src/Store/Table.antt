-- ===== src/Store/Table.antt =====
-- src/store.c: `store_table_t`, one array of buckets. The children prove what it holds.
pub mod Inv
pub mod Write
pub mod Slots
use Prim.Native.Nat.{bit_and}
use mathlib.Core.Option
use redis_server_c.Prelude.{
  ℕ, ◌+◌, ◌-◌, ◌%◌, ◌^◌, List, [], ◌∷◌, Option, none, some, Bytes, get_or, set, replicate, ◌==◌,
  if◌then◌else◌,
}
use redis_server_c.Store.Chain.{Entry, Chain, find_in_chain}

pub record Table : Type 0 where
  pub buckets : List Chain
  pub size : ℕ
  pub mask : ℕ
  pub used : ℕ

-- `size` is 0 for a table with no array; the allocation is taken to succeed, as the code takes it.
unfoldable pub table_init : ℕ → Table
table_init size = record {
  buckets = replicate size [];
  size = size;
  mask = if size == 0 then 0 else size - 1;
  used = 0;
}

-- `t->buckets[i]`
abbrev pub bucket : Table → ℕ → Chain
bucket t i = get_or t.buckets i []

-- `h & t->mask`
abbrev pub index : Table → ℕ → ℕ
index t h = bit_and h t.mask

-- `used++` and `used--` in `size_t`
abbrev pub size_inc : ℕ → ℕ
size_inc n = (n + 1) % 2 ^ 64

abbrev pub size_dec : ℕ → ℕ
size_dec n = (n + 2 ^ 64 - 1) % 2 ^ 64

-- A `store_entry_t **` into one table: bucket, place in its chain, and the entry that it points to.
pub record Slot : Type 0 where
  pub at : ℕ
  pub place : ℕ
  pub entry : Entry

abbrev pub slot_in : ℕ → ℕ × Entry → Slot
slot_in i (p, e) = record { at = i; place = p; entry = e }

unfoldable pub find_in_table : Table → Bytes → ℕ → Option Slot
find_in_table t key h =
    if t.size == 0
    then none
    else Option.map (slot_in (index t h)) (find_in_chain key (bucket t (index t h)))

-- `e->next = t->buckets[i]; t->buckets[i] = e; t->used++`
unfoldable pub push_front : Table → ℕ → Entry → Table
push_front t i e = record t { buckets = set t.buckets i (e ∷ bucket t i); used = size_inc t.used }
