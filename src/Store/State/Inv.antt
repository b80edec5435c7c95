-- ===== src/Store/State/Inv.antt =====
-- The representation invariant of `struct store` and the abstract map that a store stands for.
use redis_server_c.Prelude.{ℕ, ◌+◌, ◌^◌, ◌≤◌, ◌<◌, ◌≡◌, [], Option, none, some, Bytes}
use redis_server_c.Store.Hash.Pow2.{IsPow2}
use redis_server_c.Store.Chain.{Entry}
use redis_server_c.Prelude.Bits.{pow-pos}
use redis_server_c.Store.Table.{Table, bucket}
use redis_server_c.Store.Table.Inv.{IsTable, find, copies}
use redis_server_c.Store.State.{Store}

abbrev pub or_else : Option Entry → Option Entry → Option Entry
or_else none o = o
or_else (some e) o = some e

-- Two tables that share the keys: no key has two entries, and the counts stay far below 2 ^ 64.
pub record Shares (src dst : Table) : Type 0 where
  pub source : IsTable src
  pub target : IsTable dst
  pub once : (q : Bytes) → copies src q + copies dst q ≤ 1
  pub few : src.used + dst.used ≤ 2 ^ 62

-- During a rehash the buckets of `ht[0]` below `rehash_idx` are empty; otherwise `ht[1]` has none.
pub record IsMigrating (src dst : Table) (i : ℕ) : Type 0 where
  pub shares : Shares src dst
  pub wide0 : IsPow2 src.size
  pub wide1 : IsPow2 dst.size
  pub drained : (j : ℕ) → j < i → bucket src j ≡ []

pub record IsIdle (src dst : Table) : Type 0 where
  pub shares : Shares src dst
  pub wide0 : IsPow2 src.size
  pub unallocated : dst.size ≡ 0

abbrev pub Phase : Option ℕ → Table → Table → Type 0
Phase none src dst = IsIdle src dst
Phase (some i) src dst = IsMigrating src dst i

abbrev pub IsValid : Store → Type 0
IsValid s = Phase s.rehash_idx s.ht0 s.ht1

-- The abstract map: what the two tables hold under a key, `ht[0]` first.
unfoldable pub view2 : Table → Table → Bytes → Option Entry
view2 src dst q = or_else (find src q) (find dst q)

unfoldable pub view : Store → Bytes → Option Entry
view s q = view2 s.ht0 s.ht1 q

pub IsPow2-pos : (n : ℕ) → IsPow2 n → 0 < n
IsPow2-pos n p = rw p.power (pow-pos p.exponent)

pub Phase-Shares : (i : Option ℕ) (src dst : Table) → Phase i src dst → Shares src dst
Phase-Shares none src dst v = v.shares
Phase-Shares (some i) src dst v = v.shares

pub Phase-pos : (i : Option ℕ) (src dst : Table) → Phase i src dst → 0 < src.size
Phase-pos none src dst v = IsPow2-pos src.size v.wide0
Phase-pos (some i) src dst v = IsPow2-pos src.size v.wide0

pub Phase-wide : (i : Option ℕ) (src dst : Table) → Phase i src dst → IsPow2 src.size
Phase-wide none src dst v = v.wide0
Phase-wide (some i) src dst v = v.wide0
