-- ===== src/Store/Table/Write.antt =====
-- Writes to one bucket: replacing the chain of a key, and emptying a bucket.

use redis_server_c.Prelude.{
  ℕ, ◌+◌, ◌≤◌, ◌<◌, ◌≡◌, ◌≢◌, refl, ap, [], ◌∷◌, none, some, arith, Bytes, length, set, length-set,
  get_or-set, length-flatten-set, bytes_eq, bytes_eq_iff, if◌then◌else◌, ◌==◌,
}
use redis_server_c.Store.Chain.{Entry, Chain, find_in_chain, unlink_at}
use redis_server_c.Store.Chain.Laws.{
  lookup, count, lookup-unlink_at, count-unlink_at, lookup-set, count-set,
}
use redis_server_c.Store.Table.{Table, bucket}
use redis_server_c.Store.Table.Inv.{home, chain_of, find, copies, IsTable, home-lt}

-- `c` differs from `old` only in what it holds under `k`.
pub record DiffersAt (k : Bytes) (old c : Chain) : Type 0 where
  pub lookups : (q : Bytes) → k ≢ q → lookup q c ≡ lookup q old
  pub counts : (q : Bytes) → k ≢ q → count q c ≡ count q old

-- The table with the chain of `k` replaced and its `used` set.
abbrev pub put_chain : Table → Bytes → Chain → ℕ → Table
put_chain t k c n = record t { buckets = set t.buckets (home t k) c; used = n }

module _ (t : Table) (v : IsTable t) (k : Bytes) (pos : 0 < t.size) (c : Chain) (n : ℕ)
    (d : DiffersAt k (chain_of t k) c) where
  home-put_chain : (q : Bytes) → home (put_chain t k c n) q ≡ home t q
  unfolding home
  home-put_chain q = refl

  bucket-put_chain :
      (i : ℕ) → bucket (put_chain t k c n) i ≡ (if home t k == i then c else bucket t i)
  bucket-put_chain i = get_or-set t.buckets (home t k) i c [] (home-lt t k v pos)

  pub put_chain-IsTable :
      n + length (chain_of t k) ≡ t.used + length c → IsTable (put_chain t k c n)
  put_chain-IsTable size = record {
    sized = rw length-set (v.sized);
    masked = v.masked;
    counted =
        omega (arith, v.counted, length-flatten-set t.buckets (home t k) c (home-lt t k v pos));
    placed = λ q i h.
        rw bucket-put_chain (
          ground (arith, home-put_chain q, v.placed q i, d.counts q, λ (e : k ≡ q). ap (home t) e));
  }

  pub find-put_chain :
      (q : Bytes) → find (put_chain t k c n) q ≡ (if bytes_eq k q then lookup k c else find t q)
  unfolding find
  find-put_chain q =
      rw (home-put_chain q, bucket-put_chain)
        (ground (arith, d.lookups q, bytes_eq_iff k q, λ (e : k ≡ q). ap (home t) e))

  pub copies-put_chain :
      (q : Bytes) → copies (put_chain t k c n) q ≡ (if bytes_eq k q then count k c else copies t q)
  unfolding copies
  copies-put_chain q =
      rw (home-put_chain q, bucket-put_chain)
        (ground (arith, d.counts q, bytes_eq_iff k q, λ (e : k ≡ q). ap (home t) e))

-- The three writes that the code makes to the chain of `k`.
pub push_front-DiffersAt : (k : Bytes) (e : Entry) (c : Chain) → e.key ≡ k → DiffersAt k c (e ∷ c)
unfolding lookup count
push_front-DiffersAt k e c same = record {
  lookups = λ q h. ground (arith, bytes_eq_iff e.key q);
  counts = λ q h. ground (arith, bytes_eq_iff e.key q);
}

module _ (k : Bytes) (c : Chain) (i : ℕ) (e : Entry) (at : find_in_chain k c ≡ some (i, e)) where
  pub unlink_at-DiffersAt : count k c ≤ 1 → DiffersAt k c (unlink_at i c)
  unlink_at-DiffersAt few = record {
    lookups = λ q h. ground (arith, lookup-unlink_at k q c i e at few, bytes_eq_iff k q);
    counts = λ q h. ground (arith, count-unlink_at k q c i e at, bytes_eq_iff k q);
  }

  pub set-DiffersAt : (e' : Entry) → e'.key ≡ k → DiffersAt k c (set c i e')
  set-DiffersAt e' same = record {
    lookups = λ q h. ground (arith, lookup-set k q c i e e' at same, bytes_eq_iff k q);
    counts = λ q h. count-set k q c i e e' at same;
  }

-- The table with bucket `i` emptied.
abbrev pub clear_bucket : Table → ℕ → ℕ → Table
clear_bucket t i n = record t { buckets = set t.buckets i []; used = n }

module _ (t : Table) (v : IsTable t) (i n : ℕ) (lt : i < length t.buckets) where
  pub clear_bucket-IsTable : n + length (bucket t i) ≡ t.used → IsTable (clear_bucket t i n)
  unfolding home count
  clear_bucket-IsTable size = record {
    sized = rw length-set (v.sized);
    masked = v.masked;
    counted = omega (arith, v.counted, length-flatten-set t.buckets i [] lt);
    placed = λ q j h. rw (get_or-set t.buckets i j [] [] lt) (ground (arith, v.placed q j h));
  }

  pub find-clear_bucket :
      (q : Bytes) → find (clear_bucket t i n) q ≡ (if i == home t q then none else find t q)
  unfolding find home lookup
  find-clear_bucket q = rw (get_or-set t.buckets i (home t q) [] [] lt) (ground arith)

  pub copies-clear_bucket :
      (q : Bytes) → copies (clear_bucket t i n) q ≡ (if i == home t q then 0 else copies t q)
  unfolding copies home count
  copies-clear_bucket q = rw (get_or-set t.buckets i (home t q) [] [] lt) (ground arith)
