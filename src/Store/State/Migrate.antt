-- ===== src/Store/State/Migrate.antt =====
-- `rehash_step` loses no entry: the abstract map and the number of entries stay as they are.

use redis_server_c.Prelude.{
  ℕ, ◌+◌, ◌-◌, ◌^◌, ◌≤◌, ◌<◌, ◌≡◌, refl, ap, ◌∙◌, [], ◌∷◌, none, some, arith, Bytes, length,
  get_or-set, length-flatten-set, ◌==◌, bytes_eq, bytes_eq_iff, if◌then◌else◌,
}
use redis_server_c.Store.Hash.{fnv1a_hash}
use redis_server_c.Store.Chain.{Entry, Chain}
use redis_server_c.Store.Chain.Laws.{lookup, count, lookup_absent}
use redis_server_c.Store.Table.{Table, bucket, index, push_front, size_inc, size_dec}
use redis_server_c.Store.Table.Inv.{home, chain_of, find, copies, IsTable, find_absent}
use redis_server_c.Store.Table.Write.{
  put_chain-IsTable, find-put_chain, copies-put_chain, push_front-DiffersAt, clear_bucket,
  clear_bucket-IsTable, find-clear_bucket, copies-clear_bucket,
}
use redis_server_c.Store.State.{migrate_chain, migrate_bucket}
use redis_server_c.Store.State.Inv.{or_else, Shares, view2}

-- What `push_front` at the home bucket of a new key does to a table.
pub record Pushed (t : Table) (e : Entry) (t' : Table) : Type 0 where
  pub table : IsTable t'
  pub size : t'.size ≡ t.size
  pub used : t'.used ≡ t.used + 1
  pub finds : (q : Bytes) → find t' q ≡ (if bytes_eq e.key q then some e else find t q)
  pub copied : (q : Bytes) → copies t' q ≡ (if bytes_eq e.key q then 1 else 0) + copies t q

pub push_front-Pushed :
    (t : Table) (e : Entry)
    → IsTable t
    → 0 < t.size
    → t.used < 2 ^ 63
    → Pushed t e (push_front t (index t (fnv1a_hash e.key)) e)
unfolding push_front home lookup count find copies
push_front-Pushed t e v pos few =
    let c = chain_of t e.key in
    let d = push_front-DiffersAt e.key e c refl in
    record {
      table = put_chain-IsTable t v e.key pos (e ∷ c) (size_inc t.used) d (omega arith);
      size = refl;
      used = omega arith;
      finds = λ q.
          find-put_chain t v e.key pos (e ∷ c) (size_inc t.used) d q
          ∙ ground (arith, bytes_eq_iff e.key e.key);
      copied = λ q.
          copies-put_chain t v e.key pos (e ∷ c) (size_inc t.used) d q
          ∙ ground (arith, bytes_eq_iff e.key e.key, bytes_eq_iff e.key q);
    }

with_used : (t : Table) (n : ℕ) → t.used ≡ n → t ≡ record t { used = n }
with_used t n h = ap (λ m. record t { used = m }) h

-- Every entry of the chain goes to the target, and the source's count falls by as many.
record Moved (c : Chain) (src dst src' dst' : Table) : Type 0 where
  source : src' ≡ record src { used = src.used - length c }
  table : IsTable dst'
  size : dst'.size ≡ dst.size
  used : dst'.used ≡ dst.used + length c
  finds : (q : Bytes) → find dst' q ≡ or_else (find dst q) (lookup q c)
  copied : (q : Bytes) → copies dst' q ≡ count q c + copies dst q

migrate_chain-Moved :
    (c : Chain) (src dst : Table)
    → IsTable dst
    → 0 < dst.size
    → length c ≤ src.used
    → src.used + dst.used ≤ 2 ^ 62
    → ((q : Bytes) → count q c + copies dst q ≤ 1)
    → let (src', dst') = migrate_chain c src dst in Moved c src dst src' dst'
unfolding migrate_chain lookup count
migrate_chain-Moved [] src dst v pos enough few once = record {
  source = with_used src _ (omega arith);
  table = v;
  size = refl;
  used = omega arith;
  finds = λ q. ground arith;
  copied = λ q. omega arith;
}
migrate_chain-Moved (e ∷ c) src dst v pos enough few once =
    let p = push_front-Pushed dst e v pos (omega arith) in
    let src1 = record src { used = size_dec src.used } in
    let m =
      migrate_chain-Moved c src1 _ p.table (rw p.size pos) (omega arith) (omega (arith, p.used))
        (λ q. omega (arith, p.copied q, once q)) in
    record {
      source = m.source ∙ ap (λ n. record src { used = n }) (omega arith);
      table = m.table;
      size = m.size ∙ p.size;
      used = omega (arith, m.used, p.used);
      finds = λ q. ground (arith, m.finds q, p.finds q, once q, find_absent dst q);
      copied = λ q. omega (arith, m.copied q, p.copied q);
    }

-- One unit of work empties bucket `i` of the source and moves nothing else.
pub record BucketMoved (src dst : Table) (i : ℕ) (src' dst' : Table) : Type 0 where
  pub shares : Shares src' dst'
  pub size0 : src'.size ≡ src.size
  pub size1 : dst'.size ≡ dst.size
  pub used : src'.used + dst'.used ≡ src.used + dst.used
  pub emptied : bucket src' i ≡ []
  pub others : (j : ℕ) → bucket src j ≡ [] → bucket src' j ≡ []
  pub views : (q : Bytes) → view2 src' dst' q ≡ view2 src dst q

length-bucket-le : (t : Table) (i : ℕ) → IsTable t → i < t.size → length (bucket t i) ≤ t.used
length-bucket-le t i v h =
    omega (arith, v.counted, v.sized, length-flatten-set t.buckets i [] (omega (arith, v.sized)))

-- A bucket's entries under a key are those of the table, at the key's home, and none elsewhere.
count-bucket :
    (t : Table) (i : ℕ) (q : Bytes)
    → IsTable t
    → count q (bucket t i) ≡ (if i == home t q then copies t q else 0)
unfolding copies
count-bucket t i q v = ground (arith, v.placed q i)

lookup-bucket :
    (t : Table) (i : ℕ) (q : Bytes)
    → IsTable t
    → lookup q (bucket t i) ≡ (if i == home t q then find t q else none)
unfolding find
lookup-bucket t i q v = ground (arith, v.placed q i, lookup_absent q (bucket t i))

module _ (src dst : Table) (i : ℕ) (s : Shares src dst) (pos : 0 < dst.size)
    (lt : i < src.size) where
  chain-Moved :
      let (src', dst') = migrate_chain (bucket src i) src dst in
      Moved (bucket src i) src dst src' dst'
  chain-Moved =
      migrate_chain-Moved (bucket src i) src dst s.target pos (length-bucket-le src i s.source lt)
        (s.few) (λ q. ground (arith, count-bucket src i q s.source, s.once q))

  cleared : Table
  cleared = clear_bucket src i (src.used - length (bucket src i))

  bucket_moved :
      (dst' : Table)
      → Moved (bucket src i) src dst (record src { used = src.used - length (bucket src i) }) dst'
      → BucketMoved src dst i cleared dst'
  unfolding cleared view2
  bucket_moved dst' m =
      let n = src.used - length (bucket src i) in
      let in_range : i < length src.buckets = omega (arith, s.source.sized) in
      let fits = length-bucket-le src i s.source lt in
      record {
        shares = record {
          source = clear_bucket-IsTable src s.source i n in_range (omega arith);
          target = m.table;
          once = λ q. ground (
            arith,
            s.once q,
            m.copied q,
            count-bucket src i q s.source,
            copies-clear_bucket src s.source i n in_range q,
          );
          few = omega (arith, s.few, m.used);
        };
        size0 = refl;
        size1 = m.size;
        used = omega (arith, m.used);
        emptied = rw (get_or-set src.buckets i i [] [] in_range) (ground arith);
        others = λ j h. rw (get_or-set src.buckets i j [] [] in_range) (ground arith);
        views = λ q. ground (
          arith,
          s.once q,
          m.finds q,
          lookup-bucket src i q s.source,
          find-clear_bucket src s.source i n in_range q,
          find_absent src q,
          find_absent dst q,
        );
      }

  pub migrate_bucket-BucketMoved :
      let (src', dst') = migrate_bucket src dst i in BucketMoved src dst i src' dst'
  unfolding migrate_bucket cleared
  migrate_bucket-BucketMoved =
      rw chain-Moved.source (bucket_moved _ (rw chain-Moved.source at chain-Moved))
