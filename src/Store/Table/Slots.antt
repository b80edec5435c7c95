-- ===== src/Store/Table/Slots.antt =====
-- The slot that `find_in_table` returns, and the two writes through it.
use redis_server_c.Prelude.{
  ℕ, suc, ◌^◌, ◌≤◌, ◌<◌, ◌≡◌, ◌≢◌, refl, ◌∙◌, [], Option, none, some, arith, Bytes, length, set,
  ◌==◌, length-set, get_or-set, bytes_eq, bytes_eq_iff, if◌then◌else◌, inl, inr, Bool-cases,
  length-flatten-set,
}
use redis_server_c.Store.Hash.{fnv1a_hash}
use redis_server_c.Store.Chain.{Entry, Chain, find_in_chain, unlink_at}
use redis_server_c.Store.Chain.Laws.{
  lookup, count, lookup-find_in_chain, count_absent, lookup-key, lookup-unlink_at, count-unlink_at,
  lookup-set, count-set, length-unlink_at, not_found,
}
use redis_server_c.Store.Table.{Table, Slot, bucket, find_in_table, size_dec}
use redis_server_c.Store.Table.Inv.{
  home, chain_of, find, copies, IsTable, home-lt, find_unallocated, copies_unallocated,
}
use redis_server_c.Store.Table.Write.{
  DiffersAt, put_chain, put_chain-IsTable, find-put_chain, copies-put_chain, unlink_at-DiffersAt,
  set-DiffersAt,
}

-- The slot is that of the key: in its home bucket, at the entry that the table holds under it.
pub record PointsTo (t : Table) (k : Bytes) (slot : Slot) : Type 0 where
  pub at_home : slot.at ≡ home t k
  pub in_chain : find_in_chain k (chain_of t k) ≡ some (slot.place, slot.entry)
  pub allocated : 0 < t.size

module _ (t : Table) (k : Bytes) where
  pub find_in_table_absent :
      IsTable t → find_in_table t k (fnv1a_hash k) ≡ none → (find t k ≡ none) × (copies t k ≡ 0)
  unfolding find_in_table find copies home
  find_in_table_absent v h = elim (Bool-cases (t.size == 0)) [
    | inl empty ↦ (
      unfold find home in find_unallocated t k v (ground arith),
      unfold copies home in copies_unallocated t k v (ground arith),
    )
    | inr full ↦
        let gone : lookup k (chain_of t k) ≡ none =
          ground (arith, lookup-find_in_chain k (chain_of t k)) in
        (gone, count_absent k (chain_of t k) gone)
  ]

  pub find_in_table_present :
      (slot : Slot) → find_in_table t k (fnv1a_hash k) ≡ some slot → PointsTo t k slot
  unfolding find_in_table home
  find_in_table_present slot h = record {
    at_home = ground arith;
    in_chain = ground arith;
    allocated = ground arith;
  }

  module _ (slot : Slot) (p : PointsTo t k slot) where
    pub PointsTo-find : find t k ≡ some (slot.entry)
    unfolding find
    PointsTo-find = lookup-find_in_chain k (chain_of t k) ∙ ground (arith, p.in_chain)

    pub PointsTo-key : slot.entry.key ≡ k
    PointsTo-key = lookup-key k (chain_of t k) (slot.entry) (unfold find in PointsTo-find)

-- The table after a write under `k` that leaves `o` there.
pub record Written (t : Table) (k : Bytes) (o : Option Entry) (t' : Table) : Type 0 where
  pub table : IsTable t'
  pub size : t'.size ≡ t.size
  pub finds : (q : Bytes) → find t' q ≡ (if bytes_eq k q then o else find t q)
  pub copied : (q : Bytes) → copies t' q ≤ copies t q
  pub emptied : (j : ℕ) → bucket t j ≡ [] → bucket t' j ≡ []

module _ (t : Table) (v : IsTable t) (k : Bytes) (slot : Slot) (p : PointsTo t k slot) where
  fits : length (chain_of t k) ≤ t.used
  fits =
      omega
        (arith, v.counted, length-flatten-set t.buckets (home t k) [] (home-lt t k v (p.allocated)))

  bucket_occupied : (j : ℕ) → bucket t j ≡ [] → home t k ≢ j
  bucket_occupied j e h = not_found k (slot.place, slot.entry) (rw (h, e) at (p.in_chain))

  still_empty : (c : Chain) (n j : ℕ) → bucket t j ≡ [] → bucket (put_chain t k c n) j ≡ []
  still_empty c n j e =
      rw (get_or-set t.buckets (home t k) j c [] (home-lt t k v (p.allocated)))
        (ground (arith, bucket_occupied j e))

  abbrev shorter : Chain
  shorter = unlink_at (slot.place) (chain_of t k)

  module _ (once : copies t k ≤ 1) (few : t.used ≤ 2 ^ 62) where
    unlinked_differs : DiffersAt k (chain_of t k) shorter
    unlinked_differs =
        unlink_at-DiffersAt k (chain_of t k) (slot.place) (slot.entry) (p.in_chain)
          (unfold copies in once)

    -- The count of entries falls by one.
    pub unlinked_used : suc (size_dec t.used) ≡ t.used
    unlinked_used =
        omega
          (arith, fits, length-unlink_at k (chain_of t k) (slot.place) (slot.entry) (p.in_chain))

    unlinked_count : count k shorter ≤ copies t k
    unfolding copies
    unlinked_count =
        omega (arith, count-unlink_at k k (chain_of t k) (slot.place) (slot.entry) (p.in_chain))

    unlinked_lookup : lookup k shorter ≡ none
    unlinked_lookup = ground (
      arith,
      bytes_eq_iff k k,
      lookup-unlink_at k k (chain_of t k) (slot.place) (slot.entry) (p.in_chain)
          (unfold copies in once),
    )

    unlinked_copies : (q : Bytes) → copies (put_chain t k shorter (size_dec t.used)) q ≤ copies t q
    unlinked_copies q = ground (
      arith,
      copies-put_chain t v k (p.allocated) shorter (size_dec t.used) unlinked_differs q,
      bytes_eq_iff k q,
      unlinked_count,
    )

    pub unlinked_Written : Written t k none (put_chain t k shorter (size_dec t.used))
    unlinked_Written = record {
      table = put_chain-IsTable t v k (p.allocated) shorter (size_dec t.used) unlinked_differs (
          omega (
            arith,
            unlinked_used,
            length-unlink_at k (chain_of t k) (slot.place) (slot.entry) (p.in_chain),
          ));
      size = refl;
      finds = λ q. ground (
        arith,
        find-put_chain t v k (p.allocated) shorter (size_dec t.used) unlinked_differs q,
        unlinked_lookup,
      );
      copied = unlinked_copies;
      emptied = still_empty shorter (size_dec t.used);
    }

  module _ (e : Entry) (same : e.key ≡ k) where
    abbrev changed : Chain
    changed = set (chain_of t k) (slot.place) e

    assigned_differs : DiffersAt k (chain_of t k) changed
    assigned_differs = set-DiffersAt k (chain_of t k) (slot.place) (slot.entry) (p.in_chain) e same

    assigned_copies : count k changed ≡ copies t k
    unfolding copies
    assigned_copies = count-set k k (chain_of t k) (slot.place) (slot.entry) e (p.in_chain) same

    pub assigned_Written : Written t k (some e) (put_chain t k changed t.used)
    assigned_Written = record {
      table =
          put_chain-IsTable t v k (p.allocated) changed t.used assigned_differs
            (rw length-set refl);
      size = refl;
      finds = λ q. ground (
        arith,
        find-put_chain t v k (p.allocated) changed t.used assigned_differs q,
        lookup-set k k (chain_of t k) (slot.place) (slot.entry) e (p.in_chain) same,
        bytes_eq_iff k k,
      );
      copied = λ q. ground (
        arith,
        copies-put_chain t v k (p.allocated) changed t.used assigned_differs q,
        bytes_eq_iff k q,
        assigned_copies,
      );
      emptied = still_empty changed t.used;
    }
