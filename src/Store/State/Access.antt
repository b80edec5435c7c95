-- ===== src/Store/State/Access.antt =====
-- Looking a key up in both tables, and the writes through the slot that is found.
use redis_server_c.Prelude.{
  ℕ, ◌+◌, ◌≤◌, ◌≡◌, ap, ◌∙◌, [], Option, none, some, arith, Bytes, set, bytes_eq, bytes_eq_iff,
  if◌then◌else◌, inl, inr, Option-cases, true, false, Bool,
}
use redis_server_c.Store.Hash.{fnv1a_hash}
use redis_server_c.Store.Chain.{Entry, unlink_at}
use redis_server_c.Store.Table.{Table, Slot, bucket, size_dec}
use redis_server_c.Store.Table.Inv.{home, find, find_absent, copies_present, find_unallocated}
use redis_server_c.Store.Table.Write.{put_chain}
use redis_server_c.Store.Table.Slots.{
  PointsTo, find_in_table_absent, find_in_table_present, PointsTo-find, PointsTo-key, Written,
  unlinked_used, unlinked_Written, assigned_Written,
}
use redis_server_c.Store.State.{
  Store, Side, first, second, is_rehashing, find_slot_either, unlink_in, assign_in, unlink, assign,
}
use redis_server_c.Store.State.Inv.{Shares, Phase, Phase-Shares, IsValid, view2, view}

abbrev pub held : Option Entry → ℕ
held none = 0
held (some e) = 1

abbrev pub total : Store → ℕ
total s = s.ht0.used + s.ht1.used

-- The operation leaves `o` under `k`, changes nothing else, and keeps the invariant and the count.
pub record Wrote (s : Store) (k : Bytes) (o : Option Entry) (s' : Store) : Type 0 where
  pub valid : IsValid s'
  pub views : (q : Bytes) → view s' q ≡ (if bytes_eq k q then o else view s q)
  pub used : total s' + held (view s k) ≡ total s + held o

-- One table is replaced by another of the same size that has no new occupied bucket.
pub Phase-first :
    (i : Option ℕ) (src src' dst : Table)
    → Phase i src dst
    → Shares src' dst
    → src'.size ≡ src.size
    → ((j : ℕ) → bucket src j ≡ [] → bucket src' j ≡ [])
    → Phase i src' dst
Phase-first none src src' dst v s size empty = record {
  shares = s;
  wide0 = rw size (v.wide0);
  unallocated = v.unallocated;
}
Phase-first (some i) src src' dst v s size empty = record {
  shares = s;
  wide0 = rw size (v.wide0);
  wide1 = v.wide1;
  drained = λ j h. empty j (v.drained j h);
}

pub Phase-second :
    (i : Option ℕ) (src dst dst' : Table)
    → Phase i src dst
    → Shares src dst'
    → dst'.size ≡ dst.size
    → Phase i src dst'
Phase-second none src dst dst' v s size = record {
  shares = s;
  wide0 = v.wide0;
  unallocated = size ∙ v.unallocated;
}
Phase-second (some i) src dst dst' v s size = record {
  shares = s;
  wide0 = v.wide0;
  wide1 = rw size (v.wide1);
  drained = v.drained;
}

unlink_in-put_chain :
    (t : Table) (k : Bytes) (slot : Slot)
    → slot.at ≡ home t k
    → unlink_in t slot
      ≡ put_chain t k (unlink_at slot.place (bucket t (home t k))) (size_dec t.used)
unfolding unlink_in
unlink_in-put_chain t k slot h =
    ap
      (λ i. record t {
        buckets = set t.buckets i (unlink_at slot.place (bucket t i));
        used = size_dec t.used;
      })
      h

assign_in-put_chain :
    (t : Table) (k : Bytes) (slot : Slot) (e : Entry)
    → slot.at ≡ home t k
    → assign_in t slot e ≡ put_chain t k (set (bucket t (home t k)) slot.place e) t.used
unfolding assign_in
assign_in-put_chain t k slot e h =
    ap (λ i. record t { buckets = set t.buckets i (set (bucket t i) slot.place e); used = t.used })
      h

-- Where `find_slot_either` found the key.
abbrev pub Found : Store → Bytes → Side × Slot → Type 0
Found s k (first, slot) = PointsTo s.ht0 k slot
Found s k (second, slot) = PointsTo s.ht1 k slot × (find s.ht0 k ≡ none)

module _ (s : Store) (v : IsValid s) (k : Bytes) where
  abbrev shares : Shares s.ht0 s.ht1
  shares = Phase-Shares s.rehash_idx s.ht0 s.ht1 v

  idle_second : is_rehashing s ≡ false → (find s.ht1 k ≡ none)
  idle_second h = go s.rehash_idx v h
    where
      go :
          (i : Option ℕ)
          → Phase i s.ht0 s.ht1
          → elim i as (λ _. Bool) [ none ↦ false | some i ↦ true ] ≡ false
          → find s.ht1 k ≡ none
      go none w h = find_unallocated s.ht1 k (w.shares.target) (w.unallocated)
      go (some i) w h = cc

  -- A key that is not found in the tables that are searched is in no table.
  pub find_slot_either_absent : find_slot_either s k (fnv1a_hash k) ≡ none → view s k ≡ none
  unfolding find_slot_either view view2
  find_slot_either_absent h = ground (
    arith,
    find_in_table_absent s.ht0 k (shares.source),
    find_in_table_absent s.ht1 k (shares.target),
    idle_second,
  )

  pub find_slot_either_present :
      (found : Side × Slot) → find_slot_either s k (fnv1a_hash k) ≡ some found → Found s k found
  unfolding find_slot_either
  find_slot_either_present (first, slot) h = find_in_table_present s.ht0 k slot (ground arith)
  find_slot_either_present (second, slot) h = (
    find_in_table_present s.ht1 k slot (ground arith),
    (find_in_table_absent s.ht0 k (shares.source) (ground arith)).0,
  )

  pub Found-view : (found : Side × Slot) → Found s k found → view s k ≡ some (found.1.entry)
  unfolding view view2
  Found-view (first, slot) p = ground (arith, PointsTo-find s.ht0 k slot p)
  Found-view (second, slot) p = ground (arith, PointsTo-find s.ht1 k slot p.0, p.1)

  pub Found-key : (found : Side × Slot) → Found s k found → found.1.entry.key ≡ k
  Found-key (first, slot) p = PointsTo-key s.ht0 k slot p
  Found-key (second, slot) p = PointsTo-key s.ht1 k slot p.0

  module _ {o : Option Entry} (t : Table) where
    first_Wrote :
        Written s.ht0 k o t
        → find s.ht1 k ≡ none
        → t.used + held (view s k) ≡ s.ht0.used + held o
        → t.used ≤ s.ht0.used
        → Wrote s k o (record s { ht0 = t })
    unfolding view view2
    first_Wrote w other count less = record {
      valid =
          Phase-first s.rehash_idx s.ht0 t s.ht1 v
            (record {
              source = w.table;
              target = shares.target;
              once = λ q. omega (arith, w.copied q, shares.once q);
              few = omega (arith, shares.few);
            })
            (w.size) (w.emptied);
      views = λ q. ground (arith, w.finds q, other, bytes_eq_iff k q);
      used = omega arith;
    }

    second_Wrote :
        Written s.ht1 k o t
        → find s.ht0 k ≡ none
        → t.used + held (view s k) ≡ s.ht1.used + held o
        → t.used ≤ s.ht1.used
        → Wrote s k o (record s { ht1 = t })
    unfolding view view2
    second_Wrote w other count less = record {
      valid =
          Phase-second s.rehash_idx s.ht0 s.ht1 t v
            (record {
              source = shares.source;
              target = w.table;
              once = λ q. omega (arith, w.copied q, shares.once q);
              few = omega (arith, shares.few);
            })
            (w.size);
      views = λ q. ground (arith, w.finds q, other, bytes_eq_iff k q);
      used = omega arith;
    }

  not_in_second : (slot : Slot) → PointsTo s.ht0 k slot → find s.ht1 k ≡ none
  not_in_second slot p = find_absent s.ht1 k (
      omega
        (arith, shares.once k, copies_present s.ht0 k (slot.entry) (PointsTo-find s.ht0 k slot p)))

  -- Unlinking the slot removes the key and nothing else.
  pub unlink-Wrote : (found : Side × Slot) → Found s k found → Wrote s k none (unlink s found)
  unfolding unlink
  unlink-Wrote (first, slot) p =
      let once = shares.once k in
      let few = shares.few in
      let w = unlinked_Written s.ht0 (shares.source) k slot p (omega arith) (omega arith) in
      let count = unlinked_used s.ht0 (shares.source) k slot p (omega arith) (omega arith) in
      rw (unlink_in-put_chain s.ht0 k slot (p.at_home)) (
        first_Wrote _ w (not_in_second slot p)
          (rw (Found-view (first, slot) p) (omega (arith, count))) (omega (arith, count)))
  unlink-Wrote (second, slot) (p, absent) =
      let once = shares.once k in
      let few = shares.few in
      let w = unlinked_Written s.ht1 (shares.target) k slot p (omega arith) (omega arith) in
      let count = unlinked_used s.ht1 (shares.target) k slot p (omega arith) (omega arith) in
      rw (unlink_in-put_chain s.ht1 k slot (p.at_home)) (
        second_Wrote _ w absent (rw (Found-view (second, slot) (p, absent)) (omega (arith, count)))
          (omega (arith, count)))

  -- Assigning to the entry in place changes what is under the key and nothing else.
  pub assign-Wrote :
      (found : Side × Slot) (e : Entry)
      → Found s k found
      → e.key ≡ k
      → Wrote s k (some e) (assign s found e)
  unfolding assign
  assign-Wrote (first, slot) e p same = rw (assign_in-put_chain s.ht0 k slot e (p.at_home)) (
      first_Wrote _ (assigned_Written s.ht0 (shares.source) k slot p e same) (not_in_second slot p)
        (rw (Found-view (first, slot) p)) (omega arith))
  assign-Wrote (second, slot) e (p, absent) same =
      rw (assign_in-put_chain s.ht1 k slot e (p.at_home)) (
        second_Wrote _ (assigned_Written s.ht1 (shares.target) k slot p e same) absent
          (rw (Found-view (second, slot) (p, absent))) (omega arith))

  -- A key that is there is one of the entries.
  pub held-le-total : held (view s k) ≤ total s
  held-le-total = elim (Option-cases (find_slot_either s k (fnv1a_hash k))) [
    | inl gone ↦ rw (find_slot_either_absent gone) (omega arith)
    | inr (found, eq) ↦
        let w = unlink-Wrote found (find_slot_either_present found eq) in omega (arith, w.used)
  ]
