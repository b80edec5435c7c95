-- ===== src/Store/Ops/Insert.antt =====
-- Adding an entry under a new key, and the start of a rehash.
use mathlib.Core.List.{flatten}
use redis_server_c.Prelude.{
  ℕ, ◌+◌, ◌*◌, ◌%◌, ◌^◌, ◌≤◌, ◌<◌, ◌≡◌, refl, ◌∙◌, List, [], ◌∷◌, Option, none, some, arith, length,
  bytes_eq_iff, ltb, inl, inr, Bool-cases,
}
use redis_server_c.Store.Hash.{next_pow2}
use redis_server_c.Store.Hash.Pow2.{next_pow2-IsLeastPow2}
use redis_server_c.Store.Chain.{Entry}
use redis_server_c.Store.Table.{Table, table_init}
use redis_server_c.Store.Table.Inv.{
  find, IsTable, find_unallocated, copies_absent, copies_unallocated, table_init-IsTable,
  find-table_init, copies-table_init,
}
use redis_server_c.Store.State.{Store, maybe_start_rehash}
use redis_server_c.Store.State.Inv.{IsMigrating, IsIdle, IsPow2-pos, IsValid, view2, view}
use redis_server_c.Store.State.Migrate.{Pushed, push_front-Pushed}
use redis_server_c.Store.State.Rehash.{Keeps}
use redis_server_c.Store.State.Access.{total, Wrote}
use redis_server_c.Store.Ops.{insert_entry}

length-unallocated : (t : Table) → IsTable t → t.size ≡ 0 → t.used ≡ 0
unfolding flatten
length-unallocated t v e = go t.buckets (v.sized ∙ e) (v.counted)
  where
    go : (bs : List (List Entry)) → length bs ≡ 0 → length (flatten bs) ≡ t.used → t.used ≡ 0
    go [] h c = omega arith
    go (x ∷ bs) h c = absurd (omega arith)

module _ (src dst : Table) (v : IsIdle src dst) where
  start_IsMigrating :
      src.size ≤ src.used → IsMigrating src (table_init (next_pow2 (src.size * 2 % 2 ^ 64))) 0
  start_IsMigrating full =
      let few = v.shares.few in
      let n = src.size * 2 % 2 ^ 64 in
      let pow =
        next_pow2-IsLeastPow2 n (let pos = IsPow2-pos src.size (v.wide0) in omega arith)
          (omega arith) in
      record {
        shares = record {
          source = v.shares.source;
          target = table_init-IsTable (next_pow2 n);
          once = λ q. omega (arith, v.shares.once q, copies-table_init (next_pow2 n) q);
          few = unfold table_init in omega arith;
        };
        wide0 = v.wide0;
        wide1 = unfold table_init in pow.pow2;
        drained = λ j h. absurd (omega arith);
      }

  -- Whether or not a rehash starts, the map and the count stay.
  pub maybe_start_rehash-Keeps :
      let s : Store = record { ht0 = src; ht1 = dst; rehash_idx = none } in
      Keeps s (maybe_start_rehash s)
  unfolding maybe_start_rehash view view2
  maybe_start_rehash-Keeps = elim (Bool-cases (ltb src.used src.size)) [
    | inl sparse ↦ rw sparse (record { valid = v; used = refl; views = λ q. refl })
    | inr full ↦ rw full (record {
      valid = start_IsMigrating (ground arith);
      used =
          unfold table_init in
          omega (arith, length-unallocated dst (v.shares.target) (v.unallocated));
      views = λ q. rw (
        find-table_init (next_pow2 (src.size * 2 % 2 ^ 64)) q,
        find_unallocated dst q (v.shares.target) (v.unallocated),
      );
    })
  ]

module _ (src dst : Table) (e : Entry) where
  -- The new entry in `ht[0]`, when no rehash is going on.
  Pushed-first :
      (v : IsIdle src dst) (t : Table)
      → Pushed src e t
      → find src e.key ≡ none
      → src.used + dst.used < 2 ^ 62
      → IsIdle t dst
  Pushed-first v t p absent room = record {
    shares = record {
      source = p.table;
      target = v.shares.target;
      once = λ q. ground (
        arith,
        v.shares.once q,
        p.copied q,
        copies_unallocated dst q (v.shares.target) (v.unallocated),
        bytes_eq_iff e.key q,
        copies_absent src e.key absent,
      );
      few = omega (arith, p.used);
    };
    wide0 = rw p.size (v.wide0);
    unallocated = v.unallocated;
  }

  -- The new entry in `ht[1]`, during a rehash.
  Pushed-second :
      (i : ℕ) (v : IsMigrating src dst i) (t : Table)
      → Pushed dst e t
      → find src e.key ≡ none
      → find dst e.key ≡ none
      → src.used + dst.used < 2 ^ 62
      → IsMigrating src t i
  Pushed-second i v t p absent0 absent1 room = record {
    shares = record {
      source = v.shares.source;
      target = p.table;
      once = λ q. ground (
        arith,
        v.shares.once q,
        p.copied q,
        bytes_eq_iff e.key q,
        copies_absent src e.key absent0,
        copies_absent dst e.key absent1,
      );
      few = omega (arith, p.used);
    };
    wide0 = v.wide0;
    wide1 = rw p.size (v.wide1);
    drained = v.drained;
  }

  view2_absent : view2 src dst e.key ≡ none → (find src e.key ≡ none) × (find dst e.key ≡ none)
  unfolding view2
  view2_absent h = ground arith

  insert_idle :
      let s : Store = record { ht0 = src; ht1 = dst; rehash_idx = none } in
      IsIdle src dst
      → view s e.key ≡ none
      → src.used + dst.used < 2 ^ 62
      → Wrote s e.key (some e) (insert_entry s e)
  unfolding insert_entry view view2
  insert_idle v gone room =
      let p =
        push_front-Pushed src e (v.shares.source) (IsPow2-pos src.size (v.wide0)) (omega arith) in
      let absent = view2_absent gone in
      let k = maybe_start_rehash-Keeps _ dst (Pushed-first v _ p (absent.0) room) in
      record {
        valid = k.valid;
        views = λ q. k.views q ∙ ground (arith, p.finds q, bytes_eq_iff e.key q, absent.1);
        used = rw gone (omega (arith, k.used, p.used));
      }

  insert_migrating :
      (i : ℕ)
      → let s : Store = record { ht0 = src; ht1 = dst; rehash_idx = some i } in
        IsMigrating src dst i
        → view s e.key ≡ none
        → src.used + dst.used < 2 ^ 62
        → Wrote s e.key (some e) (insert_entry s e)
  unfolding insert_entry view view2
  insert_migrating i v gone room =
      let p =
        push_front-Pushed dst e (v.shares.target) (IsPow2-pos dst.size (v.wide1)) (omega arith) in
      let absent = view2_absent gone in
      record {
        valid = Pushed-second i v _ p (absent.0) (absent.1) room;
        views = λ q. ground (arith, p.finds q, bytes_eq_iff e.key q, absent.0);
        used = rw gone (omega (arith, p.used));
      }

-- Inserting under an absent key adds that entry and nothing else, and may start a rehash.
pub insert_entry-Wrote :
    (s : Store) (e : Entry)
    → IsValid s
    → view s e.key ≡ none
    → total s < 2 ^ 62
    → Wrote s e.key (some e) (insert_entry s e)
insert_entry-Wrote s e = go s.rehash_idx
  where
    go :
        (i : Option ℕ)
        → let s : Store = record s { rehash_idx = i } in
          IsValid s
          → view s e.key ≡ none
          → total s < 2 ^ 62
          → Wrote s e.key (some e) (insert_entry s e)
    go none v gone room = insert_idle s.ht0 s.ht1 e v gone room
    go (some i) v gone room = insert_migrating s.ht0 s.ht1 e i v gone room
