-- ===== src/Store/State/Rehash.antt =====
-- `rehash_step` keeps the invariant and loses no entry: the abstract map and the number of entries
-- stay as they are, also when the two tables are exchanged.

use redis_server_c.Prelude.{
  ℕ, zero, suc, ◌+◌, ◌≤◌, ◌<◌, ◌≡◌, ◌⊎◌, refl, sym, ◌∙◌, List, [], ◌∷◌, Option, none, some, arith,
  Bytes, get_or_beyond, length-flatten_empty, ltb, leb, ltb→lt, leb→le, inl, inr, Bool-cases,
}
use redis_server_c.Store.Chain.Laws.{lookup}
use redis_server_c.Store.Table.{Table, bucket, table_init}
use redis_server_c.Store.Table.Inv.{
  home, find, table_init-IsTable, find-table_init, copies-table_init,
}
use redis_server_c.Store.State.{
  Store, migrate_bucket, rehash_scan, finish_rehash, rehash_step, empty_visits_limit,
}
use redis_server_c.Store.State.Inv.{IsMigrating, IsIdle, IsPow2-pos, Phase, IsValid, view2, view}
use redis_server_c.Store.State.Migrate.{migrate_bucket-BucketMoved}

-- The walk over the buckets from `i` on stopped at `j`.
pub record Scanned (src dst : Table) (i : ℕ) (src' dst' : Table) (j : ℕ) : Type 0 where
  pub migrating : IsMigrating src' dst' j
  pub onward : i ≤ j
  pub size0 : src'.size ≡ src.size
  pub used : src'.used + dst'.used ≡ src.used + dst.used
  pub views : (q : Bytes) → view2 src' dst' q ≡ view2 src dst q

pub List-cases {ℓ} : {A : Type ℓ} (c : List A) → (c ≡ []) ⊎ ((x : A) × (r : List A) × (c ≡ x ∷ r))
List-cases [] = inl refl
List-cases (x ∷ r) = inr (x, r, refl)

pub skip_empty :
    (src dst : Table) (i : ℕ)
    → IsMigrating src dst i
    → bucket src i ≡ []
    → IsMigrating src dst (i + 1)
skip_empty src dst i m e = record {
  shares = m.shares;
  wide0 = m.wide0;
  wide1 = m.wide1;
  drained = λ j h. ground (arith, m.drained j, e);
}

pub one_bucket :
    (src dst : Table) (i : ℕ)
    → IsMigrating src dst i
    → i < src.size
    → let (src', dst') = migrate_bucket src dst i in Scanned src dst i src' dst' (i + 1)
one_bucket src dst i m lt =
    let b = migrate_bucket-BucketMoved src dst i m.shares (IsPow2-pos dst.size m.wide1) lt in
    record {
      migrating = record {
        shares = b.shares;
        wide0 = rw b.size0 (m.wide0);
        wide1 = rw b.size1 (m.wide1);
        drained = λ j h. ground (arith, m.drained j, b.emptied, b.others j);
      };
      onward = omega arith;
      size0 = b.size0;
      used = b.used;
      views = b.views;
    }

pub rehash_scan-Scanned :
    (visits : ℕ) (src dst : Table) (i : ℕ)
    → IsMigrating src dst i
    → let (src', dst', j) = rehash_scan visits src dst i in Scanned src dst i src' dst' j
unfolding rehash_scan
rehash_scan-Scanned zero src dst i m = record {
  migrating = m;
  onward = omega arith;
  size0 = refl;
  used = refl;
  views = λ q. refl;
}
rehash_scan-Scanned (suc visits) src dst i m = elim (Bool-cases (ltb i src.size)) [
  | inl lt ↦ elim (List-cases (bucket src i)) [
    | inl e ↦
        let r = rehash_scan-Scanned visits src dst (i + 1) (skip_empty src dst i m e) in
        rw (lt, e, rehash_scan)
          (record {
            migrating = r.migrating;
            onward = omega (arith, r.onward);
            size0 = r.size0;
            used = r.used;
            views = r.views;
          })
    | inr (x, r, e) ↦ rw (lt, e, rehash_scan) (one_bucket src dst i m (ltb→lt i src.size lt))
  ]
  | inr ge ↦
      rw (ge, rehash_scan)
        (record {
          migrating = m;
          onward = omega arith;
          size0 = refl;
          used = refl;
          views = λ q. refl;
        })
]

-- What an operation that only rehashes keeps.
pub record Keeps (s s' : Store) : Type 0 where
  pub valid : IsValid s'
  pub used : s'.ht0.used + s'.ht1.used ≡ s.ht0.used + s.ht1.used
  pub views : (q : Bytes) → view s' q ≡ view s q

module _ (src dst : Table) (i : ℕ) (m : IsMigrating src dst i) (done : src.size ≤ i) where
  all_empty : (j : ℕ) → bucket src j ≡ []
  all_empty j = elim (Bool-cases (ltb j i)) [
    | inl h ↦ m.drained j (ltb→lt j i h)
    | inr h ↦ get_or_beyond src.buckets j [] (let e = m.shares.source.sized in ground arith)
  ]

  drained-used : src.used ≡ 0
  drained-used = sym m.shares.source.counted ∙ length-flatten_empty src.buckets all_empty

  drained-find : (q : Bytes) → find src q ≡ none
  unfolding find lookup
  drained-find q = rw (all_empty (home src q))

  exchanged-IsIdle : IsIdle dst (table_init 0)
  exchanged-IsIdle = record {
    shares = record {
      source = m.shares.target;
      target = table_init-IsTable 0;
      once = λ q. omega (arith, m.shares.once q, copies-table_init 0 q);
      few = unfold table_init in omega (arith, m.shares.few);
    };
    wide0 = m.wide1;
    unallocated = unfold table_init in refl;
  }

  exchanged-view2 : (q : Bytes) → view2 dst (table_init 0) q ≡ view2 src dst q
  unfolding view2
  exchanged-view2 q = ground (arith, drained-find q, find-table_init 0 q)

finish_rehash-Keeps :
    (src dst : Table) (i : ℕ) {j : Option ℕ}
    → IsMigrating src dst i
    → Keeps (record { ht0 = src; ht1 = dst; rehash_idx = j }) (finish_rehash (src, dst, i))
unfolding finish_rehash view
finish_rehash-Keeps src dst i m = elim (Bool-cases (leb src.size i)) [
  | inl done ↦
      let le = leb→le src.size i done in
      rw done (record {
        valid = exchanged-IsIdle src dst i m le;
        used = unfold table_init in omega (arith, drained-used src dst i m le);
        views = exchanged-view2 src dst i m le;
      })
  | inr more ↦ rw more (record { valid = m; used = refl; views = λ q. refl })
]

-- A step of the rehash keeps a valid store valid, its abstract map and its number of entries.
pub rehash_step-Keeps : (s : Store) → IsValid s → Keeps s (rehash_step s)
unfolding rehash_step
rehash_step-Keeps s v = step s.rehash_idx s.ht0 s.ht1 v
  where
    step :
        (i : Option ℕ) (src dst : Table)
        → Phase i src dst
        → let s : Store = record { ht0 = src; ht1 = dst; rehash_idx = i } in Keeps s (rehash_step s)
    step none src dst v = record { valid = v; used = refl; views = λ q. refl }
    step (some i) src dst v =
        let r = rehash_scan-Scanned empty_visits_limit src dst i v in
        let (src', dst', j) = rehash_scan empty_visits_limit src dst i in
        let k = finish_rehash-Keeps src' dst' j {j = some i} r.migrating in
        record {
          valid = k.valid;
          used = k.used ∙ r.used;
          views = λ q. k.views q ∙ unfold view in r.views q;
        }
