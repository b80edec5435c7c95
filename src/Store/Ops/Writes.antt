-- ===== src/Store/Ops/Writes.antt =====
-- `store_set` and `store_del` refine the specification.
use redis_server_c.Prelude.{
  ◌^◌, ◌<◌, ◌≡◌, sym, ap, ◌∙◌, none, some, arith, Bytes, inl, inr, Option-cases,
}
use redis_server_c.Prelude.Int.{ℤ}
use redis_server_c.Store.Hash.{fnv1a_hash}
use redis_server_c.Store.Chain.{Entry}
use redis_server_c.Store.Table.{Slot}
use redis_server_c.Store.State.{Store, Side, find_slot_either, assign, unlink, rehash_step}
use redis_server_c.Store.State.Access.{
  Found, find_slot_either_absent, find_slot_either_present, Found-view, Found-key, unlink-Wrote,
  assign-Wrote,
}
use redis_server_c.Store.Spec
use redis_server_c.Store.Spec.{Dict, live, put, at, touch}
use redis_server_c.Store.Ops.Insert.{insert_entry-Wrote}
use redis_server_c.Store.Ops.Locate.{Wrote-refl}
use redis_server_c.Store.Ops.{insert_entry, store_set, store_del}
use redis_server_c.Store.Ops.Model.{Models, Refines, Models-put, Models-rehash}

module _ (d : Dict) (s : Store) (m : Models d s) (k : Bytes) where
  here : Models d (rehash_step s)
  here = Models-rehash d s m

  -- The slot of the key after the rehash step, if the map has the key.
  absent : find_slot_either (rehash_step s) k (fnv1a_hash k) ≡ none → d.map k ≡ none
  absent h = sym (here.views k) ∙ find_slot_either_absent (rehash_step s) here.valid k h

  present :
      (found : Side × Slot)
      → find_slot_either (rehash_step s) k (fnv1a_hash k) ≡ some found
      → Found (rehash_step s) k found × (d.map k ≡ some (found.1.entry))
  present found h =
      let p = find_slot_either_present (rehash_step s) here.valid k found h in
      (p, sym (here.views k) ∙ Found-view (rehash_step s) here.valid k found p)

  -- A deletion removes the entry, expired or not, and tells whether there was one.
  pub store_del-Refines : Refines (store_del s k) (Spec.del d k)
  unfolding store_del Spec.del
  store_del-Refines = elim (Option-cases (find_slot_either (rehash_step s) k (fnv1a_hash k))) [
    | inl gone ↦
        let stay =
          Models-put d (rehash_step s) (rehash_step s) k here
            (Wrote-refl (rehash_step s) k here.valid) in
        let e = here.views k ∙ absent gone in rw (gone, store_del) (rw e at stay, rw (absent gone))
    | inr (found, eq) ↦
        let (p, there) = present found eq in
        rw (eq, store_del)
          (
            Models-put d (rehash_step s) (unlink (rehash_step s) found) k here
                (unlink-Wrote (rehash_step s) here.valid k found p),
            rw there,
          )
  ]

  -- A write stores the value with its expiry, and returns 1 if the key is new.
  pub store_set-Refines :
      (v : Bytes) (x : ℤ) → d.card < 2 ^ 62 → Refines (store_set s k v x) (Spec.set d k v x)
  unfolding store_set Spec.set
  store_set-Refines v x room =
      let e : Entry = record { key = k; val = v; expire_at_ms = x } in
      elim (Option-cases (find_slot_either (rehash_step s) k (fnv1a_hash k))) [
        | inl gone ↦
            rw (gone, store_set)
              (
                Models-put d (rehash_step s) (insert_entry (rehash_step s) e) k here (
                    insert_entry-Wrote (rehash_step s) e here.valid (here.views k ∙ absent gone)
                      (omega (arith, here.counted))),
                rw (absent gone),
              )
        | inr (found, eq) ↦
            let (p, there) = present found eq in
            let same = Found-key (rehash_step s) here.valid k found p in
            let e' : Entry = record (found.1.entry) { val = v; expire_at_ms = x } in
            let w = assign-Wrote (rehash_step s) here.valid k found e' p same in
            let renamed : e' ≡ e =
              ap (λ j. record (found.1.entry) { key = j; val = v; expire_at_ms = x }) same in
            rw (eq, store_set)
              (
                rw renamed (
                    Models-put d (rehash_step s) (assign (rehash_step s) found e) k here
                      (rw renamed at w)),
                rw there,
              )
      ]
