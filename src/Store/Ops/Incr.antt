-- ===== src/Store/Ops/Incr.antt =====
-- `store_incrby` refines the specification, and its result never leaves the range of `int64_t`.
use redis_server_c.Prelude.{
  ◌^◌, ◌≤◌, ◌<◌, ◌≡◌, refl, ◌∙◌, Option, none, some, arith, Bytes, bytes_eq_iff, inl, inr,
  Bool-cases, Option-cases,
}
use redis_server_c.Prelude.Int.{ℤ, pos, ◌+ℤ◌}
use redis_server_c.Store.Number.{print_ll}
use redis_server_c.Store.Chain.{Entry}
use redis_server_c.Store.State.{Store, locate_live, rehash_step}
use redis_server_c.Store.State.Access.{held, held-le-total}
use redis_server_c.Store.Spec
use redis_server_c.Store.Spec.{Dict, live, put, at, touch}
use redis_server_c.Store.Ops.Model.{Models, Refines, Seen, seen, touched, rewritten}
use redis_server_c.Store.Ops.Writes.{store_set-Refines}
use redis_server_c.Store.Ops.{
  Lookup, overflows, incr_found, incr_current, incr_store, store_set, store_incrby,
}

held-le-card : (d : Dict) (s : Store) (k : Bytes) → Models d s → held (d.map k) ≤ d.card
held-le-card d s k m = rw (← m.views k, ← m.counted) (held-le-total s m.valid k)

-- Removing a key and then writing it is writing it.
put-put-none :
    (d : Dict) (k : Bytes) (o : Option Entry) (s : Store)
    → held (d.map k) ≤ d.card
    → Models (put (put d k none) k o) s
    → Models (put d k o) s
unfolding put
put-put-none d k o s h m = record {
  valid = m.valid;
  views = λ q. m.views q ∙ ground arith;
  counted = m.counted ∙ ground (arith, bytes_eq_iff k k);
}

module _ (d : Dict) (s : Store) (m : Models d s) (k : Bytes) (delta now : ℤ)
    (room : d.card < 2 ^ 62) where
  current-number : (r : Lookup) → Seen d s m k now r → incr_current r ≡ Spec.number (at d k now)
  unfolding incr_current
  current-number (s', none) (gone, m') = rw gone
  current-number (s', some found) (there, m', p) = rw there

  stored :
      (result : ℤ) (r : Lookup)
      → Seen d s m k now r
      → Models
          (put d k (some (Spec.with_val k (print_ll result) (at d k now))))
          (incr_store k result r)
  unfolding incr_store
  stored result (s', none) (gone, m') =
      let v = print_ll result in
      let less : (put d k none).card < 2 ^ 62 = unfold put in omega arith in
      let w = store_set-Refines (put d k none) s' m' k v (pos 0) less in
      rw gone (
        put-put-none d k _ (store_set s' k v (pos 0)).0 (held-le-card d s k m)
          (unfold Spec.set in w.0))
  stored result (s', some found) (there, m', p) =
      rw there (
        rewritten d s m k now s' found (record (found.1.entry) { val = print_ll result }) m' p refl)

  incr-Refines :
      (r : Lookup) → Seen d s m k now r → Refines (incr_found k delta r) (Spec.incrby d k delta now)
  unfolding incr_found Spec.incrby
  incr-Refines r x = elim (Option-cases (Spec.number (at d k now))) [
    | inl bad ↦
        rw (current-number r x, bad, incr_found, Spec.incrby) (touched d s m k now r x, refl)
    | inr (n, good) ↦ elim (Bool-cases (overflows n delta)) [
      | inl over ↦
          rw (current-number r x, good, incr_found, Spec.incrby, over)
            (touched d s m k now r x, refl)
      | inr fits ↦
          rw (current-number r x, good, incr_found, Spec.incrby, fits)
            (stored (n +ℤ delta) r x, refl)
    ]
  ]

  pub store_incrby-Refines : Refines (store_incrby s k delta now) (Spec.incrby d k delta now)
  unfolding store_incrby
  store_incrby-Refines = incr-Refines (locate_live (rehash_step s) k now) (seen d s m k now)
