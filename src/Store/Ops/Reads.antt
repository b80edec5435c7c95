-- ===== src/Store/Ops/Reads.antt =====
-- The reads of the store, and `store_expire`, refine the specification.
use redis_server_c.Prelude.{◌≡◌, refl, none, some, arith, Bytes}
use redis_server_c.Prelude.Int.{ℤ}
use redis_server_c.Store.State.{Store, locate_live, rehash_step}
use redis_server_c.Store.Spec
use redis_server_c.Store.Spec.{Dict, live, put, at, touch}
use redis_server_c.Store.Ops.{
  Lookup, get_found, store_get, exists_found, store_exists, expire_found, store_expire, ttl_found,
  store_ttl_ms,
}
use redis_server_c.Store.Ops.Model.{Models, Refines, Seen, seen, touched, rewritten}

module _ (d : Dict) (s : Store) (m : Models d s) (k : Bytes) (now : ℤ) where
  abbrev Saw : Lookup → Type 0
  Saw = Seen d s m k now

  saw : Saw (locate_live (rehash_step s) k now)
  saw = seen d s m k now

  get-Refines : (r : Lookup) → Saw r → Refines (get_found r) (Spec.get d k now)
  unfolding get_found Spec.get
  get-Refines (s', none) x = (touched d s m k now (s', none) x, rw (x.0))
  get-Refines (s', some found) x = (touched d s m k now (s', some found) x, rw (x.0))

  -- A read returns the live value, and removes an expired entry.
  pub store_get-Refines : Refines (store_get s k now) (Spec.get d k now)
  unfolding store_get
  store_get-Refines = get-Refines (locate_live (rehash_step s) k now) saw

  present-Refines : (r : Lookup) → Saw r → Refines (exists_found r) (Spec.exists d k now)
  unfolding exists_found Spec.exists
  present-Refines (s', none) x = (touched d s m k now (s', none) x, rw (x.0))
  present-Refines (s', some found) x = (touched d s m k now (s', some found) x, rw (x.0))

  pub store_exists-Refines : Refines (store_exists s k now) (Spec.exists d k now)
  unfolding store_exists
  store_exists-Refines = present-Refines (locate_live (rehash_step s) k now) saw

  expire-Refines : (x : ℤ) (r : Lookup) → Saw r → Refines (expire_found x r) (Spec.expire d k x now)
  unfolding expire_found Spec.expire
  expire-Refines x (s', none) (gone, m') = (rw gone m', rw gone)
  expire-Refines x (s', some found) (there, m', p) = (
    rw there
        (rewritten d s m k now s' found (record (found.1.entry) { expire_at_ms = x }) m' p refl),
    rw there,
  )

  pub store_expire-Refines : (x : ℤ) → Refines (store_expire s k x now) (Spec.expire d k x now)
  unfolding store_expire
  store_expire-Refines x = expire-Refines x (locate_live (rehash_step s) k now) saw

  ttl_store : (later : ℤ) (r : Lookup) → (ttl_found later r).0 ≡ r.0
  unfolding ttl_found
  ttl_store later (s', none) = refl
  ttl_store later (s', some found) = ground arith

  ttl-Refines :
      (later : ℤ) (r : Lookup) → Saw r → Refines (ttl_found later r) (Spec.ttl d k now later)
  unfolding Spec.ttl
  ttl-Refines later (s', none) x =
      (rw ttl_store (touched d s m k now (s', none) x), rw (x.0) (unfold ttl_found in refl))
  ttl-Refines later (s', some found) x = (
    rw ttl_store (touched d s m k now (s', some found) x),
    rw (x.0) (unfold ttl_found in ground arith),
  )

  pub store_ttl_ms-Refines :
      (later : ℤ) → Refines (store_ttl_ms s k now later) (Spec.ttl d k now later)
  unfolding store_ttl_ms
  store_ttl_ms-Refines later = ttl-Refines later (locate_live (rehash_step s) k now) saw
