-- ===== src/Store/Ops/Model.antt =====
-- A store that stands for a map, and what the calls of the store leave of that relation.
use redis_server_c.Prelude.{
  ◌≡◌, sym, ap, ◌∙◌, Option, none, some, arith, Bytes, bytes_eq, if◌then◌else◌,
}
use redis_server_c.Prelude.Int.{ℤ}
use redis_server_c.Store.Chain.{Entry}
use redis_server_c.Store.Table.{Slot}
use redis_server_c.Store.State.{Store, Side, assign, locate_live, rehash_step}
use redis_server_c.Store.State.Inv.{IsValid, view}
use redis_server_c.Store.State.Rehash.{rehash_step-Keeps}
use redis_server_c.Store.State.Access.{total, Wrote, Found, Found-view, Found-key, assign-Wrote}
use redis_server_c.Store.Spec.{Dict, live, put, at, touch}
use redis_server_c.Store.Ops.Locate.{Located, locate_live-Located, Wrote-refl}
use redis_server_c.Store.Ops.{Lookup}

-- The store is valid, holds the entries of the map, and as many as it has keys.
pub record Models (d : Dict) (s : Store) : Type 0 where
  pub valid : IsValid s
  pub views : (q : Bytes) → view s q ≡ d.map q
  pub counted : total s ≡ d.card

-- A call and its specification leave the same map and return the same result.
abbrev pub Refines {ℓ} : {A : Type ℓ} → Store × A → Dict × A → Type ℓ
Refines (s, r) (d, r') = Models d s × (r ≡ r')

pub Models-put :
    (d : Dict) (s s' : Store) (k : Bytes) {o : Option Entry}
    → Models d s
    → Wrote s k o s'
    → Models (put d k o) s'
unfolding put
Models-put d s s' k {o} m w = record {
  valid = w.valid;
  views = λ q. w.views q ∙ ap (λ t. if bytes_eq k q then o else t) (m.views q);
  counted = rw (← m.views k) (omega (arith, w.used, m.counted));
}

pub Models-rehash : (d : Dict) (s : Store) → Models d s → Models d (rehash_step s)
Models-rehash d s m =
    let k = rehash_step-Keeps s m.valid in
    record { valid = k.valid; views = λ q. k.views q ∙ m.views q; counted = k.used ∙ m.counted }

module _ (d : Dict) (s : Store) (m : Models d s) (k : Bytes) (now : ℤ) where
  -- What `locate_live` returns after the rehash step, in terms of the map.
  abbrev pub Seen : Lookup → Type 0
  Seen (s', none) = (at d k now ≡ none) × Models (put d k none) s'
  Seen (s', some found) = (at d k now ≡ some (found.1.entry)) × Models d s' × Found s' k found

  pub seen : Seen (locate_live (rehash_step s) k now)
  seen = go (locate_live (rehash_step s) k now) (locate_live-Located (rehash_step s) k now m'.valid)
    where
      m' : Models d (rehash_step s)
      m' = Models-rehash d s m

      go : (r : Lookup) → Located (rehash_step s) k now r → Seen r
      go (s', none) (gone, w) =
          (ap (live now) (sym (m'.views k)) ∙ gone, Models-put d (rehash_step s) s' k m' w)
      go (s', some found) (there, same, p) =
          (ap (live now) (sym (m'.views k)) ∙ there, rw same m', rw same p)

  -- A reader leaves the map as `touch` does.
  pub touched : (r : Lookup) → Seen r → Models (touch d k now) r.0
  touched (s', none) (gone, m') = rw gone m'
  touched (s', some found) (there, m', p) =
      let stay = Models-put d s' s' k m' (Wrote-refl s' k m'.valid) in
      rw there (rw (Found-view s' m'.valid k found p) at stay)

  -- An assignment to the entry that was found replaces it in the map.
  pub rewritten :
      (s' : Store) (found : Side × Slot) (e : Entry)
      → Models d s'
      → Found s' k found
      → e.key ≡ found.1.entry.key
      → Models (put d k (some e)) (assign s' found e)
  rewritten s' found e m' p same =
      Models-put d s' (assign s' found e) k m'
        (assign-Wrote s' m'.valid k found e p (same ∙ Found-key s' m'.valid k found p))
