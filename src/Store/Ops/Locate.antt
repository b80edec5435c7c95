-- ===== src/Store/Ops/Locate.antt =====
-- `locate_live`: the entry under a key unless it has expired, in which case it is unlinked.
use redis_server_c.Prelude.{
  ◌≡◌, refl, Option, none, some, arith, Bytes, bytes_eq_iff, inl, inr, Bool-cases, Option-cases,
}
use redis_server_c.Prelude.Int.{ℤ}
use redis_server_c.Store.Hash.{fnv1a_hash}
use redis_server_c.Store.Table.{Slot}
use redis_server_c.Store.State.{Store, Side, is_expired, find_slot_either, locate_live}
use redis_server_c.Store.State.Inv.{IsValid, view}
use redis_server_c.Store.State.Access.{
  Wrote, Found, find_slot_either_absent, find_slot_either_present, Found-view, unlink-Wrote,
}
use redis_server_c.Store.Spec.{live}

-- An operation that changes nothing leaves what is there.
pub Wrote-refl : (s : Store) (k : Bytes) → IsValid s → Wrote s k (view s k) s
Wrote-refl s k v = record { valid = v; views = λ q. ground (arith, bytes_eq_iff k q); used = refl }

abbrev pub Located : Store → Bytes → ℤ → Store × Option (Side × Slot) → Type 0
Located s k now (s', none) = (live now (view s k) ≡ none) × Wrote s k none s'
Located s k now (s', some found) =
    (live now (view s k) ≡ some (found.1.entry)) × (s' ≡ s) × Found s k found

-- In a valid store `locate_live` finds the entry under a key, unless there is none or it has
-- expired, in which case exactly that entry is removed.
pub locate_live-Located :
    (s : Store) (k : Bytes) (now : ℤ) → IsValid s → Located s k now (locate_live s k now)
unfolding locate_live live
locate_live-Located s k now v = elim (Option-cases (find_slot_either s k (fnv1a_hash k))) [
  | inl gone ↦
      let absent = find_slot_either_absent s v k gone in
      rw (gone, locate_live) (rw absent refl, rw absent at (Wrote-refl s k v))
  | inr (found, at) ↦
      let p = find_slot_either_present s v k found at in
      let there = Found-view s v k found p in
      elim (Bool-cases (is_expired (found.1.entry) now)) [
        | inl old ↦
            rw (at, locate_live, old) (rw (there, live, old) refl, unlink-Wrote s v k found p)
        | inr fresh ↦ rw (at, locate_live, fresh) (rw (there, live, fresh) refl, refl, p)
      ]
]
