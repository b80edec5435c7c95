-- ===== src/Persist/Survives.antt =====
-- src/persist.c: which keys a store has that is loaded from the snapshot of another.
use redis_server_c.Prelude.{
  ◌+◌, ◌^◌, ◌≤◌, ◌<◌, ◌≡◌, refl, ◌∙◌, true, false, List, [], ◌∷◌, Option, none, some, arith, Bytes,
  length, Bool-cases, inl, inr,
}
use redis_server_c.Prelude.Int.{ℤ}
use redis_server_c.Store.Chain.{Entry}
use redis_server_c.Store.Chain.Laws.{lookup, count, lookup_absent}
use redis_server_c.Store.State.{Store, is_expired}
use redis_server_c.Store.State.Inv.{or_else, view, IsValid}
use redis_server_c.Store.Ops.{store_create, store_set, entries}
use redis_server_c.Store.Ops.Foreach.{entries-view}
use redis_server_c.Store.Ops.Model.{Models}
use redis_server_c.Store.Ops.Writes.{store_set-Refines}
use redis_server_c.Store.Spec
use redis_server_c.Store.Spec.{Dict, live, empty, put}
use redis_server_c.Store.Session.{store_create-Models, card-put}
use redis_server_c.Persist.Status.{persist_ok}
use redis_server_c.Persist.Image.{snapshot}
use redis_server_c.Persist.Load.{loaded, load_bytes}
use redis_server_c.Persist.Format.{contents, sealed, fresh, snapshot-sealed}
use redis_server_c.Persist.Restore.{restored, HasTimes, no_entries, entry}
use redis_server_c.Persist.RoundTrip.{
  length-sealed, length-contents, length-le-encoded_all, load_bytes-sealed,
}

-- The map after the entries that have not expired have been set.
unfoldable with_entries : ℤ → List Entry → Dict → Dict
with_entries now [] d = d
with_entries now (e ∷ es) d = elim (is_expired e now) [
  | true ↦ with_entries now es d
  | false ↦ with_entries now es (Spec.set d e.key e.val e.expire_at_ms).0
]

restored-Models :
    (now : ℤ) (es : List Entry) (d : Dict) (s : Store)
    → Models d s
    → d.card + length es ≤ 2 ^ 62
    → Models (with_entries now es d) (restored now es s)
unfolding with_entries restored
restored-Models now [] d s m h = m
restored-Models now (e ∷ es) d s m h = elim (Bool-cases (is_expired e now)) [
  | inl old ↦ rw (old, with_entries, restored) (restored-Models now es d s m (omega arith))
  | inr new ↦
      let (m', same) = store_set-Refines d s m e.key e.val e.expire_at_ms (omega arith) in
      let larger : (Spec.set d e.key e.val e.expire_at_ms).0.card ≤ d.card + 1 =
        unfold Spec.set in card-put d e.key (some e) in
      rw (new, with_entries, restored)
        (restored-Models now es (Spec.set d e.key e.val e.expire_at_ms).0
          (store_set s e.key e.val e.expire_at_ms).0 m' (omega (arith, larger)))
]

-- A key that is listed once at most has what its entry says, if that has not expired.
with_entries-map :
    (now : ℤ) (q : Bytes) (es : List Entry) (d : Dict)
    → count q es ≤ 1
    → (with_entries now es d).map q ≡ or_else (live now (lookup q es)) (d.map q)
unfolding with_entries count lookup live Spec.set put
with_entries-map now q [] d h = refl
with_entries-map now q (e ∷ es) d h = elim (Bool-cases (is_expired e now)) [
  | inl old ↦
      let rest = with_entries-map now q es d (omega arith) in
      rw (old, with_entries) (ground (arith, old, rest, lookup_absent q es))
  | inr new ↦
      let rest =
        with_entries-map now q es (Spec.set d e.key e.val e.expire_at_ms).0 (omega arith) in
      rw (new, with_entries) (ground (arith, new, rest, lookup_absent q es))
]

-- The entries of a walk that have not expired hold what a reader finds.
lookup-fresh :
    (now : ℤ) (q : Bytes) (es : List Entry)
    → count q es ≤ 1
    → (lookup q (fresh now es) ≡ live now (lookup q es)) × (count q (fresh now es) ≤ count q es)
unfolding fresh lookup count live
lookup-fresh now q [] h = ground arith
lookup-fresh now q (e ∷ es) h = elim (Bool-cases (is_expired e now)) [
  | inl old ↦
      let rest = lookup-fresh now q es (omega arith) in
      rw (old, fresh) (ground (arith, old, rest, lookup_absent q es))
  | inr new ↦
      let rest = lookup-fresh now q es (omega arith) in
      rw (new, fresh) (ground (arith, new, rest, lookup_absent q es))
]

HasTimes-fresh : (now : ℤ) (es : List Entry) → HasTimes es → HasTimes (fresh now es)
unfolding fresh
HasTimes-fresh now [] h = no_entries
HasTimes-fresh now (e ∷ es) (entry time times) = elim (Bool-cases (is_expired e now)) [
  | inl old ↦ rw (old, fresh) (HasTimes-fresh now es times)
  | inr new ↦ rw (new, fresh) (entry time (HasTimes-fresh now es times))
]

-- What a load leaves: a valid store, with the keys of the other one that neither had expired when
-- that was saved nor have by now.
pub record Survived (saved : ℤ) (loaded_at : ℤ) (s s' : Store) : Type 0 where
  pub valid : IsValid s'
  pub views : (q : Bytes) → view s' q ≡ live loaded_at (live saved (view s q))

or_empty : (q : Bytes) (o : Option Entry) → or_else o (empty.map q) ≡ o
unfolding empty
or_empty q none = refl
or_empty q (some e) = refl

-- The snapshot of a valid store, of fewer than 2 ^ 63 bytes and with int64_t expiries, is accepted
-- by a load into a fresh store, which then is valid and has the keys that have not expired.
pub load-snapshot :
    (s : Store) (saved loaded_at : ℤ)
    → IsValid s
    → HasTimes (entries s)
    → length (snapshot s saved) < 2 ^ 63
    → (s' : Store) × (load_bytes store_create (snapshot s saved) loaded_at ≡ loaded s' persist_ok)
      × Survived saved loaded_at s s'
load-snapshot s saved loaded_at v times small =
    let es = fresh saved (entries s) in
    let few : length (sealed (contents es)) < 2 ^ 63 = rw (snapshot-sealed s saved) at small in
    let size = length-sealed (contents es) in
    let fits : length (contents es) < 2 ^ 63 = omega arith in
    let bound : 0 + length es ≤ 2 ^ 62 =
      omega (arith, length-contents es, length-le-encoded_all es) in
    let s' = restored loaded_at es store_create in
    let m : Models (with_entries loaded_at es empty) s' =
      restored-Models loaded_at es empty store_create store_create-Models (unfold empty in bound) in
    let accepted =
      load_bytes-sealed es fits store_create loaded_at (HasTimes-fresh saved (entries s) times) in
    let survives : (q : Bytes) → view s' q ≡ live loaded_at (live saved (view s q)) = λ q.
      let (there, once) = entries-view s v q in
      let (here, less) = lookup-fresh saved q (entries s) once in
      m.views q
      ∙ with_entries-map loaded_at q es empty (omega arith)
      ∙ rw (here, there) (or_empty q (live loaded_at (live saved (view s q)))) in
    (s', rw (snapshot-sealed s saved) accepted, record { valid = m.valid; views = survives })
