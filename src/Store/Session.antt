-- ===== src/Store/Session.antt =====
-- A client's calls of include/store.h in order, against the specification.
use redis_server_c.Prelude.{
  ℕ, ◌+◌, ◌^◌, ◌≤◌, ◌<◌, ◌≡◌, refl, ap, ap₂, List, [], ◌∷◌, Option, none, some, arith, Bytes,
  length, Bool-cases, inl, inr, Option-cases,
}
use redis_server_c.Prelude.Int.{ℤ, ◌+ℤ◌}
use redis_server_c.Store.Number.{print_ll}
use redis_server_c.Store.Chain.{Entry}
use redis_server_c.Store.Table.{table_init}
use redis_server_c.Store.Table.Inv.{table_init-IsTable, find-table_init, copies-table_init}
use redis_server_c.Store.State.{Store}
use redis_server_c.Store.State.Inv.{IsValid, Phase-Shares, view, view2}
use redis_server_c.Store.Ops.{
  IncrResult, store_create, store_size, store_set, store_get, store_exists, store_del, store_expire,
  store_ttl_ms, store_incrby, store_flush, overflows, initial_size,
}
use redis_server_c.Store.Spec
use redis_server_c.Store.Spec.{Dict, put, empty}
use redis_server_c.Store.Ops.Model.{Models, Refines}
use redis_server_c.Store.Ops.Reads.{
  store_get-Refines, store_exists-Refines, store_expire-Refines, store_ttl_ms-Refines,
}
use redis_server_c.Store.Ops.Writes.{store_set-Refines, store_del-Refines}
use redis_server_c.Store.Ops.Incr.{store_incrby-Refines}

-- A call with its arguments, the clock readings that it makes included.
pub data Call : Type 0 where
  set : Bytes → Bytes → ℤ → Call
  get exists : Bytes → ℤ → Call
  del : Bytes → Call
  expire ttl incrby : Bytes → ℤ → ℤ → Call
  flush size : Call

pub data Reply : Type 0 where
  count : ℕ → Reply
  value : Option Bytes → Reply
  time : ℤ → Reply
  incr : IncrResult → Reply

abbrev pub reply {ℓ κ} : {S : Type ℓ} {A : Type κ} → (A → Reply) → S × A → S × Reply
reply f (s, r) = (s, f r)

unfoldable pub step : Store → Call → Store × Reply
step s (set k v x) = reply count (store_set s k v x)
step s (get k now) = reply value (store_get s k now)
step s (exists k now) = reply count (store_exists s k now)
step s (del k) = reply count (store_del s k)
step s (expire k x now) = reply count (store_expire s k x now)
step s (ttl k now later) = reply time (store_ttl_ms s k now later)
step s (incrby k delta now) = reply incr (store_incrby s k delta now)
step s flush = reply count (store_flush s)
step s size = (s, count (store_size s))

unfoldable pub promised : Dict → Call → Dict × Reply
promised d (set k v x) = reply count (Spec.set d k v x)
promised d (get k now) = reply value (Spec.get d k now)
promised d (exists k now) = reply count (Spec.exists d k now)
promised d (del k) = reply count (Spec.del d k)
promised d (expire k x now) = reply count (Spec.expire d k x now)
promised d (ttl k now later) = reply time (Spec.ttl d k now later)
promised d (incrby k delta now) = reply incr (Spec.incrby d k delta now)
promised d flush = reply count (Spec.flush d)
promised d size = (d, count d.card)

unfoldable pub run : Store → List Call → List Reply
unfolding step
run s [] = []
run s (c ∷ cs) = let (s', r) = step s c in r ∷ run s' cs

unfoldable pub run_promised : Dict → List Call → List Reply
unfolding promised
run_promised d [] = []
run_promised d (c ∷ cs) = let (d', r) = promised d c in r ∷ run_promised d' cs

store_create-IsValid : IsValid store_create
unfolding store_create
store_create-IsValid = record {
  shares = record {
    source = table_init-IsTable initial_size;
    target = table_init-IsTable 0;
    once = λ q. omega (arith, copies-table_init initial_size q, copies-table_init 0 q);
    few = unfold table_init in omega arith;
  };
  wide0 = unfold table_init in record { exponent = 2; small = omega arith; power = refl };
  unallocated = unfold table_init in refl;
}

-- A fresh store is valid and holds nothing.
pub store_create-Models : Models empty store_create
unfolding empty
store_create-Models = record {
  valid = store_create-IsValid;
  views = λ q.
      unfold store_create view view2 in
      ground (arith, find-table_init initial_size q, find-table_init 0 q);
  counted = unfold store_create table_init in refl;
}

pub store_size-card : (d : Dict) (s : Store) → Models d s → store_size s ≡ d.card
unfolding store_size
store_size-card d s m =
    let few = (Phase-Shares s.rehash_idx s.ht0 s.ht1 m.valid).few in omega (arith, m.counted)

-- A flush empties the store and returns how many entries it held.
pub store_flush-Refines :
    (d : Dict) (s : Store) → Models d s → Refines (store_flush s) (Spec.flush d)
unfolding store_flush Spec.flush store_create
store_flush-Refines d s m = (store_create-Models, store_size-card d s m)

reply-Refines {ℓ} :
    {A : Type ℓ} (f : A → Reply) (r : Store × A) (p : Dict × A)
    → Refines r p
    → Refines (reply f r) (reply f p)
reply-Refines f (s, a) (d, b) (m, e) = (m, ap f e)

-- On a store that stands for a map of fewer than 2 ^ 62 entries each call leaves the map and
-- returns the result that the specification says.
pub step-Refines :
    (d : Dict) (s : Store) (c : Call)
    → Models d s
    → d.card < 2 ^ 62
    → Refines (step s c) (promised d c)
unfolding step promised
step-Refines d s (set k v x) m h = reply-Refines count _ _ (store_set-Refines d s m k v x h)
step-Refines d s (get k now) m h = reply-Refines value _ _ (store_get-Refines d s m k now)
step-Refines d s (exists k now) m h = reply-Refines count _ _ (store_exists-Refines d s m k now)
step-Refines d s (del k) m h = reply-Refines count _ _ (store_del-Refines d s m k)
step-Refines d s (expire k x now) m h = reply-Refines count _ _ (store_expire-Refines d s m k now x)
step-Refines d s (ttl k now later) m h =
    reply-Refines time _ _ (store_ttl_ms-Refines d s m k now later)
step-Refines d s (incrby k delta now) m h =
    reply-Refines incr _ _ (store_incrby-Refines d s m k delta now h)
step-Refines d s flush m h =
    reply-Refines count (store_flush s) (Spec.flush d) (store_flush-Refines d s m)
step-Refines d s size m h = (m, ap count (store_size-card d s m))

pub card-put : (d : Dict) (k : Bytes) (o : Option Entry) → (put d k o).card ≤ d.card + 1
unfolding put
card-put d k none = omega arith
card-put d k (some e) = omega arith

pub card-incrby :
    (d : Dict) (k : Bytes) (delta now : ℤ) → (Spec.incrby d k delta now).0.card ≤ d.card + 1
unfolding Spec.incrby
card-incrby d k delta now = elim (Option-cases (Spec.number (Spec.at d k now))) [
  | inl bad ↦ rw (bad, Spec.incrby) (card-put d k (Spec.at d k now))
  | inr (n, good) ↦ elim (Bool-cases (overflows n delta)) [
    | inl over ↦ rw (good, over, Spec.incrby) (card-put d k (Spec.at d k now))
    | inr fits ↦
        rw (good, fits, Spec.incrby)
          (card-put d k (some (Spec.with_val k (print_ll (n +ℤ delta)) (Spec.at d k now))))
  ]
]

pub card-promised : (d : Dict) (c : Call) → (promised d c).0.card ≤ d.card + 1
unfolding promised Spec.set Spec.get Spec.exists Spec.del Spec.expire Spec.ttl Spec.flush empty
card-promised d (set k v x) = card-put d k _
card-promised d (get k now) = card-put d k _
card-promised d (exists k now) = card-put d k _
card-promised d (del k) = card-put d k _
card-promised d (expire k x now) = card-put d k _
card-promised d (ttl k now later) = card-put d k _
card-promised d (incrby k delta now) = card-incrby d k delta now
card-promised d flush = omega arith
card-promised d size = omega arith

-- From related states, as many calls as fit below 2 ^ 62 keys return what is promised.
run_refines :
    (cs : List Call) (d : Dict) (s : Store)
    → Models d s
    → d.card + length cs ≤ 2 ^ 62
    → run s cs ≡ run_promised d cs
unfolding run run_promised
run_refines [] d s m h = refl
run_refines (c ∷ cs) d s m h =
    let (m', same) = step-Refines d s c m (omega arith) in
    ap₂ ◌∷◌ same
      (run_refines cs (promised d c).0 (step s c).0 m' (omega (arith, card-promised d c)))

-- No sequence of up to 2 ^ 62 calls tells a fresh store from the map of the specification.
pub session_refines :
    (cs : List Call) → length cs ≤ 2 ^ 62 → run store_create cs ≡ run_promised empty cs
session_refines cs h =
    run_refines cs empty store_create store_create-Models (unfold empty in omega arith)

-- The states that the calls leave.
unfoldable pub final : Store → List Call → Store
unfolding step
final s [] = s
final s (c ∷ cs) = final (step s c).0 cs

unfoldable pub final_promised : Dict → List Call → Dict
unfolding promised
final_promised d [] = d
final_promised d (c ∷ cs) = final_promised (promised d c).0 cs

final-Models :
    (cs : List Call) (d : Dict) (s : Store)
    → Models d s
    → d.card + length cs ≤ 2 ^ 62
    → Models (final_promised d cs) (final s cs)
unfolding final final_promised
final-Models [] d s m h = m
final-Models (c ∷ cs) d s m h =
    let (m', same) = step-Refines d s c m (omega arith) in
    final-Models cs (promised d c).0 (step s c).0 m' (omega (arith, card-promised d c))

-- Every store that calls can reach is valid, and stands for the map that the calls promise.
pub reached_Models :
    (cs : List Call) → length cs ≤ 2 ^ 62 → Models (final_promised empty cs) (final store_create cs)
reached_Models cs h =
    final-Models cs empty store_create store_create-Models (unfold empty in omega arith)
