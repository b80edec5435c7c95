-- ===== src/Store/Tests.antt =====
-- The theorems about the store at small concrete stores, and runs of src/store.c.
use redis_server_c.Prelude.{
  ◌≤◌, ◌≡◌, ◌↔◌, refl, false, List, [], ◌∷◌, none, some, arith, bytes_eq, codes,
}
use redis_server_c.Prelude.Int.{pos, negsuc, ◌+ℤ◌, ◌-ℤ◌, InInt64, int64_max}
use redis_server_c.Store.Hash.{fnv1a_hash, next_pow2}
use redis_server_c.Store.Hash.Pow2.{IsLeastPow2, next_pow2-IsLeastPow2}
use redis_server_c.Store.Number.{parse_strict_ll, print_ll, print_digits}
use redis_server_c.Store.Number.Range.{overflows-exact}
use redis_server_c.Store.Number.RoundTrip.{parse-print_ll}
use redis_server_c.Store.Chain.{find_in_chain, unlink_at}
use redis_server_c.Store.Chain.Laws.{lookup, count}
use redis_server_c.Store.Table.{table_init, find_in_table, push_front}
use redis_server_c.Store.State.{
  Store, find_slot_either, unlink, assign, rehash_step, rehash_scan, migrate_bucket, migrate_chain,
  finish_rehash, maybe_start_rehash, locate_live,
}
use redis_server_c.Store.State.Inv.{view}
use redis_server_c.Store.State.Rehash.{Keeps, rehash_step-Keeps}
use redis_server_c.Store.State.Progress.{rehash_steps, rehash_ends}
use redis_server_c.Store.Ops.{
  insert_entry, store_create, store_set, store_get, store_exists, store_del, store_expire,
  store_ttl_ms, store_incrby, store_flush, store_size, store_foreach, overflows, incr_ok,
}
use redis_server_c.Store.Spec.{Dict, empty, live}
use redis_server_c.Store.Ops.Locate.{Located, locate_live-Located}
use redis_server_c.Store.Ops.Foreach.{collect, store_foreach-live}
use redis_server_c.Store.Ops.Model.{Models, Refines}
use redis_server_c.Store.Session.{
  Call, set, get, del, incrby, size, Reply, value, incr, step, promised, run, run_promised, final,
  final_promised, reached_Models, step-Refines, session_refines,
}
use redis_server_c.Store.Session
use redis_server_c.Store.Spec

-- Four keys in four buckets: the fourth insertion starts a rehash.
abbrev calls : List Call
calls =
    set (codes "a") (codes "1") (pos 0)
    ∷ set (codes "b") (codes "2") (pos 100)
    ∷ set (codes "c") (codes "x") (pos 0)
    ∷ set (codes "d") (codes "4") (pos 0)
    ∷ []

abbrev sample : Store
sample = final store_create calls

abbrev sample_dict : Dict
sample_dict = final_promised empty calls

computing : Unit {0}
unfolding final run store_create store_set store_get store_exists store_del store_expire
    store_ttl_ms store_incrby store_flush store_size find_slot_either find_in_table find_in_chain
    insert_entry push_front maybe_start_rehash next_pow2 table_init fnv1a_hash rehash_step
    rehash_scan migrate_bucket migrate_chain finish_rehash unlink assign unlink_at locate_live
    parse_strict_ll print_ll print_digits bytes_eq ◌+ℤ◌ ◌-ℤ◌
computing = tt

-- An expired entry is gone for GET, but DEL counts one that no reader has met.
expired_session :
    run store_create (
      set (codes "k") (codes "v") (pos 5)
      ∷ size
      ∷ del (codes "k")
      ∷ set (codes "k") (codes "v") (pos 5)
      ∷ get (codes "k") (pos 5)
      ∷ del (codes "k")
      ∷ incrby (codes "n") (negsuc 0) (pos 5)
      ∷ [])
    ≡ Session.count 1
      ∷ Session.count 1
      ∷ Session.count 1
      ∷ Session.count 1
      ∷ value none
      ∷ Session.count 0
      ∷ incr (incr_ok, negsuc 0)
      ∷ []
unfolding computing
expired_session = refl

sample-Models : Models sample_dict sample
sample-Models = reached_Models calls (omega arith)

session_refines_example : run store_create calls ≡ run_promised empty calls
session_refines_example = session_refines calls (omega arith)

step-Refines_example :
    Refines
      (step sample (get (codes "b") (pos 100)))
      (promised sample_dict (get (codes "b") (pos 100)))
step-Refines_example =
    step-Refines sample_dict sample (get (codes "b") (pos 100)) sample-Models
      (unfold final_promised empty Spec.set Spec.put in omega arith)

rehash_step-Keeps_example : Keeps sample (rehash_step sample)
rehash_step-Keeps_example = rehash_step-Keeps sample sample-Models.valid

sample_rehashes : (sample.rehash_idx ≡ some 0) × (sample.ht0.size ≡ 4)
unfolding computing
sample_rehashes = (refl, refl)

rehash_ends_example : (rehash_steps 4 sample).rehash_idx ≡ none
rehash_ends_example =
    rehash_ends 4 0 sample sample-Models.valid sample_rehashes.0 (omega (arith, sample_rehashes.1))
      (omega (arith, sample_rehashes.1))

store_foreach-live_example :
    (lookup (codes "b") (store_foreach sample (pos 100) collect [])
      ≡ live (pos 100) (view sample (codes "b")))
    × (count (codes "b") (store_foreach sample (pos 100) collect []) ≤ 1)
store_foreach-live_example = store_foreach-live sample (pos 100) sample-Models.valid (codes "b")

locate_live-Located_example :
    Located sample (codes "b") (pos 100) (locate_live sample (codes "b") (pos 100))
locate_live-Located_example = locate_live-Located sample (codes "b") (pos 100) sample-Models.valid

next_pow2-IsLeastPow2_example : IsLeastPow2 9 (next_pow2 9)
next_pow2-IsLeastPow2_example = next_pow2-IsLeastPow2 9 (omega arith) (omega arith)

parse-print_ll_example : parse_strict_ll (print_ll (negsuc 41)) ≡ some (negsuc 41)
parse-print_ll_example = parse-print_ll (negsuc 41) (omega arith)

overflows-exact_example : (overflows int64_max (pos 1) ≡ false) ↔ InInt64 (int64_max +ℤ pos 1)
overflows-exact_example = overflows-exact int64_max (pos 1) (omega arith) (omega arith)
