-- ===== src/Persist/Tests.antt =====
-- The theorems about snapshots at a small store, and runs of src/persist.c.
use mathlib.Core.List.{flatten}
use redis_server_c.Prelude.{
  ◌-◌, ◌^◌, ◌<◌, ◌≡◌, refl, ap, some, List, [], ◌∷◌, ◌++◌, none, arith, Bytes, codes, length, set,
  memcmp, bytes_eq,
}
use redis_server_c.Prelude.Int.{pos}
use redis_server_c.Store.Hash.{fnv1a_hash, next_pow2}
use redis_server_c.Store.Chain.{find_in_chain}
use redis_server_c.Store.Table.{table_init, find_in_table, push_front}
use redis_server_c.Store.State.{
  Store, find_slot_either, assign, rehash_step, rehash_scan, migrate_bucket, migrate_chain,
  finish_rehash, maybe_start_rehash,
}
use redis_server_c.Store.State.Inv.{IsValid}
use redis_server_c.Store.Ops.{
  insert_entry, store_create, store_set, entries, store_foreach, foreach_from,
}
use redis_server_c.Store.Session.{Call, final, reached_Models}
use redis_server_c.Store.Session
use redis_server_c.Cmd.State.{Server}
use redis_server_c.Epoll.Main.{running, start_server, save_at_end, restarts}
use redis_server_c.Persist.Status.{persist_ok, persist_err_corrupt}
use redis_server_c.Persist.Codec.{write_u64, write_u32, write_le, read_le, checksum, sum_bytes}
use redis_server_c.Persist.Image.{snapshot, ctx_append, save_cb, magic}
use redis_server_c.Persist.Load.{
  loaded, fault, load_bytes, load_entries, entry_at, word_at, past, in_bounds,
}
use redis_server_c.Persist.Format.{contents, sealed, fresh, snapshot-sealed}
use redis_server_c.Persist.Restore.{HasTimes, no_entries, entry}
use redis_server_c.Persist.Survives.{Survived}
use redis_server_c.Persist.File.{write_and_rename, persist_save, persist_load}
use redis_server_c.Persist.Atomic.{Settled, persist_save-Settled, save-load}
use redis_server_c.Persist.Crash.{All, last_of, OldOrNew, save_stages, persist_save-stages}
use redis_server_c.Persist.Corruption.{load_bytes_changed}
use redis_server_c.Persist.Memory.{
  Files, memory, file, memory-Writes, memory-Reads, in_parts, in_parts-Local,
}

abbrev calls : List Call
calls =
    Session.set (codes "a") (codes "1") (pos 0) ∷ Session.set (codes "b") (codes "2") (pos 100) ∷ []

abbrev sample : Store
sample = final store_create calls

computing : Unit {0}
unfolding final store_create store_set find_slot_either find_in_table find_in_chain insert_entry
    push_front maybe_start_rehash next_pow2 table_init fnv1a_hash rehash_step rehash_scan
    migrate_bucket migrate_chain finish_rehash assign bytes_eq entries store_foreach foreach_from
    snapshot ctx_append save_cb write_le checksum sum_bytes flatten
computing = tt

sample-IsValid : IsValid sample
sample-IsValid = (reached_Models calls (omega arith)).valid

sample-HasTimes : HasTimes (entries sample)
unfolding computing
sample-HasTimes = entry (omega arith, omega arith) (entry (omega arith, omega arith) no_entries)

small : length (snapshot sample (pos 50)) < 2 ^ 63
unfolding computing
small = omega arith

abbrev disk : Files
disk = λ p. none

abbrev path : Bytes
path = codes "dump"

saves : (persist_save memory disk sample path (pos 50)).1 ≡ persist_ok
unfolding computing persist_save write_and_rename
saves = refl

save-load_example :
    (s' : Store) × (persist_load memory
        (persist_save memory disk sample path (pos 50)).0
        store_create
        path
        (pos 200)
      ≡ loaded s' persist_ok)
    × Survived (pos 50) (pos 200) sample s'
save-load_example =
    save-load memory file memory-Writes memory-Reads disk sample path (pos 50) (pos 200)
      sample-IsValid sample-HasTimes small saves

persist_save-stages_example :
    All
      (OldOrNew file none (snapshot sample (pos 50)) path)
      (save_stages memory in_parts disk sample path (pos 50))
    × (last_of disk (save_stages memory in_parts disk sample path (pos 50))
        ≡ (persist_save memory disk sample path (pos 50)).0)
persist_save-stages_example =
    persist_save-stages memory in_parts file memory-Writes in_parts-Local path disk sample (pos 50)

persist_save-Settled_example :
    Settled file none
      (snapshot sample (pos 50))
      path
      (persist_save memory disk sample path (pos 50))
persist_save-Settled_example =
    persist_save-Settled memory file memory-Writes path disk sample (pos 50)

-- The low byte of the count is changed from 2 to 9.
load_bytes_changed_example :
    load_bytes store_create
      (set (contents (entries sample)) 8 9 ++ write_u32 (checksum (contents (entries sample))))
      (pos 0)
    ≡ loaded store_create persist_err_corrupt
unfolding computing memcmp
load_bytes_changed_example =
    load_bytes_changed store_create (contents (entries sample)) 8 9 (pos 0) refl (omega arith)
      (omega arith) (omega arith) (omega arith)

-- A key length that makes the sum with the position wrap passes the check, and the read of the key
-- leaves the buffer.
abbrev crafted : Bytes
crafted = magic ++ (write_u64 1 ++ (write_u64 (2 ^ 64 - 16) ++ (0 ∷ [])))

snapshot-sealed_example :
    snapshot sample (pos 100) ≡ sealed (contents (fresh (pos 100) (entries sample)))
snapshot-sealed_example = snapshot-sealed sample (pos 100)

wrapped_length : load_bytes store_create (sealed crafted) (pos 0) ≡ fault
unfolding computing memcmp load_bytes load_entries entry_at word_at past in_bounds read_le
wrapped_length = refl

abbrev server : Server
server = record { store = sample; save_path = path; lastsave_time = pos 0 }

server_saves : (save_at_end memory disk server (some path) (pos 50)).1 ≡ some persist_ok
unfolding save_at_end
server_saves = ap some saves

restarts_example :
    (g' : Server) × (start_server memory
        (save_at_end memory disk server (some path) (pos 50)).0
        (some path)
        (pos 200)
      ≡ running g')
    × Survived (pos 50) (pos 200) sample g'.store
restarts_example =
    restarts memory file memory-Writes memory-Reads disk server path (pos 50) (pos 200)
      sample-IsValid sample-HasTimes small server_saves
