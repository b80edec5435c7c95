-- ===== src/Epoll/Main.antt =====
-- src/server.c: `main` around the event loop: its arguments, and the snapshot at the start and the end.
use redis_server_c.Prelude.{
  ◌^◌, ◌<◌, ◌≡◌, ap, ◌||◌, Bool, List, [], ◌∷◌, Option, none, some, Bytes, codes, length, bytes_eq,
  if◌then◌else◌,
}
use redis_server_c.Prelude.Int.{ℤ, pos, leb_ℤ, ltb_ℤ}
use redis_server_c.Store.State.Inv.{IsValid}
use redis_server_c.Store.Ops.{store_create, entries}
use redis_server_c.Persist.Status.{PersistStatus, persist_ok}
use redis_server_c.Persist.Image.{snapshot}
use redis_server_c.Persist.Load.{Loaded, loaded, fault}
use redis_server_c.Persist.Restore.{HasTimes}
use redis_server_c.Persist.Survives.{Survived}
use redis_server_c.Persist.File.{Stdio, persist_save, persist_load}
use redis_server_c.Persist.Atomic.{Writes, Reads, save-load}
use redis_server_c.Cmd.State.{Server, with_store}
use redis_server_c.Cmd.Admin.{cmd_set_save_path}

-- DEFAULT_PORT
abbrev pub default_port : ℤ
default_port = pos 6380

-- The usage message, or the port and the path behind "--save" or "-s".
pub data Options : Type 0 where
  usage : Options
  options : ℤ → Option Bytes → Options

abbrev pub is_save : Bytes → Bool
is_save a = bytes_eq a (codes "--save") || bytes_eq a (codes "-s")

-- `port <= 0 || port > 65535`
abbrev pub bad_port : ℤ → Bool
bad_port port = leb_ℤ port (pos 0) || ltb_ℤ (pos 65535) port

-- The loop over the arguments that are left; `atoi` is the C library's.
unfoldable pub parse_args : (Bytes → ℤ) → List Bytes → ℤ → Option Bytes → Options
parse_args atoi [] port save_path = options port save_path
parse_args atoi (a ∷ []) port save_path =
    if bad_port (atoi a) then usage else options (atoi a) save_path
parse_args atoi (a ∷ b ∷ rest) port save_path =
    let saving = parse_args atoi rest port (some b) in
    let on_port = parse_args atoi (b ∷ rest) (atoi a) save_path in
    if is_save a then saving else if bad_port (atoi a) then usage else on_port

-- The server before the first connection; a fault of `persist_load` ends the process.
pub data Started : Type 0 where
  running : Server → Started
  crashed : Started

abbrev pub fresh_server : Server
fresh_server = record { store = store_create; save_path = []; lastsave_time = pos 0 }

abbrev pub with_loaded : Server → Loaded → Started
with_loaded g (loaded s status) = running (with_store g s)
with_loaded g fault = crashed

module _ {F : Type 0} (io : Stdio F) where
  -- The status of the load is only reported.
  unfoldable pub start_server : F → Option Bytes → ℤ → Started
  start_server f none now = running fresh_server
  start_server f (some path) now =
      let g = cmd_set_save_path fresh_server path in
      with_loaded g (persist_load io f g.store path now)

  unfoldable pub save_at_end : F → Server → Option Bytes → ℤ → F × Option PersistStatus
  save_at_end f g none now = (f, none)
  save_at_end f g (some path) now =
      let (f', status) = persist_save io f g.store path now in (f', some status)

some_same : {a b : PersistStatus} → some a ≡ some b → a ≡ b
some_same e = cc

-- A server that has ended with its snapshot saved, started again, has exactly the keys that have not
-- expired, in a valid store; the one that ended had a valid store with int64_t expiries and a snapshot
-- below 2 ^ 63 bytes, and the C library is as documented.
pub restarts :
    {F : Type 0} (io : Stdio F) (file : F → Bytes → Option Bytes)
    → Writes io file
    → Reads io file
    → (f : F) (g : Server) (path : Bytes) (saved loaded_at : ℤ) → IsValid g.store
    → HasTimes (entries g.store)
    → length (snapshot g.store saved) < 2 ^ 63
    → (save_at_end io f g (some path) saved).1 ≡ some persist_ok
    → (g' : Server) × (start_server io
          (save_at_end io f g (some path) saved).0
          (some path)
          loaded_at
        ≡ running g')
      × Survived saved loaded_at g.store g'.store
unfolding start_server save_at_end cmd_set_save_path
restarts io file writes reads f g path saved loaded_at v times small ok =
    let (s', accepted, survived) =
      save-load io file writes reads f g.store path saved loaded_at v times small (some_same ok) in
    let g0 = cmd_set_save_path fresh_server path in
    (with_store g0 s', ap (with_loaded g0) accepted, survived)
