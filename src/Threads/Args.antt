-- ===== src/Threads/Args.antt =====
-- src/server_threaded.c: the arguments of `main`.
use redis_server_c.Prelude.{◌&&◌, ◌||◌, Bool, List, [], ◌∷◌, Option, some, Bytes, if◌then◌else◌}
use redis_server_c.Prelude.Int.{ℤ, pos, leb_ℤ, ltb_ℤ}
use redis_server_c.Epoll.Main.{default_port, is_save, bad_port}

-- DEFAULT_WORKERS
abbrev pub default_workers : ℤ
default_workers = pos 4

pub data PoolOptions : Type 0 where
  pool_usage : PoolOptions
  pool_options : ℤ → ℤ → Option Bytes → PoolOptions

-- `a == n` for a constant `n` that is not negative
abbrev pub equals : ℤ → ℤ → Bool
equals a b = leb_ℤ a b && leb_ℤ b a

-- What follows the loop over the arguments.
abbrev pub checked : ℤ → ℤ → Option Bytes → PoolOptions
checked port workers save_path =
    if bad_port port || leb_ℤ workers (pos 0)
    then pool_usage
    else pool_options port workers save_path

-- An argument that is a number: the port as long as that is the default one, then the workers.
unfoldable pub pool_args : (Bytes → ℤ) → List Bytes → ℤ → ℤ → Option Bytes → PoolOptions
pool_args atoi [] port workers save_path = checked port workers save_path
pool_args atoi (a ∷ []) port workers save_path =
    if equals port default_port && ltb_ℤ (pos 0) (atoi a)
    then checked (atoi a) workers save_path
    else if equals workers default_workers && ltb_ℤ (pos 0) (atoi a)
    then checked port (atoi a) save_path
    else pool_usage
pool_args atoi (a ∷ b ∷ rest) port workers save_path =
    let saving = pool_args atoi rest port workers (some b) in
    let on_port = pool_args atoi (b ∷ rest) (atoi a) workers save_path in
    let on_workers = pool_args atoi (b ∷ rest) port (atoi a) save_path in
    if is_save a
    then saving
    else if equals port default_port && ltb_ℤ (pos 0) (atoi a)
    then on_port
    else if equals workers default_workers && ltb_ℤ (pos 0) (atoi a)
    then on_workers
    else pool_usage
