-- ===== src/Persist/Load.antt =====
-- src/persist.c: `persist_load` on the bytes of the file.
use redis_server_c.Prelude.{
  ℕ, zero, suc, ◌+◌, ◌-◌, ◌^◌, ◌%◌, Bool, true, false, not, ◌&&◌, Option, none, some, Bytes, length,
  take, drop, ltb, leb, ◌==◌, if◌then◌else◌, memcmp,
}
use redis_server_c.Prelude.Int.{ℤ, is_zero, leb_ℤ}
use redis_server_c.Store.State.{Store}
use redis_server_c.Store.Ops.{store_set}
use redis_server_c.Persist.Status.{
  PersistStatus, persist_ok, persist_err_format, persist_err_corrupt,
}
use redis_server_c.Persist.Codec.{read_u64, read_u32, from_u64, checksum}
use redis_server_c.Persist.Image.{magic}

-- A chain of checks ends at the first that fails.
infixl 5 ◌>>=◌
abbrev pub ◌>>=◌ {ℓ κ} : {A : Type ℓ} {B : Type κ} → Option A → (A → Option B) → Option B
none >>= f = none
some a >>= f = f a

-- `if (pos + 8 > limit)` fails, else the word at `pos` and the new `pos`.
unfoldable pub word_at : Bytes → ℕ → ℕ → Option (ℕ × ℕ)
word_at bytes limit p =
    if ltb limit ((p + 8) % 2 ^ 64) then none else some (read_u64 (drop p bytes), (p + 8) % 2 ^ 64)

-- `if (pos + len > limit)` fails, else the new `pos`. The sum is one of `size_t`.
unfoldable pub past : ℕ → ℕ → ℕ → Option ℕ
past limit p len = if ltb limit ((p + len) % 2 ^ 64) then none else some ((p + len) % 2 ^ 64)

-- One entry of the file: where key and value stand, their lengths, and where the next one starts.
pub record RawEntry : Type 0 where
  pub key_at : ℕ
  pub keylen : ℕ
  pub val_at : ℕ
  pub vallen : ℕ
  pub expire_at_ms : ℤ
  pub next : ℕ

unfoldable pub entry_at : Bytes → ℕ → ℕ → Option RawEntry
entry_at bytes limit p = do
  (keylen, key_at) ← word_at bytes limit p
  p2 ← past limit key_at keylen
  (vallen, val_at) ← word_at bytes limit p2
  p4 ← past limit val_at vallen
  (expiry, next) ← word_at bytes limit p4
  some (record {
    key_at = key_at;
    keylen = keylen;
    val_at = val_at;
    vallen = vallen;
    expire_at_ms = from_u64 expiry;
    next = next;
  })

-- The store with the status, or a read of key or value bytes outside the file's buffer.
pub data Loaded : Type 0 where
  loaded : Store → PersistStatus → Loaded
  fault : Loaded

-- `store_set` reads all the bytes of key and value.
unfoldable pub in_bounds : Bytes → RawEntry → Bool
in_bounds bytes r =
    leb (r.key_at + r.keylen) (length bytes) && leb (r.val_at + r.vallen) (length bytes)

abbrev pub has_expired : ℤ → ℤ → Bool
has_expired expire_at_ms now = not (is_zero expire_at_ms) && leb_ℤ expire_at_ms now

unfoldable pub set_raw : Bytes → Store → RawEntry → Store
set_raw bytes s r =
    (store_set s (take r.keylen (drop r.key_at bytes)) (take r.vallen (drop r.val_at bytes))
      (r.expire_at_ms)).0

-- The loop on the number of entries that are left.
unfoldable pub load_entries : Bytes → ℕ → ℤ → ℕ → ℕ → Store → Loaded
load_entries bytes limit now zero p s = loaded s persist_ok
load_entries bytes limit now (suc n) p s = elim (entry_at bytes limit p) [
  | none ↦ loaded s persist_err_corrupt
  | some r ↦ elim (has_expired r.expire_at_ms now) [
    | true ↦ load_entries bytes limit now n r.next s
    | false ↦ elim (in_bounds bytes r) [
      | true ↦ load_entries bytes limit now n r.next (set_raw bytes s r)
      | false ↦ fault
    ]
  ]
]

-- What follows when the file has been read whole.
unfoldable pub load_bytes : Store → Bytes → ℤ → Loaded
unfolding load_entries
load_bytes s bytes now =
    let limit = length bytes - 4 in
    if not (memcmp bytes magic 8)
    then loaded s persist_err_format
    else if not (read_u32 (drop limit bytes) == checksum (take limit bytes))
    then loaded s persist_err_corrupt
    else load_entries bytes limit now (read_u64 (drop 8 bytes)) 16 s
