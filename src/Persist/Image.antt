-- ===== src/Persist/Image.antt =====
-- src/persist.c: the snapshot that `persist_save` builds in memory.
use redis_server_c.Prelude.{
  ℕ, ◌+◌, ◌^◌, ◌%◌, [], ◌∷◌, ◌++◌, Bytes, codes, length, take, drop, ltb, if◌then◌else◌,
}
use redis_server_c.Prelude.Int.{ℤ}
use redis_server_c.Growth.{grown}
use redis_server_c.Store.Chain.{Entry}
use redis_server_c.Store.State.{Store}
use redis_server_c.Store.Ops.{store_foreach}
use redis_server_c.Persist.Codec.{write_u64, write_u32, to_u64, checksum}

-- `save_ctx_t`: the bytes in use, of `cap` allocated ones, and the number of entries.
pub record SaveCtx : Type 0 where
  pub buf : Bytes
  pub cap : ℕ
  pub count : ℕ

abbrev pub new_ctx : SaveCtx
new_ctx = record { buf = []; cap = 0; count = 0 }

unfoldable pub ctx_append : SaveCtx → Bytes → SaveCtx
ctx_append ctx bytes =
    let need = (length ctx.buf + length bytes) % 2 ^ 64 in
    record ctx {
      buf = ctx.buf ++ bytes;
      cap = if ltb ctx.cap need then grown 65536 ctx.cap need else ctx.cap;
    }

-- The callback that `store_foreach` is given.
unfoldable pub save_cb : Entry → SaveCtx → SaveCtx
unfolding ctx_append
save_cb e ctx =
    let ctx1 = ctx_append (ctx_append ctx (write_u64 (length e.key))) e.key in
    let ctx2 = ctx_append (ctx_append ctx1 (write_u64 (length e.val))) e.val in
    let ctx3 = ctx_append ctx2 (write_u64 (to_u64 e.expire_at_ms)) in
    record ctx3 { count = ctx.count + 1 }

-- MAGIC
abbrev pub magic : Bytes
magic = codes "KVSTORE1"

-- The placeholder for the count is eight zero bytes.
abbrev pub header : Bytes
header = magic ++ (0 ∷ 0 ∷ 0 ∷ 0 ∷ 0 ∷ 0 ∷ 0 ∷ 0 ∷ [])

-- `write_u64(ctx.buf + MAGIC_LEN, ctx.count)`
abbrev pub backfill : SaveCtx → SaveCtx
backfill ctx = record ctx { buf = take 8 ctx.buf ++ (write_u64 ctx.count ++ drop 16 ctx.buf) }

abbrev pub seal : SaveCtx → SaveCtx
seal ctx = ctx_append ctx (write_u32 (checksum ctx.buf))

-- The bytes that are written to the file; `now` is the clock's value in `store_foreach`.
unfoldable pub snapshot : Store → ℤ → Bytes
unfolding save_cb
snapshot s now = (seal (backfill (store_foreach s now save_cb (ctx_append new_ctx header)))).buf
