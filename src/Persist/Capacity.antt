-- ===== src/Persist/Capacity.antt =====
-- src/persist.c: the writes of `ctx_append` stay in the buffer.
use redis_server_c.Prelude.{
  ◌+◌, ◌%◌, ◌^◌, ◌≤◌, ◌≡◌, arith, Bytes, length, length-append, ltb, Bool-cases, inl, inr,
}
use redis_server_c.Growth.{grown_enough}
use redis_server_c.Persist.Image.{SaveCtx, ctx_append}

-- The bytes in use are allocated ones.
pub record Fits (ctx : SaveCtx) : Type 0 where
  pub within : length ctx.buf ≤ ctx.cap
  pub small : ctx.cap ≤ 2 ^ 63

-- An append to a valid buffer, up to 2 ^ 62 bytes together, writes inside the allocation.
pub ctx_append-Fits :
    (ctx : SaveCtx) (bytes : Bytes)
    → Fits ctx
    → length ctx.buf + length bytes ≤ 2 ^ 62
    → Fits (ctx_append ctx bytes)
unfolding ctx_append
ctx_append-Fits ctx bytes fits room =
    let need = length ctx.buf + length bytes in
    let longer = length-append ctx.buf bytes in
    let whole : need % 2 ^ 64 ≡ need = omega arith in
    elim (Bool-cases (ltb ctx.cap need)) [
      | inr enough ↦
          rw (whole, enough, ctx_append)
            (record { within = ground (arith, enough, longer); small = fits.small })
      | inl short ↦
          let (reached, below) =
            grown_enough 65536 ctx.cap need (omega arith) (omega arith) (ground (arith, short))
              room in
          rw (whole, short, ctx_append)
            (record { within = omega (arith, longer, reached); small = below })
    ]
