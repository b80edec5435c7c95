-- ===== src/Input.antt =====
-- The growable input buffer that both servers have: `dyn_buf_t` of src/server_threaded.c, which is
-- `in_buf`, `in_len` and `in_cap` of `conn_t` in src/server.c.
use redis_server_c.Prelude.{
  ℕ, ◌+◌, ◌%◌, ◌^◌, ◌≤◌, ◌≡◌, ◌&&◌, ◌++◌, arith, Bytes, length, drop, length-append, length-drop,
  ltb, ◌==◌, if◌then◌else◌, Bool-cases, inl, inr,
}
use redis_server_c.Growth.{grown, grown_enough}

-- The bytes in use, of `cap` allocated ones.
pub record DynBuf : Type 0 where
  pub buf : Bytes
  pub cap : ℕ

unfoldable pub dyn_buf_append : DynBuf → Bytes → DynBuf
dyn_buf_append b bytes =
    let need = (length b.buf + length bytes) % 2 ^ 64 in
    record { buf = b.buf ++ bytes; cap = if ltb b.cap need then grown 4096 b.cap need else b.cap }

-- A large buffer that has become empty is given back.
unfoldable pub dyn_buf_consume : DynBuf → ℕ → DynBuf
dyn_buf_consume b n =
    let rest = drop n b.buf in
    record { buf = rest; cap = if (length rest == 0) && ltb 65536 b.cap then 0 else b.cap }

-- The bytes in use are allocated ones.
pub record IsDynBuf (b : DynBuf) : Type 0 where
  pub within : length b.buf ≤ b.cap
  pub small : b.cap ≤ 2 ^ 63

pub dyn_buf_append-IsDynBuf :
    (b : DynBuf) (bytes : Bytes)
    → IsDynBuf b
    → length b.buf + length bytes ≤ 2 ^ 62
    → IsDynBuf (dyn_buf_append b bytes)
unfolding dyn_buf_append
dyn_buf_append-IsDynBuf b bytes v room =
    let need = length b.buf + length bytes in
    let longer = length-append b.buf bytes in
    let whole : need % 2 ^ 64 ≡ need = omega arith in
    elim (Bool-cases (ltb b.cap need)) [
      | inr enough ↦
          rw (whole, enough, dyn_buf_append)
            (record { within = ground (arith, enough, longer); small = v.small })
      | inl short ↦
          let (reached, below) =
            grown_enough 4096 b.cap need (omega arith) (omega arith) (ground (arith, short)) room in
          rw (whole, short, dyn_buf_append)
            (record { within = omega (arith, longer, reached); small = below })
    ]

pub dyn_buf_consume-IsDynBuf : (b : DynBuf) (n : ℕ) → IsDynBuf b → IsDynBuf (dyn_buf_consume b n)
unfolding dyn_buf_consume
dyn_buf_consume-IsDynBuf b n v =
    let shorter = length-drop n b.buf in
    record { within = ground (arith, v.within, shorter); small = ground (arith, v.small) }
