-- ===== src/Store/Number/Range.antt =====
-- `int64_t` arithmetic in `store_incrby`: the guard refuses exactly the sums that would overflow.
use redis_server_c.Prelude.{◌≡◌, ◌↔◌, false, some, [], ◌∷◌, Bytes, arith}
use redis_server_c.Prelude.Int.{
  ℤ, pos, ◌+ℤ◌, ◌-ℤ◌, ◌<ℤ◌, InInt64, int64_max, int64_min, +ℤ_parts, -ℤ_parts,
}
use redis_server_c.Store.Number.{in_range, parse_strict_ll}
use redis_server_c.Store.Ops.{overflows}

overflows_sound :
    (n delta : ℤ) → InInt64 n → InInt64 delta → overflows n delta ≡ false → InInt64 (n +ℤ delta)
overflows_sound n delta hn hd h =
    ground (arith, +ℤ_parts n delta, -ℤ_parts int64_max delta, -ℤ_parts int64_min delta)

overflows_complete :
    (n delta : ℤ) → InInt64 n → InInt64 delta → InInt64 (n +ℤ delta) → overflows n delta ≡ false
overflows_complete n delta hn hd h =
    ground (arith, +ℤ_parts n delta, -ℤ_parts int64_max delta, -ℤ_parts int64_min delta)

-- For numbers of type `int64_t` the guard passes exactly if the sum has that type.
pub overflows-exact :
    (n delta : ℤ) → InInt64 n → InInt64 delta → (overflows n delta ≡ false) ↔ InInt64 (n +ℤ delta)
overflows-exact n delta hn hd = (overflows_sound n delta hn hd, overflows_complete n delta hn hd)

-- The subtraction that the guard makes for a delta of that sign does not overflow itself.
pub overflows_safe :
    (delta : ℤ)
    → InInt64 delta
    → (pos 0 <ℤ delta → InInt64 (int64_max -ℤ delta))
      × (delta <ℤ pos 0 → InInt64 (int64_min -ℤ delta))
overflows_safe delta h =
    (λ p. omega (arith, -ℤ_parts int64_max delta), λ p. omega (arith, -ℤ_parts int64_min delta))

in_range-InInt64 : (v : ℤ) (n : ℤ) → in_range v ≡ some n → InInt64 n
in_range-InInt64 v n h = ground arith

-- Whatever is read as a number has the type `int64_t`.
pub parse_strict_ll-InInt64 : (s : Bytes) (n : ℤ) → parse_strict_ll s ≡ some n → InInt64 n
unfolding parse_strict_ll
parse_strict_ll-InInt64 [] n h = ground arith
parse_strict_ll-InInt64 (c ∷ s) n h = ground arith
