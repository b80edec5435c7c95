-- ===== src/Persist/Codec.antt =====
-- src/persist.c: the little-endian helpers and the checksum.
use native.Mathlib.Nat.{
  pow-suc, pow-succ', div-div-eq-div-mul, div-le_self, div-eq_of_lt, mod-eq_of_lt,
}
use redis_server_c.Prelude.{
  ℕ, zero, suc, ◌+◌, ◌-◌, ◌*◌, ◌/◌, ◌%◌, ◌^◌, ◌≤◌, ◌<◌, ◌≡◌, refl, sym, ap, ◌∙◌, [], ◌∷◌, ◌++◌,
  arith, Bytes, length, get_or, ltb, if◌then◌else◌,
}
use redis_server_c.Prelude.Int.{ℤ, pos, negsuc, InInt64}

-- The loop `p[i] = (uint8_t)(v & 0xff); v >>= 8` for `n` bytes.
unfoldable pub write_le : ℕ → ℕ → Bytes
write_le zero v = []
write_le (suc n) v = (v % 256) ∷ write_le n (v / 256)

abbrev pub write_u64 : ℕ → Bytes
write_u64 v = write_le 8 v

abbrev pub write_u32 : ℕ → Bytes
write_u32 v = write_le 4 v

-- The loop `v = (v << 8) | p[i]`, downwards from `i - 1`, in a word below `word`.
unfoldable pub read_le : ℕ → ℕ → Bytes → ℕ → ℕ
read_le word zero p v = v
read_le word (suc i) p v = read_le word i p ((v * 256 + get_or p i 0) % word)

abbrev pub read_u64 : Bytes → ℕ
read_u64 p = read_le (2 ^ 64) 8 p 0

abbrev pub read_u32 : Bytes → ℕ
read_u32 p = read_le (2 ^ 32) 4 p 0

-- The conversions between `int64_t` and `uint64_t`.
abbrev pub to_u64 : ℤ → ℕ
to_u64 (pos n) = n
to_u64 (negsuc n) = 2 ^ 64 - 1 - n

abbrev pub from_u64 : ℕ → ℤ
from_u64 w = if ltb w (2 ^ 63) then pos w else negsuc (2 ^ 64 - 1 - w)

unfoldable pub sum_bytes : Bytes → ℕ → ℕ
sum_bytes [] sum = sum
sum_bytes (b ∷ s) sum = sum_bytes s ((sum + b) % 2 ^ 32)

unfoldable pub checksum : Bytes → ℕ
unfolding sum_bytes
checksum s = sum_bytes s 0

pub length-write_le : (n v : ℕ) → length (write_le n v) ≡ n
unfolding write_le
length-write_le zero v = refl
length-write_le (suc n) v = ap suc (length-write_le n (v / 256))

-- Byte `i` is digit `i` to the base 256.
get_or-write_le :
    (n v i : ℕ) (rest : Bytes) → i < n → get_or (write_le n v ++ rest) i 0 ≡ v / 256 ^ i % 256
unfolding write_le
get_or-write_le zero v i rest h = absurd (omega arith)
get_or-write_le (suc n) v zero rest h = omega arith
get_or-write_le (suc n) v (suc i) rest h =
    get_or-write_le n (v / 256) i rest (omega arith)
    ∙ ap (λ k. k % 256)
        (div-div-eq-div-mul v 256 (256 ^ i) ∙ ap (λ k. v / k) (sym (pow-succ' 256 i)))

-- What is read from digit `i` on, when the digits above it have been.
read_le-write_le_from :
    (word n v i : ℕ) (rest : Bytes)
    → i ≤ n
    → v < word
    → read_le word i (write_le n v ++ rest) (v / 256 ^ i) ≡ v
unfolding read_le
read_le-write_le_from word n v zero rest h small = omega arith
read_le-write_le_from word n v (suc i) rest h small =
    let d = v / 256 ^ i in
    let above : v / 256 ^ suc i ≡ d / 256 =
      ap (λ k. v / k) (pow-suc 256 i) ∙ sym (div-div-eq-div-mul v (256 ^ i) 256) in
    let digit = get_or-write_le n v i rest h in
    let le : d ≤ v = div-le_self v (256 ^ i) in
    let joined : d / 256 * 256 + d % 256 ≡ d = omega arith in
    let same : (v / 256 ^ suc i * 256 + get_or (write_le n v ++ rest) i 0) % word ≡ d =
      rw (above, digit, joined) (mod-eq_of_lt (omega arith)) in
    rw same (read_le-write_le_from word n v i rest (omega arith) small)

pub read_le-write_le :
    (word n v : ℕ) (rest : Bytes)
    → v < word
    → v < 256 ^ n
    → read_le word n (write_le n v ++ rest) 0 ≡ v
read_le-write_le word n v rest small fits =
    ap (read_le word n (write_le n v ++ rest)) (sym (div-eq_of_lt fits))
    ∙ read_le-write_le_from word n v n rest (omega arith) small

pub from-to_u64 : (v : ℤ) → InInt64 v → from_u64 (to_u64 v) ≡ v
from-to_u64 (pos n) h = ground arith
from-to_u64 (negsuc n) h = ground arith
