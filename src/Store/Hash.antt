-- ===== src/Store/Hash.antt =====
-- src/store.c, `fnv1a_hash` and `next_pow2`.
pub mod Pow2
use Prim.Native.Nat.{bit_xor}
use redis_server_c.Prelude.{
  ℕ, zero, suc, ◌*◌, ◌%◌, ◌^◌, ◌<◌, [], ◌∷◌, ◌≡◌, refl, arith, Bytes, codes, ltb, if◌then◌else◌,
}

-- One round of the loop: `hash ^= byte; hash *= prime`, in `uint64_t`.
hash_round : ℕ → ℕ → ℕ
hash_round hash byte = (bit_xor hash byte * 0x100000001b3) % 2 ^ 64

hash_from : ℕ → Bytes → ℕ
hash_from hash [] = hash
hash_from hash (b ∷ bs) = hash_from (hash_round hash b) bs

unfoldable pub fnv1a_hash : Bytes → ℕ
unfolding hash_from hash_round
fnv1a_hash key = hash_from 0xcbf29ce484222325 key

hash-lt_from : (bs : Bytes) (hash : ℕ) → hash < 2 ^ 64 → hash_from hash bs < 2 ^ 64
unfolding hash_from hash_round
hash-lt_from [] hash h = h
hash-lt_from (b ∷ bs) hash h = hash-lt_from bs (hash_round hash b) (omega arith)

pub fnv1a_hash-lt : (key : Bytes) → fnv1a_hash key < 2 ^ 64
unfolding fnv1a_hash
fnv1a_hash-lt key = hash-lt_from key _ (omega arith)

-- The published FNV-1a vector for "a".
fnv1a_hash-a : fnv1a_hash (codes "a") ≡ 0xaf63dc4c8601ec8c
unfolding fnv1a_hash
fnv1a_hash-a = refl

-- `while (p < n) p <<= 1;` in `size_t`, on as many rounds as a word has bits.
pow2_from : ℕ → ℕ → ℕ → ℕ
pow2_from zero p n = p
pow2_from (suc rounds) p n =
    let rest = pow2_from rounds (p * 2 % 2 ^ 64) n in if ltb p n then rest else p

unfoldable pub next_pow2 : ℕ → ℕ
unfolding pow2_from
next_pow2 n = pow2_from 64 1 n
