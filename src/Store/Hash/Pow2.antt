-- ===== src/Store/Hash/Pow2.antt =====
-- `next_pow2`: the loop ends by its test, at the least power of two that is not below `n`.
use native.Mathlib.Nat.{two-pow-succ}
use redis_server_c.Prelude.{
  ℕ, zero, suc, ◌+◌, ◌*◌, ◌%◌, ◌^◌, ◌≤◌, ◌<◌, ◌≡◌, refl, arith, ◌==◌, ==_iff, ltb, ltb→lt,
  Bool-cases, inl, inr,
}
use redis_server_c.Store.Hash.{pow2_from, next_pow2}

-- A power of two, at most 2 ^ 63.
pub record IsPow2 (n : ℕ) : Type 0 where
  pub exponent : ℕ
  pub small : exponent ≤ 63
  pub power : n ≡ 2 ^ exponent

pub record IsLeastPow2 (n r : ℕ) : Type 0 where
  pub pow2 : IsPow2 r
  pub enough : n ≤ r
  pub least : r < 2 * n

-- A power below another bound has room to double.
room : (j : ℕ) → 2 ^ j < 2 ^ 63 → j ≤ 63 → suc j ≤ 63
room j h fit = elim (Bool-cases (j == 63)) [
  | inl e ↦ let at63 = rw ((==_iff j 63).0 e) at h in absurd (omega arith)
  | inr ne ↦ ground arith
]

pow2_from-IsLeastPow2 :
    (rounds j n p : ℕ)
    → p ≡ 2 ^ j
    → j ≤ 63
    → 64 ≤ j + rounds
    → n ≤ 2 ^ 63
    → p < 2 * n
    → IsLeastPow2 n (pow2_from rounds p n)
unfolding pow2_from
pow2_from-IsLeastPow2 zero j n p e fit fuel top below = absurd (omega arith)
pow2_from-IsLeastPow2 (suc rounds) j n p e fit fuel top below = elim (Bool-cases (ltb p n)) [
  | inl less ↦
      let lt = ltb→lt p n less in
      let up = room j (rw (← e) (omega arith)) fit in
      let doubled : p * 2 % 2 ^ 64 ≡ 2 ^ suc j = rw (two-pow-succ j) (omega (arith, e)) in
      rw less (
        pow2_from-IsLeastPow2 rounds (suc j) n (p * 2 % 2 ^ 64) doubled up (omega arith) top
          (omega arith))
  | inr more ↦ rw more (record {
    pow2 = record { exponent = j; small = fit; power = e };
    enough = ground arith;
    least = below;
  })
]

-- For 0 < n ≤ 2 ^ 63 the result is the least power of two that is not below n.
pub next_pow2-IsLeastPow2 : (n : ℕ) → 0 < n → n ≤ 2 ^ 63 → IsLeastPow2 n (next_pow2 n)
unfolding next_pow2
next_pow2-IsLeastPow2 n pos top =
    pow2_from-IsLeastPow2 64 0 n 1 refl (omega arith) (omega arith) top (omega arith)
