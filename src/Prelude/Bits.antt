-- ===== src/Prelude/Bits.antt =====
-- The bitwise "and" with a mask. The tactics take such a call for an unknown.
use Prim.Native.Nat.{
  ℕ, zero, suc, ◌+◌, ◌-◌, ◌*◌, ◌/◌, ◌%◌, ◌^◌, ◌≤◌, ◌<◌, min, bit_and, digits, bit_and-bitwise,
}
use mathlib.Core.Path.{◌≡◌, ◌∙◌}
use native.Mathlib.Omega.{arith}
use native.Mathlib.Nat.{two-pow-succ, div-add-mod, div-div-eq-div-mul}

-- The digits of `mask` that stand under a one of `a`, lowest first, for `rounds` digits of `a`.
abbrev selected : ℕ → ℕ → ℕ → ℕ
selected rounds a mask = digits (λ m. zero) min rounds a mask

selected-le : (rounds a mask : ℕ) → selected rounds a mask ≤ mask
selected-le zero zero mask = omega arith
selected-le zero (suc a) mask = omega arith
selected-le (suc rounds) zero mask = omega arith
selected-le (suc rounds) (suc a) mask = omega (arith, selected-le rounds (suc a / 2) (mask / 2))

-- A masked number is at most the mask.
pub bit_and-le : (a mask : ℕ) → bit_and a mask ≤ mask
bit_and-le a mask = omega (arith, bit_and-bitwise a mask, selected-le a a mask)

-- The lowest binary digit and the rest of a remainder modulo twice `p`.
mod_double : (a p : ℕ) → (a / 2) % p * 2 + a % 2 ≡ a % (2 * p)
mod_double a p =
    let half = rw (div-div-eq-div-mul a 2 p) at (div-add-mod (a / 2) p) in
    omega (arith, half, div-add-mod a (2 * p))

pub pow-pos : (k : ℕ) → 0 < 2 ^ k
pow-pos zero = omega arith
pow-pos (suc k) = rw two-pow-succ (omega (arith, pow-pos k))

-- One more digit of the mask `2 * p - 1`, when the halves are known.
double :
    (rounds a p : ℕ)
    → 0 < p
    → selected rounds (suc a / 2) (p - 1) ≡ (suc a / 2) % p
    → selected (suc rounds) (suc a) (2 * p - 1) ≡ suc a % (2 * p)
double rounds a p h halves =
    let e : (2 * p - 1) / 2 ≡ p - 1 = omega arith in
    rw e (omega (arith, halves, mod_double (suc a) p))

selected_mask : (rounds k a : ℕ) → a ≤ rounds → selected rounds a (2 ^ k - 1) ≡ a % 2 ^ k
selected_mask zero k zero h = omega (arith, pow-pos k)
selected_mask zero k (suc a) h = absurd (omega arith)
selected_mask (suc rounds) k zero h = omega (arith, pow-pos k)
selected_mask (suc rounds) zero (suc a) h =
    omega (arith, selected-le (suc rounds) (suc a) (2 ^ 0 - 1))
selected_mask (suc rounds) (suc k) (suc a) h =
    let e : 2 ^ suc k ≡ 2 * 2 ^ k = rw two-pow-succ (omega arith) in
    rw e (double rounds a (2 ^ k) (pow-pos k) (selected_mask rounds k (suc a / 2) (omega arith)))

-- A mask of `k` ones is the remainder modulo `2 ^ k`.
pub bit_and-mask : (k a : ℕ) → bit_and a (2 ^ k - 1) ≡ a % 2 ^ k
bit_and-mask k a = bit_and-bitwise a (2 ^ k - 1) ∙ selected_mask a k a (omega arith)
