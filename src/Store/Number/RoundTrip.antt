-- ===== src/Store/Number/RoundTrip.antt =====
-- What `snprintf("%lld")` writes, `parse_strict_ll` reads back.
use native.Mathlib.Nat.{pow-suc}
use redis_server_c.Prelude.{
  ℕ, zero, suc, ◌+◌, ◌*◌, ◌/◌, ◌%◌, ◌^◌, ◌≤◌, ◌<◌, ◌≡◌, refl, ap, ◌∙◌, true, some, [], ◌∷◌, Bytes,
  arith, length, ◌==◌, Bool-cases, inl, inr,
}
use redis_server_c.Prelude.Int.{ℤ, pos, negsuc, InInt64}
use redis_server_c.Store.Number.{
  is_digit, read_digits, negate, parse_strict_ll, print_digits, print_ℕ, print_ll,
}

-- Reading the digits of `n`, then `out`, is reading `out` behind `n`.
read-print_digits :
    (rounds n : ℕ) (out : Bytes)
    → n < 10 ^ rounds
    → read_digits (print_digits rounds n out) 0 ≡ read_digits out n
unfolding read_digits print_digits
read-print_digits zero n out h = ap (read_digits out) (omega arith)
read-print_digits (suc rounds) n out h = elim (Bool-cases (n == 0)) [
  | inl z ↦ rw (z, print_digits) (ap (read_digits out) (ground arith))
  | inr p ↦
      let less : n < 10 ^ rounds * 10 = rw pow-suc at h in
      rw (p, print_digits)
        (read-print_digits rounds (n / 10) ((b'0' + n % 10) ∷ out) (omega arith) ∙ ground arith)
]

-- A number below 10 ^ k has at most k digits.
length-print_digits :
    (rounds k n : ℕ) (out : Bytes)
    → n < 10 ^ k
    → length (print_digits rounds n out) ≤ k + length out
unfolding print_digits
length-print_digits zero k n out h = omega arith
length-print_digits (suc rounds) zero n out h = let e : n ≡ 0 = omega arith in rw e (omega arith)
length-print_digits (suc rounds) (suc k) n out h = elim (Bool-cases (n == 0)) [
  | inl z ↦ rw (z, print_digits) (omega arith)
  | inr p ↦
      let less : n < 10 ^ k * 10 = rw pow-suc at h in
      let rest = length-print_digits rounds k (n / 10) ((b'0' + n % 10) ∷ out) (omega arith) in
      rw (p, print_digits) (omega (arith, rest))
]

-- A text that opens with a digit has no sign.
abbrev pub StartsWithDigit : Bytes → Type 0
StartsWithDigit [] = ⊥
StartsWithDigit (c ∷ s) = is_digit c ≡ true

print_digits-StartsWithDigit :
    (rounds n : ℕ) (out : Bytes) → StartsWithDigit out → StartsWithDigit (print_digits rounds n out)
unfolding print_digits
print_digits-StartsWithDigit zero n out h = h
print_digits-StartsWithDigit (suc rounds) n out h = elim (Bool-cases (n == 0)) [
  | inl z ↦ rw (z, print_digits) h
  | inr p ↦
      rw (p, print_digits)
        (print_digits-StartsWithDigit rounds (n / 10) ((b'0' + n % 10) ∷ out) (ground arith))
]

module _ (n : ℕ) (h : n < 10 ^ 19) where
  pub print_ℕ-StartsWithDigit : StartsWithDigit (print_ℕ n)
  unfolding print_ℕ
  print_ℕ-StartsWithDigit = elim (Bool-cases (n == 0)) [
    | inl z ↦ rw (z, print_ℕ) refl
    | inr p ↦
        rw (p, print_ℕ)
          (unfold print_digits in
            rw p (print_digits-StartsWithDigit 19 (n / 10) ((b'0' + n % 10) ∷ []) (ground arith)))
  ]

  length-print_ℕ : length (print_ℕ n) ≤ 19
  unfolding print_ℕ
  length-print_ℕ = elim (Bool-cases (n == 0)) [
    | inl z ↦ rw (z, print_ℕ) (omega arith)
    | inr p ↦ rw (p, print_ℕ) (length-print_digits 20 19 n [] h)
  ]

  pub read-print_ℕ : read_digits (print_ℕ n) 0 ≡ some n
  unfolding print_ℕ read_digits
  read-print_ℕ = elim (Bool-cases (n == 0)) [
    | inl z ↦ rw (z, print_ℕ) (ground arith)
    | inr p ↦ rw (p, print_ℕ) (read-print_digits 20 n [] (omega arith))
  ]

parse_positive :
    (s : Bytes) (n : ℕ)
    → StartsWithDigit s
    → length s ≤ 19
    → read_digits s 0 ≡ some n
    → n < 2 ^ 63
    → parse_strict_ll s ≡ some (pos n)
unfolding parse_strict_ll
parse_positive [] n d l r h = absurd d
parse_positive (c ∷ s) n d l r h = ground arith

parse_negative :
    (s : Bytes) (n : ℕ)
    → StartsWithDigit s
    → length s ≤ 19
    → read_digits s 0 ≡ some n
    → n ≤ 2 ^ 63
    → parse_strict_ll (b'-' ∷ s) ≡ some (negate n)
unfolding parse_strict_ll
parse_negative [] n d l r h = absurd d
parse_negative (c ∷ s) n d l r h = ground arith

-- Every `int64_t` is read back from its decimal print.
pub parse-print_ll : (v : ℤ) → InInt64 v → parse_strict_ll (print_ll v) ≡ some v
unfolding print_ll
parse-print_ll (pos n) h =
    let small : n < 10 ^ 19 = omega arith in
    parse_positive (print_ℕ n) n (print_ℕ-StartsWithDigit n small) (length-print_ℕ n small)
      (read-print_ℕ n small) (omega arith)
parse-print_ll (negsuc n) h =
    let small : suc n < 10 ^ 19 = omega arith in
    parse_negative (print_ℕ (suc n)) (suc n) (print_ℕ-StartsWithDigit (suc n) small)
      (length-print_ℕ (suc n) small) (read-print_ℕ (suc n) small) (omega arith)
