-- ===== src/Store/Number.antt =====
-- src/store.c, `parse_strict_ll` (strtoll in base 10) and the `snprintf` of "%lld".
pub mod Range
pub mod RoundTrip
use redis_server_c.Prelude.{
  ℕ, zero, suc, ◌+◌, ◌-◌, ◌*◌, ◌/◌, ◌%◌, Bool, ◌&&◌, ◌||◌, [], ◌∷◌, Option, none, some, Bytes,
  codes, length, ltb, leb, ◌==◌, if◌then◌else◌, ◌≡◌, refl,
}
use redis_server_c.Prelude.Int.{ℤ, pos, negsuc, ltb_ℤ, int64_max, int64_min}

-- `isspace` in the C locale.
abbrev pub is_space : ℕ → Bool
is_space c = (c == 32) || (leb 9 c && leb c 13)

abbrev pub is_digit : ℕ → Bool
is_digit c = leb b'0' c && leb c b'9'

-- The digits that `strtoll` reads, all the bytes to the end or nothing.
unfoldable pub read_digits : Bytes → ℕ → Option ℕ
read_digits [] n = some n
read_digits (c ∷ s) n = if is_digit c then read_digits s (n * 10 + (c - b'0')) else none

-- With no digit behind the sign `endptr` stays at the start, which is not the end.
unfoldable pub read_number : Bytes → Option ℕ
unfolding read_digits
read_number [] = none
read_number (c ∷ s) = read_digits (c ∷ s) 0

-- -n
abbrev pub negate : ℕ → ℤ
negate zero = pos 0
negate (suc n) = negsuc n

abbrev pub in_range : ℤ → Option ℤ
in_range v = if ltb_ℤ int64_max v || ltb_ℤ v int64_min then none else some v

-- `strtoll(buf, &endptr, 10)` on a buffer that starts with no white space, with the two tests of
-- ERANGE and of `endptr` at the end of the buffer.
unfoldable pub strtoll_all : Bytes → Option ℤ
unfolding read_number
strtoll_all [] = none
strtoll_all (c ∷ s) =
    if c == b'-'
    then elim (read_number s) [ none ↦ none | some n ↦ in_range (negate n) ]
    else if c == b'+'
    then elim (read_number s) [ none ↦ none | some n ↦ in_range (pos n) ]
    else elim (read_number (c ∷ s)) [ none ↦ none | some n ↦ in_range (pos n) ]

unfoldable pub parse_strict_ll : Bytes → Option ℤ
unfolding strtoll_all
parse_strict_ll [] = none
parse_strict_ll (c ∷ s) =
    if ltb 20 (length (c ∷ s)) then none else if is_space c then none else strtoll_all (c ∷ s)

-- The decimal digits of `n` in front of `out`; a number has at most as many digits as `rounds`.
unfoldable pub print_digits : ℕ → ℕ → Bytes → Bytes
print_digits zero n out = out
print_digits (suc rounds) n out =
    let rest = print_digits rounds (n / 10) ((b'0' + n % 10) ∷ out) in if n == 0 then out else rest

unfoldable pub print_ℕ : ℕ → Bytes
print_ℕ n = if n == 0 then b'0' ∷ [] else print_digits 20 n []

-- "%lld"
unfoldable pub print_ll : ℤ → Bytes
unfolding print_ℕ
print_ll (pos n) = print_ℕ n
print_ll (negsuc n) = b'-' ∷ print_ℕ (suc n)

parse_samples :
    (parse_strict_ll (codes "-9223372036854775808") ≡ some int64_min)
    × (parse_strict_ll (codes "9223372036854775808") ≡ none)
    × (parse_strict_ll (codes "+5") ≡ some (pos 5))
    × (parse_strict_ll (codes " 5") ≡ none)
    × (parse_strict_ll (codes "5 ") ≡ none)
    × (parse_strict_ll (codes "-") ≡ none)
unfolding parse_strict_ll
parse_samples = (refl, refl, refl, refl, refl, refl)

print_samples : (print_ll int64_min ≡ codes "-9223372036854775808") × (print_ll (pos 0) ≡ codes "0")
unfolding print_ll print_digits
print_samples = (refl, refl)
