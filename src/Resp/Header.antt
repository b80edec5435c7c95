-- ===== src/Resp/Header.antt =====
-- src/resp.c: how `find_crlf` and `parse_ll` read a length line that the serializer writes.
use redis_server_c.Prelude.{
  ℕ, suc, ◌+◌, ◌-◌, ◌*◌, ◌^◌, ◌≤◌, ◌<◌, ◌≡◌, ◌≢◌, refl, some, [], ◌∷◌, ◌++◌, arith, Bytes, length,
  ap, ◌∙◌,
}
use redis_server_c.Prelude.Int.{pos}
use redis_server_c.Store.Number.{read_digits, print_ℕ}
use redis_server_c.Store.Number.RoundTrip.{StartsWithDigit, print_ℕ-StartsWithDigit, read-print_ℕ}
use redis_server_c.Resp.Parse.{cr, max_bulk_len, crlf_from, read_len, parse_ll}

read_digits-le : (s : Bytes) (v n : ℕ) → read_digits s v ≡ some n → v ≤ n
unfolding read_digits
read_digits-le [] v n h = ground arith
read_digits-le (c ∷ s) v n h = ground (arith, read_digits-le s (v * 10 + (c - b'0')) n)

-- Below its guard the loop reads what a loop without one reads.
read_len-digits :
    (s : Bytes) (v n : ℕ) → read_digits s v ≡ some n → n ≤ max_bulk_len * 2 → read_len s v ≡ some n
unfolding read_digits read_len
read_len-digits [] v n h top = h
read_len-digits (c ∷ s) v n h top =
    let next = v * 10 + (c - b'0') in
    ground (arith, read_len-digits s next n, read_digits-le s next n)

parse_ll-digits :
    (s : Bytes) (n : ℕ) → StartsWithDigit s → read_len s 0 ≡ some n → parse_ll s ≡ some (pos n)
unfolding parse_ll
parse_ll-digits [] n d h = absurd d
parse_ll-digits (c ∷ []) n d h = ground arith
parse_ll-digits (c ∷ e ∷ s) n d h = ground arith

pub parse_ll-print_ℕ : (n : ℕ) → n ≤ max_bulk_len → parse_ll (print_ℕ n) ≡ some (pos n)
parse_ll-print_ℕ n top =
    let small : n < 10 ^ 19 = omega arith in
    parse_ll-digits (print_ℕ n) n (print_ℕ-StartsWithDigit n small)
      (read_len-digits (print_ℕ n) 0 n (read-print_ℕ n small) (omega arith))

crlf_from-skip : (c : ℕ) (s : Bytes) (i : ℕ) → c ≢ cr → crlf_from (c ∷ s) i ≡ crlf_from s (suc i)
unfolding crlf_from
crlf_from-skip c [] i h = refl
crlf_from-skip c (d ∷ s) i h = ground arith

-- There is no '\r' among digits.
crlf_from-digits :
    (s t : Bytes) (v n i : ℕ)
    → read_digits s v ≡ some n
    → crlf_from (s ++ 13 ∷ 10 ∷ t) i ≡ some (i + length s)
unfolding read_digits crlf_from
crlf_from-digits [] t v n i h = ground arith
crlf_from-digits (c ∷ s) t v n i h =
    crlf_from-skip c (s ++ 13 ∷ 10 ∷ t) i (ground arith)
    ∙ crlf_from-digits s t (v * 10 + (c - b'0')) n (suc i) (ground arith)
    ∙ ap some (omega arith)

-- The line of a sign and a decimal number ends behind its digits.
pub crlf_from-header :
    (c n : ℕ) (t : Bytes) (i : ℕ)
    → c ≢ cr
    → n ≤ max_bulk_len
    → crlf_from (c ∷ print_ℕ n ++ 13 ∷ 10 ∷ t) i ≡ some (i + 1 + length (print_ℕ n))
crlf_from-header c n t i h top =
    crlf_from-skip c (print_ℕ n ++ 13 ∷ 10 ∷ t) i h
    ∙ crlf_from-digits (print_ℕ n) t 0 n (suc i) (read-print_ℕ n (omega arith))
    ∙ ap some (omega arith)
