-- ===== src/Resp/Crlf.antt =====
-- src/resp.c, `find_crlf`: where the index lies, and what more bytes behind the buffer change.
use redis_server_c.Prelude.{
  ℕ, suc, ◌+◌, ◌≤◌, ◌≡◌, [], ◌∷◌, ◌++◌, some, arith, Bytes, length, drop, drop-append, length-drop,
}
use redis_server_c.Resp.Parse.{crlf_from, find_crlf, newline_from}

pub crlf_from-bounds :
    (s : Bytes) (i j : ℕ) → crlf_from s i ≡ some j → (i ≤ j) × (j + 2 ≤ i + length s)
unfolding crlf_from
crlf_from-bounds [] i j h = absurd cc
crlf_from-bounds (c ∷ []) i j h = absurd cc
crlf_from-bounds (c ∷ d ∷ s) i j h = ground (arith, crlf_from-bounds (d ∷ s) (suc i) j)

pub crlf_from-append :
    (s t : Bytes) (i j : ℕ) → crlf_from s i ≡ some j → crlf_from (s ++ t) i ≡ some j
unfolding crlf_from
crlf_from-append [] t i j h = absurd cc
crlf_from-append (c ∷ []) t i j h = absurd cc
crlf_from-append (c ∷ d ∷ s) t i j h = ground (arith, crlf_from-append (d ∷ s) t (suc i) j)

-- The index lies in the buffer with the byte behind it, at `from` or later.
pub find_crlf-bounds :
    (buf : Bytes) (from j : ℕ)
    → from ≤ length buf
    → find_crlf buf from ≡ some j
    → (from ≤ j) × (j + 2 ≤ length buf)
find_crlf-bounds buf from j le h =
    omega (arith, crlf_from-bounds (drop from buf) from j h, length-drop from buf)

pub find_crlf-append :
    (buf t : Bytes) (from j : ℕ)
    → from ≤ length buf
    → find_crlf buf from ≡ some j
    → find_crlf (buf ++ t) from ≡ some j
find_crlf-append buf t from j le h =
    rw (drop-append from buf t le) (crlf_from-append (drop from buf) t from j h)

pub newline_from-bounds :
    (s : Bytes) (i j : ℕ) → newline_from s i ≡ some j → (i ≤ j) × (j + 1 ≤ i + length s)
unfolding newline_from
newline_from-bounds [] i j h = absurd cc
newline_from-bounds (c ∷ s) i j h = ground (arith, newline_from-bounds s (suc i) j)

pub newline_from-append :
    (s t : Bytes) (i j : ℕ) → newline_from s i ≡ some j → newline_from (s ++ t) i ≡ some j
unfolding newline_from
newline_from-append [] t i j h = absurd cc
newline_from-append (c ∷ s) t i j h = ground (arith, newline_from-append s t (suc i) j)
