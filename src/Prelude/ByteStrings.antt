-- ===== src/Prelude/ByteStrings.antt =====
-- Byte strings with an explicit length, the bytes of a C string literal, and `memcmp`.
use Prim.Native.Nat.{ℕ, zero, suc}
use Prim.Native.Char.{code}
use Prim.Native.String.{String}
use mathlib.Core.Path.{◌≡◌, refl}
use mathlib.Core.Logic.{◌↔◌}
use mathlib.Core.Bool.{Bool, true, false, ◌&&◌}
use mathlib.Core.List.{List, [], ◌∷◌}
use native.Mathlib.Omega.{arith}
use redis_server_c.Prelude.Lists.{length}
use redis_server_c.Prelude.Tests.{◌==◌}

abbrev pub Bytes : Type 0
Bytes = List ℕ

-- The code points of a text: its bytes, since every literal of the program is ASCII.
abbrev pub codes : String → Bytes
codes String.[] = []
codes (String.◌∷◌ c s) = code c ∷ codes s

-- `memcmp(a, b, n) == 0`; a string that ends before `n` bytes differs.
unfoldable pub memcmp : Bytes → Bytes → ℕ → Bool
memcmp a b zero = true
memcmp (x ∷ a) (y ∷ b) (suc n) = (x == y) && memcmp a b n
memcmp a b (suc n) = false

-- `alen == blen && memcmp(a, b, blen) == 0`
unfoldable pub bytes_eq : Bytes → Bytes → Bool
unfolding memcmp
bytes_eq a b = (length a == length b) && memcmp a b (length b)

bytes_eq_sound : (a b : Bytes) → bytes_eq a b ≡ true → a ≡ b
unfolding bytes_eq
bytes_eq_sound [] [] h = refl
bytes_eq_sound [] (y ∷ b) h = ground arith
bytes_eq_sound (x ∷ a) [] h = ground arith
bytes_eq_sound (x ∷ a) (y ∷ b) h = ground (arith, bytes_eq_sound a b)

bytes_eq_refl : (a : Bytes) → bytes_eq a a ≡ true
unfolding bytes_eq
bytes_eq_refl [] = refl
bytes_eq_refl (x ∷ a) = ground (arith, bytes_eq_refl a)

pub bytes_eq_iff : (a b : Bytes) → (bytes_eq a b ≡ true) ↔ (a ≡ b)
bytes_eq_iff a b = (bytes_eq_sound a b, λ e. rw e (bytes_eq_refl b))
