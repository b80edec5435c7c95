-- ===== src/Persist/Corruption.antt =====
-- src/persist.c: the magic and the checksum find every byte that has changed.
use redis_server_c.Prelude.{
  ℕ, zero, suc, ◌+◌, ◌-◌, ◌%◌, ◌^◌, ◌≤◌, ◌<◌, ◌≡◌, ◌≢◌, refl, true, false, [], ◌∷◌, ◌++◌, arith,
  Bytes, length, get_or, set, take, drop, length-append, drop_front, take-length-append, memcmp,
  ltb, if◌then◌else◌, Bool-cases, inl, inr,
}
use redis_server_c.Prelude.Int.{ℤ}
use redis_server_c.Store.State.{Store}
use redis_server_c.Persist.Status.{persist_err_format, persist_err_corrupt}
use redis_server_c.Persist.Codec.{write_u32, read_u32, checksum, sum_bytes, length-write_le}
use redis_server_c.Persist.Image.{magic}
use redis_server_c.Persist.Load.{loaded, load_bytes}
use redis_server_c.Persist.RoundTrip.{read_checksum}

abbrev total : Bytes → ℕ
total [] = 0
total (b ∷ s) = b + total s

sum_bytes-total : (s : Bytes) (sum : ℕ) → sum < 2 ^ 32 → sum_bytes s sum ≡ (sum + total s) % 2 ^ 32
unfolding sum_bytes
sum_bytes-total [] sum h = omega arith
sum_bytes-total (b ∷ s) sum h = omega (arith, sum_bytes-total s ((sum + b) % 2 ^ 32) (omega arith))

total-set : (s : Bytes) (i v : ℕ) → i < length s → total (set s i v) + get_or s i 0 ≡ total s + v
total-set [] i v h = absurd (omega arith)
total-set (b ∷ s) zero v h = omega arith
total-set (b ∷ s) (suc i) v h = omega (arith, total-set s i v (omega arith))

-- Another value of one byte makes another checksum.
pub checksum-set :
    (s : Bytes) (i v : ℕ)
    → i < length s
    → v < 256
    → get_or s i 0 < 256
    → v ≢ get_or s i 0
    → checksum (set s i v) ≢ checksum s
unfolding checksum
checksum-set s i v h new old other same =
    let before = sum_bytes-total s 0 (omega arith) in
    let after = sum_bytes-total (set s i v) 0 (omega arith) in
    let moved = total-set s i v h in other (omega arith)

memcmp_changed :
    (b m rest : Bytes) (n i v : ℕ)
    → memcmp b m n ≡ true
    → i < n
    → v ≢ get_or b i 0
    → memcmp (set b i v ++ rest) m n ≡ false
unfolding memcmp
memcmp_changed b m rest zero i v h lt other = absurd (omega arith)
memcmp_changed [] m rest (suc n) i v h lt other = cc
memcmp_changed (x ∷ b) [] rest (suc n) i v h lt other = cc
memcmp_changed (x ∷ b) (y ∷ m) rest (suc n) zero v h lt other = ground arith
memcmp_changed (x ∷ b) (y ∷ m) rest (suc n) (suc i) v h lt other =
    ground (arith, memcmp_changed b m rest n i v)

memcmp_beyond :
    (b m rest : Bytes) (n i v : ℕ)
    → memcmp b m n ≡ true
    → n ≤ i
    → memcmp (set b i v ++ rest) m n ≡ true
unfolding memcmp
memcmp_beyond b m rest zero i v h le = refl
memcmp_beyond [] m rest (suc n) i v h le = cc
memcmp_beyond (x ∷ b) [] rest (suc n) i v h le = cc
memcmp_beyond (x ∷ b) (y ∷ m) rest (suc n) zero v h le = absurd (omega arith)
memcmp_beyond (x ∷ b) (y ∷ m) rest (suc n) (suc i) v h le =
    ground (arith, memcmp_beyond b m rest n i v)

-- A file that begins with the magic and ends with its checksum, with one byte in front of the
-- checksum changed to another one, is refused, and the store is as before: the format is not
-- recognized if the byte is one of the magic, else the checksum does not match. Bytes are numbers
-- below 256.
pub load_bytes_changed :
    (s : Store) (b : Bytes) (i v : ℕ) (now : ℤ)
    → memcmp b magic 8 ≡ true
    → i < length b
    → v < 256
    → get_or b i 0 < 256
    → v ≢ get_or b i 0
    → load_bytes s (set b i v ++ write_u32 (checksum b)) now
      ≡ loaded s (if ltb i 8 then persist_err_format else persist_err_corrupt)
unfolding load_bytes
load_bytes_changed s b i v now magical h new old other =
    let c = checksum b in
    let b' = set b i v in
    let file = b' ++ write_u32 c in
    elim (Bool-cases (ltb i 8)) [
      | inl front ↦
          let wrong : memcmp file magic 8 ≡ false =
            memcmp_changed b magic (write_u32 c) 8 i v magical (ground (arith, front)) other in
          rw (front, wrong, load_bytes) refl
      | inr behind ↦
          let good : memcmp file magic 8 ≡ true =
            memcmp_beyond b magic (write_u32 c) 8 i v magical (ground (arith, behind)) in
          let limit : length file - 4 ≡ length b' =
            omega (arith, length-append b' (write_u32 c), length-write_le 4 c) in
          let sum : read_u32 (drop (length b') file) ≡ c =
            rw (drop_front (length b') b' (write_u32 c) refl) (read_checksum b) in
          let summed : take (length b') file ≡ b' = take-length-append b' (write_u32 c) in
          let differs = checksum-set b i v h new old other in
          rw (behind, good, limit, sum, summed, load_bytes) (ground (arith, differs))
    ]
