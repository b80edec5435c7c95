-- ===== src/Persist/RoundTrip.antt =====
-- src/persist.c: `persist_load` reads back what `persist_save` writes.
use mathlib.Core.List.{append_assoc, append-nil}
use redis_server_c.Prelude.{
  ℕ, ◌+◌, ◌*◌, ◌-◌, ◌%◌, ◌^◌, ◌≤◌, ◌<◌, ◌≡◌, refl, ◌∙◌, true, List, [], ◌∷◌, ◌++◌, arith, Bytes,
  length, take, drop, length-append, drop-drop, drop_front, take-length-append, memcmp,
}
use redis_server_c.Prelude.Int.{ℤ}
use redis_server_c.Store.Chain.{Entry}
use redis_server_c.Store.State.{Store}
use redis_server_c.Persist.Status.{persist_ok}
use redis_server_c.Persist.Codec.{
  write_u64, write_u32, read_u64, read_u32, checksum, sum_bytes, length-write_le, read_le-write_le,
}
use redis_server_c.Persist.Image.{magic}
use redis_server_c.Persist.Load.{loaded, load_bytes}
use redis_server_c.Persist.Format.{encoded, encoded_all, contents, sealed}
use redis_server_c.Persist.Restore.{restored, HasTimes, length-encoded, load_entries-restored}

sum_bytes-lt : (s : Bytes) (sum : ℕ) → sum < 2 ^ 32 → sum_bytes s sum < 2 ^ 32
unfolding sum_bytes
sum_bytes-lt [] sum h = h
sum_bytes-lt (b ∷ s) sum h = sum_bytes-lt s ((sum + b) % 2 ^ 32) (omega arith)

pub checksum-lt : (s : Bytes) → checksum s < 2 ^ 32
unfolding checksum
checksum-lt s = sum_bytes-lt s 0 (omega arith)

pub length-le-encoded_all : (es : List Entry) → 24 * length es ≤ length (encoded_all es)
length-le-encoded_all [] = omega arith
length-le-encoded_all (e ∷ es) =
    omega (
      arith,
      length-append (encoded e) (encoded_all es),
      length-encoded e,
      length-le-encoded_all es,
    )

-- The last four bytes of a sealed file, and those in front of them.
pub drop-sealed : (b : Bytes) → drop (length b) (sealed b) ≡ write_u32 (checksum b)
drop-sealed b = drop_front (length b) b (write_u32 (checksum b)) refl

pub read_checksum : (b : Bytes) → read_u32 (write_u32 (checksum b)) ≡ checksum b
read_checksum b =
    let c = checksum b in
    rw (← append-nil (write_u32 c))
      (read_le-write_le (2 ^ 32) 4 c [] (checksum-lt b) (omega (arith, checksum-lt b)))

read_sealed : (b : Bytes) → read_u32 (drop (length b) (sealed b)) ≡ checksum b
read_sealed b = rw (drop-sealed b) (read_checksum b)

pub length-sealed : (b : Bytes) → length (sealed b) ≡ length b + 4
length-sealed b =
    omega (arith, length-append b (write_u32 (checksum b)), length-write_le 4 (checksum b))

pub length-contents : (es : List Entry) → length (contents es) ≡ 16 + length (encoded_all es)
length-contents es =
    omega
      (arith, length-append (write_u64 (length es)) (encoded_all es), length-write_le 8 (length es))

module _ (es : List Entry) (small : length (contents es) < 2 ^ 63) where
  from_count :
      drop 8 (sealed (contents es))
      ≡ write_u64 (length es) ++ (encoded_all es ++ write_u32 (checksum (contents es)))
  from_count =
      append_assoc (write_u64 (length es)) (encoded_all es) (write_u32 (checksum (contents es)))

  from_entries :
      drop 16 (sealed (contents es)) ≡ encoded_all es ++ write_u32 (checksum (contents es))
  from_entries =
      drop-drop 8 8 (sealed (contents es))
      ∙ rw from_count (drop_front 8 (write_u64 (length es)) _ (length-write_le 8 (length es)))

  count_read : read_u64 (drop 8 (sealed (contents es))) ≡ length es
  count_read =
      let few = length-le-encoded_all es in
      let size = length-contents es in
      rw from_count (read_le-write_le (2 ^ 64) 8 (length es) _ (omega arith) (omega arith))

  -- A file of the format is accepted, and its entries are set that have not expired.
  pub load_bytes-sealed :
      (s : Store) (now : ℤ)
      → HasTimes es
      → load_bytes s (sealed (contents es)) now ≡ loaded (restored now es s) persist_ok
  unfolding load_bytes
  load_bytes-sealed s now times =
      let b = contents es in
      let size = length-sealed b in
      let long = length-contents es in
      let limit : length (sealed b) - 4 ≡ length b = omega arith in
      let magical : memcmp (sealed b) magic 8 ≡ true = unfold memcmp in refl in
      let sum = read_sealed b in
      let summed : take (length b) (sealed b) ≡ b = take-length-append b (write_u32 (checksum b)) in
      let rest =
        load_entries-restored (sealed b) (length b) small (omega arith) now es 16
          (write_u32 (checksum b)) s times from_entries (omega arith) in
      rw (limit, magical, sum, summed, count_read, load_bytes) (ground (arith, rest))
