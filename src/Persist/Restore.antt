-- ===== src/Persist/Restore.antt =====
-- What the loop of `persist_load` in src/persist.c does with the entries that `persist_save` wrote.
use mathlib.Core.List.{append_assoc}
use redis_server_c.Prelude.{
  ℕ, ◌+◌, ◌%◌, ◌^◌, ◌≤◌, ◌<◌, ◌≡◌, refl, ap₂, ◌∙◌, true, false, List, [], ◌∷◌, ◌++◌, some, arith,
  Bytes, length, take, drop, length-append, drop-drop, drop_front, take-length-append, Bool-cases,
  inl, inr,
}
use redis_server_c.Prelude.Int.{ℤ, InInt64}
use redis_server_c.Store.Chain.{Entry}
use redis_server_c.Store.State.{Store, is_expired}
use redis_server_c.Store.Ops.{store_set}
use redis_server_c.Persist.Status.{persist_ok}
use redis_server_c.Persist.Codec.{
  write_u64, read_u64, to_u64, length-write_le, read_le-write_le, from-to_u64,
}
use redis_server_c.Persist.Load.{
  word_at, past, RawEntry, entry_at, loaded, in_bounds, set_raw, load_entries,
}
use redis_server_c.Persist.Format.{encoded, encoded_all}

-- The entries are set one after the other, without those that have expired in the meantime.
unfoldable pub restored : ℤ → List Entry → Store → Store
restored now [] s = s
restored now (e ∷ es) s = elim (is_expired e now) [
  | true ↦ restored now es s
  | false ↦ restored now es (store_set s e.key e.val e.expire_at_ms).0
]

-- Every expiry is an `int64_t`.
pub data HasTimes : List Entry → Type 0 where
  no_entries : HasTimes []
  entry : {e : Entry} {es : List Entry} → InInt64 e.expire_at_ms → HasTimes es → HasTimes (e ∷ es)

-- Where the fields of an entry stand that is encoded at `p`.
abbrev pub raw : ℕ → Entry → RawEntry
raw p e = record {
  key_at = p + 8;
  keylen = length e.key;
  val_at = p + 8 + length e.key + 8;
  vallen = length e.val;
  expire_at_ms = e.expire_at_ms;
  next = p + 8 + length e.key + 8 + length e.val + 8;
}

to_u64-lt : (v : ℤ) → InInt64 v → to_u64 v < 2 ^ 64
to_u64-lt v h = ground arith

pub length-encoded : (e : Entry) → length (encoded e) ≡ 8 + length e.key + 8 + length e.val + 8
length-encoded e =
    let k = write_u64 (length e.key) in
    let v = write_u64 (length e.val) in
    let x = write_u64 (to_u64 e.expire_at_ms) in
    omega (
      arith,
      length-append k (e.key ++ (v ++ (e.val ++ x))),
      length-append e.key (v ++ (e.val ++ x)),
      length-append v (e.val ++ x),
      length-append e.val x,
      length-write_le 8 (length e.key),
      length-write_le 8 (length e.val),
      length-write_le 8 (to_u64 e.expire_at_ms),
    )

module _ (bytes : Bytes) (limit : ℕ) (small : limit < 2 ^ 63) (within : limit ≤ length bytes) where
  word_at_reads :
      (p v : ℕ) (rest : Bytes)
      → drop p bytes ≡ write_u64 v ++ rest
      → v < 2 ^ 64
      → p + 8 ≤ limit
      → word_at bytes limit p ≡ some (v, p + 8)
  unfolding word_at
  word_at_reads p v rest h fits le =
      let whole : (p + 8) % 2 ^ 64 ≡ p + 8 = omega arith in
      let value : read_u64 (drop p bytes) ≡ v =
        rw h (read_le-write_le (2 ^ 64) 8 v rest fits (omega arith)) in
      rw (whole, value) (ground arith)

  -- What stands behind the word, and behind `n` bytes.
  behind_word :
      (p v : ℕ) (rest : Bytes) → drop p bytes ≡ write_u64 v ++ rest → drop (p + 8) bytes ≡ rest
  behind_word p v rest h =
      drop-drop p 8 bytes ∙ rw h (drop_front 8 (write_u64 v) rest (length-write_le 8 v))

  behind_bytes :
      (p : ℕ) (s rest : Bytes) → drop p bytes ≡ s ++ rest → drop (p + length s) bytes ≡ rest
  behind_bytes p s rest h = drop-drop p (length s) bytes ∙ rw h (drop_front (length s) s rest refl)

  past_passes : (p n : ℕ) → p + n ≤ limit → past limit p n ≡ some (p + n)
  unfolding past
  past_passes p n le = let whole : (p + n) % 2 ^ 64 ≡ p + n = omega arith in rw whole (ground arith)

  module _ (p : ℕ) (e : Entry) (rest : Bytes) (h : drop p bytes ≡ encoded e ++ rest)
      (le : p + length (encoded e) ≤ limit) where
    abbrev at_val : Bytes
    at_val = write_u64 (length e.val) ++ (e.val ++ (write_u64 (to_u64 e.expire_at_ms) ++ rest))

    from_key : drop (p + 8) bytes ≡ e.key ++ at_val
    from_key = behind_word p (length e.key) (e.key ++ at_val) (h ∙ simp append_assoc)

    from_vallen : drop (p + 8 + length e.key) bytes ≡ at_val
    from_vallen = behind_bytes (p + 8) e.key at_val from_key

    from_val :
        drop (p + 8 + length e.key + 8) bytes ≡ e.val ++ (write_u64 (to_u64 e.expire_at_ms) ++ rest)
    from_val = behind_word (p + 8 + length e.key) (length e.val) _ from_vallen

    from_expiry :
        drop (p + 8 + length e.key + 8 + length e.val) bytes
        ≡ write_u64 (to_u64 e.expire_at_ms) ++ rest
    from_expiry = behind_bytes (p + 8 + length e.key + 8) e.val _ from_val

    from_next : drop (raw p e).next bytes ≡ rest
    from_next =
        behind_word (p + 8 + length e.key + 8 + length e.val) (to_u64 e.expire_at_ms) rest
          from_expiry

    next_end : (raw p e).next ≡ p + length (encoded e)
    next_end = omega (arith, length-encoded e)

    entry_at_reads : InInt64 e.expire_at_ms → entry_at bytes limit p ≡ some (raw p e)
    unfolding entry_at
    entry_at_reads time =
        let n = next_end in
        let first =
          word_at_reads p (length e.key) (e.key ++ at_val) (h ∙ simp append_assoc) (omega arith)
            (omega arith) in
        let key = past_passes (p + 8) (length e.key) (omega arith) in
        let second =
          word_at_reads (p + 8 + length e.key) (length e.val) _ (from_vallen) (omega arith)
            (omega arith) in
        let val = past_passes (p + 8 + length e.key + 8) (length e.val) (omega arith) in
        let third =
          word_at_reads (p + 8 + length e.key + 8 + length e.val) (to_u64 e.expire_at_ms) rest
            from_expiry (to_u64-lt e.expire_at_ms time) (omega arith) in
        rw (first, entry_at)
          (rw key (rw second (rw val (rw (third, from-to_u64 e.expire_at_ms time) refl))))

    in_bounds_holds : in_bounds bytes (raw p e) ≡ true
    unfolding in_bounds
    in_bounds_holds = let n = next_end in ground arith

    set_raw_sets :
        (s : Store) → set_raw bytes s (raw p e) ≡ (store_set s e.key e.val e.expire_at_ms).0
    unfolding set_raw
    set_raw_sets s =
        let expiry : Bytes = write_u64 (to_u64 e.expire_at_ms) in
        let key : take (length e.key) (drop (p + 8) bytes) ≡ e.key =
          rw from_key (take-length-append e.key at_val) in
        let val : take (length e.val) (drop (p + 8 + length e.key + 8) bytes) ≡ e.val =
          rw from_val (take-length-append e.val (expiry ++ rest)) in
        ap₂ (λ k v. (store_set s k v e.expire_at_ms).0) key val

  -- The loop sets the entries that have not expired, and ends with PERSIST_OK.
  pub load_entries-restored :
      (now : ℤ) (es : List Entry) (p : ℕ) (rest : Bytes) (s : Store)
      → HasTimes es
      → drop p bytes ≡ encoded_all es ++ rest
      → p + length (encoded_all es) ≤ limit
      → load_entries bytes limit now (length es) p s ≡ loaded (restored now es s) persist_ok
  unfolding load_entries restored
  load_entries-restored now [] p rest s times h le = refl
  load_entries-restored now (e ∷ es) p rest s (entry time times) h le =
      let size = length-append (encoded e) (encoded_all es) in
      let here : drop p bytes ≡ encoded e ++ (encoded_all es ++ rest) =
        h ∙ append_assoc (encoded e) (encoded_all es) rest in
      let fits : p + length (encoded e) ≤ limit = omega arith in
      let read = entry_at_reads p e (encoded_all es ++ rest) here fits time in
      let inside = in_bounds_holds p e (encoded_all es ++ rest) here fits in
      let next = from_next p e (encoded_all es ++ rest) here fits in
      let end = next_end p e (encoded_all es ++ rest) here fits in
      elim (Bool-cases (is_expired e now)) [
        | inl old ↦
            rw (read, load_entries)
              (rw (old, restored)
                (load_entries-restored now es (raw p e).next rest s times next
                  (omega (arith, end))))
        | inr new ↦
            rw (read, load_entries)
              (rw (new, inside, restored)
                (rw (set_raw_sets p e (encoded_all es ++ rest) here fits s) (
                  load_entries-restored now es (raw p e).next rest
                    (store_set s e.key e.val e.expire_at_ms).0 times next (omega (arith, end)))))
      ]
