-- ===== src/Store/Chain/Laws.antt =====
-- What a chain holds under a key, and what unlinking and overwriting through a slot do to it.
use mathlib.Core.Option
use redis_server_c.Prelude.{
  ℕ, zero, suc, ◌+◌, ◌≤◌, ◌≡◌, refl, ap, true, false, [], ◌∷◌, Option, none, some, arith, Bytes,
  bytes_eq, bytes_eq_iff, length, set, if◌then◌else◌,
}
use redis_server_c.Store.Chain.{Entry, Chain, same_key, find_in_chain, unlink_at}

-- The first entry under a key.
unfoldable pub lookup : Bytes → Chain → Option Entry
lookup q [] = none
lookup q (e ∷ c) = if same_key e q then some e else lookup q c

unfoldable pub count : Bytes → Chain → ℕ
count q [] = 0
count q (e ∷ c) = (if same_key e q then 1 else 0) + count q c

pub lookup-key : (q : Bytes) (c : Chain) (e : Entry) → lookup q c ≡ some e → e.key ≡ q
unfolding lookup
lookup-key q [] e h = cc
lookup-key q (x ∷ c) e h = ground (arith, bytes_eq_iff x.key q, lookup-key q c e)

pub lookup_absent : (q : Bytes) (c : Chain) → count q c ≡ 0 → lookup q c ≡ none
unfolding lookup count
lookup_absent q [] h = refl
lookup_absent q (e ∷ c) h = ground (arith, lookup_absent q c)

pub count_absent : (q : Bytes) (c : Chain) → lookup q c ≡ none → count q c ≡ 0
unfolding lookup count
count_absent q [] h = refl
count_absent q (e ∷ c) h = ground (arith, count_absent q c)

pub count_present : (q : Bytes) (c : Chain) (e : Entry) → lookup q c ≡ some e → 1 ≤ count q c
unfolding lookup count
count_present q [] e h = cc
count_present q (x ∷ c) e h = ground (arith, count_present q c e)

-- The scan of a chain finds the entry that `lookup` finds.
pub lookup-find_in_chain :
    (k : Bytes) (c : Chain) → lookup k c ≡ Option.map (λ (p : ℕ × Entry). p.1) (find_in_chain k c)
unfolding lookup find_in_chain
lookup-find_in_chain k [] = refl
lookup-find_in_chain k (e ∷ c) = ground (arith, lookup-find_in_chain k c)

pub not_found : (k : Bytes) (p : ℕ × Entry) → ¬ (find_in_chain k [] ≡ some p)
unfolding find_in_chain
not_found k p h = cc

found_here :
    (k : Bytes) (x : Entry) (c : Chain) (e : Entry)
    → find_in_chain k (x ∷ c) ≡ some (0, e)
    → (same_key x k ≡ true) × (x ≡ e)
unfolding find_in_chain
found_here k x c e h = ground arith

found_later :
    (k : Bytes) (x : Entry) (c : Chain) (i : ℕ) (e : Entry)
    → find_in_chain k (x ∷ c) ≡ some (suc i, e)
    → (same_key x k ≡ false) × (find_in_chain k c ≡ some (i, e))
unfolding find_in_chain
found_later k x c i e h = ground arith

module _ (k q : Bytes) where
  pub count-unlink_at :
      (c : Chain) (i : ℕ) (e : Entry)
      → find_in_chain k c ≡ some (i, e)
      → (if bytes_eq k q then 1 else 0) + count q (unlink_at i c) ≡ count q c
  unfolding count unlink_at
  count-unlink_at [] i e h = absurd (not_found k (i, e) h)
  count-unlink_at (x ∷ c) zero e h =
      let same = found_here k x c e h in
      ground (arith, bytes_eq_iff x.key k, bytes_eq_iff x.key q, bytes_eq_iff k q)
  count-unlink_at (x ∷ c) (suc i) e h =
      let later = found_later k x c i e h in ground (arith, count-unlink_at c i e later.1)

  pub lookup-unlink_at :
      (c : Chain) (i : ℕ) (e : Entry)
      → find_in_chain k c ≡ some (i, e)
      → count k c ≤ 1
      → lookup q (unlink_at i c) ≡ (if bytes_eq k q then none else lookup q c)
  unfolding count lookup unlink_at
  lookup-unlink_at [] i e h few = absurd (not_found k (i, e) h)
  lookup-unlink_at (x ∷ c) zero e h few =
      let same = found_here k x c e h in
      ground
        (arith, bytes_eq_iff x.key k, bytes_eq_iff x.key q, bytes_eq_iff k q, lookup_absent k c)
  lookup-unlink_at (x ∷ c) (suc i) e h few =
      let later = found_later k x c i e h in
      ground (
        arith,
        lookup-unlink_at c i e later.1,
        bytes_eq_iff x.key k,
        bytes_eq_iff x.key q,
        bytes_eq_iff k q,
      )

  -- Overwriting the entry in place, under the same key.
  pub lookup-set :
      (c : Chain) (i : ℕ) (e e' : Entry)
      → find_in_chain k c ≡ some (i, e)
      → e'.key ≡ k
      → lookup q (set c i e') ≡ (if bytes_eq k q then some e' else lookup q c)
  unfolding lookup
  lookup-set [] i e e' h same = absurd (not_found k (i, e) h)
  lookup-set (x ∷ c) zero e e' h same =
      let here = found_here k x c e h in
      ground
        (arith, bytes_eq_iff x.key k, bytes_eq_iff x.key q, bytes_eq_iff e'.key q, bytes_eq_iff k q)
  lookup-set (x ∷ c) (suc i) e e' h same =
      let later = found_later k x c i e h in
      ground (
        arith,
        lookup-set c i e e' later.1 same,
        bytes_eq_iff x.key k,
        bytes_eq_iff x.key q,
        bytes_eq_iff k q,
      )

  pub count-set :
      (c : Chain) (i : ℕ) (e e' : Entry)
      → find_in_chain k c ≡ some (i, e)
      → e'.key ≡ k
      → count q (set c i e') ≡ count q c
  unfolding count
  count-set [] i e e' h same = refl
  count-set (x ∷ c) zero e e' h same =
      let here = found_here k x c e h in
      ground (arith, bytes_eq_iff x.key k, bytes_eq_iff x.key q, bytes_eq_iff e'.key q)
  count-set (x ∷ c) (suc i) e e' h same =
      let later = found_later k x c i e h in ground (arith, count-set c i e e' later.1 same)

pub length-unlink_at :
    (k : Bytes) (c : Chain) (i : ℕ) (e : Entry)
    → find_in_chain k c ≡ some (i, e)
    → suc (length (unlink_at i c)) ≡ length c
unfolding unlink_at
length-unlink_at k [] i e h = absurd (not_found k (i, e) h)
length-unlink_at k (x ∷ c) zero e h = refl
length-unlink_at k (x ∷ c) (suc i) e h =
    ap suc (length-unlink_at k c i e (found_later k x c i e h).1)
