-- ===== src/Store/State/Progress.antt =====
-- A rehash makes progress with every step and ends; and the mask selects the remainder of the hash.
use Prim.Native.Nat.{bit_and}
use mathlib.Core.Option.{some-injective}
use mathlib.Core.Path.{subst}
use redis_server_c.Prelude.{
  ℕ, zero, suc, ◌+◌, ◌-◌, ◌%◌, ◌≤◌, ◌<◌, ◌≡◌, ◌⊎◌, refl, ap, sym, ◌∙◌, Option, none, some, arith,
  Bytes, ltb, leb, Bool-cases, inl, inr,
}
use redis_server_c.Prelude.Bits.{bit_and-mask}
use redis_server_c.Store.Hash.{fnv1a_hash}
use redis_server_c.Store.Hash.Pow2.{IsPow2}
use redis_server_c.Store.Table.{Table, bucket}
use redis_server_c.Store.Table.Inv.{IsTable, home}
use redis_server_c.Store.State.{Store, rehash_scan, finish_rehash, rehash_step, empty_visits_limit}
use redis_server_c.Store.State.Inv.{IsValid, IsMigrating, Phase, Phase-Shares, Phase-wide}
use redis_server_c.Store.State.Rehash.{
  rehash_step-Keeps, List-cases, rehash_scan-Scanned, skip_empty,
}

-- The scan passes at least one bucket if there is one.
rehash_scan_onward :
    (visits : ℕ) (src dst : Table) (i : ℕ)
    → IsMigrating src dst i
    → i < src.size
    → i < (rehash_scan (suc visits) src dst i).2
unfolding rehash_scan
rehash_scan_onward visits src dst i m lt = elim (Bool-cases (ltb i src.size)) [
  | inr ge ↦ absurd (ground arith)
  | inl more ↦ elim (List-cases (bucket src i)) [
    | inl e ↦
        let r = rehash_scan-Scanned visits src dst (i + 1) (skip_empty src dst i m e) in
        rw (more, e, rehash_scan) (omega (arith, r.onward))
    | inr (x, c, e) ↦ rw (more, e, rehash_scan) (omega arith)
  ]
]

-- No rehash is left, or the cursor has moved on over the same table.
abbrev Onward : ℕ → ℕ → Store → Type 0
Onward i n s =
    (s.rehash_idx ≡ none)
    ⊎ ((j : ℕ) × (s.rehash_idx ≡ some j) × (i < j) × (j < n) × (s.ht0.size ≡ n))

finish-Onward :
    (src dst : Table) (i j n : ℕ)
    → src.size ≡ n
    → (i < n → i < j)
    → i ≤ j
    → Onward i n (finish_rehash (src, dst, j))
unfolding finish_rehash
finish-Onward src dst i j n size on le = elim (Bool-cases (leb src.size j)) [
  | inl done ↦ rw done (inl refl)
  | inr more ↦ rw more (inr (j, refl, on (ground arith), ground arith, size))
]

step-Onward :
    (src dst : Table) (i : ℕ)
    → IsMigrating src dst i
    → Onward i src.size (rehash_step (record { ht0 = src; ht1 = dst; rehash_idx = some i }))
unfolding rehash_step
step-Onward src dst i m =
    let r = rehash_scan-Scanned empty_visits_limit src dst i m in
    let (src', dst', j) = rehash_scan empty_visits_limit src dst i in
    finish-Onward src' dst' i j src.size (r.size0) (rehash_scan_onward 9 src dst i m) (r.onward)

-- `n` steps, as the calls of the public operations make them.
unfoldable pub rehash_steps : ℕ → Store → Store
rehash_steps zero s = s
rehash_steps (suc n) s = rehash_steps n (rehash_step s)

idle_stays : (s : Store) → s.rehash_idx ≡ none → (rehash_step s).rehash_idx ≡ none
unfolding rehash_step
idle_stays s h = ground arith

steps_idle : (n : ℕ) (s : Store) → s.rehash_idx ≡ none → (rehash_steps n s).rehash_idx ≡ none
unfolding rehash_steps
steps_idle zero s h = h
steps_idle (suc n) s h = steps_idle n (rehash_step s) (idle_stays s h)

onward :
    (i : ℕ) (s : Store) → IsValid s → s.rehash_idx ≡ some i → Onward i s.ht0.size (rehash_step s)
onward i s v e = go s.rehash_idx v e
  where
    go :
        (o : Option ℕ)
        → Phase o s.ht0 s.ht1
        → o ≡ some i
        → Onward i s.ht0.size (rehash_step (record s { rehash_idx = o }))
    go none v e = cc
    go (some k) v e =
        subst (λ j. Onward j s.ht0.size (rehash_step (record s { rehash_idx = some k })))
          (some-injective k i e) (step-Onward s.ht0 s.ht1 k v)

-- In a valid store a rehash that stands at a bucket `i` of `ht[0]` is over after `n` calls of
-- `rehash_step`, when `n` is at least the number of the buckets from `i` on.
pub rehash_ends :
    (n i : ℕ) (s : Store)
    → IsValid s
    → s.rehash_idx ≡ some i
    → i < s.ht0.size
    → s.ht0.size ≤ i + n
    → (rehash_steps n s).rehash_idx ≡ none
unfolding rehash_steps
rehash_ends zero i s v e lt h = absurd (omega arith)
rehash_ends (suc n) i s v e lt h = elim (onward i s v e) [
  | inl idle ↦ steps_idle n (rehash_step s) idle
  | inr (j, at, further, within, same) ↦
      rehash_ends n j (rehash_step s) (rehash_step-Keeps s v).valid at (omega arith) (omega arith)
]

mask_mod : (t : Table) (k : Bytes) → IsTable t → IsPow2 t.size → home t k ≡ fnv1a_hash k % t.size
unfolding home
mask_mod t k v p =
    ap (bit_and (fnv1a_hash k)) (v.masked ∙ ap (λ n. n - 1) p.power)
    ∙ bit_and-mask p.exponent (fnv1a_hash k)
    ∙ ap (λ n. fnv1a_hash k % n) (sym p.power)

-- In a valid store the mask selects the remainder of the hash by the number of buckets of `ht[0]`.
pub home-mod : (s : Store) (k : Bytes) → IsValid s → home s.ht0 k ≡ fnv1a_hash k % s.ht0.size
home-mod s k v =
    mask_mod s.ht0 k (Phase-Shares s.rehash_idx s.ht0 s.ht1 v).source
      (Phase-wide s.rehash_idx s.ht0 s.ht1 v)
