-- ===== src/Store/Ops/Foreach.antt =====
-- `store_foreach` visits every live entry once, also in the middle of a rehash.
use mathlib.Core.List.{flatten}
use redis_server_c.Prelude.{
  ℕ, zero, suc, ◌+◌, ◌≤◌, ◌≡◌, ◌≢◌, refl, ◌∙◌, List, [], ◌∷◌, ◌++◌, Option, none, arith, Bytes,
  get_or, Bool-cases, inl, inr,
}
use redis_server_c.Prelude.Int.{ℤ}
use redis_server_c.Store.Chain.{Entry, Chain}
use redis_server_c.Store.Chain.Laws.{lookup, count, lookup_absent}
use redis_server_c.Store.Table.{Table}
use redis_server_c.Store.Table.Inv.{IsTable, home, find, copies}
use redis_server_c.Store.State.{Store, is_expired}
use redis_server_c.Store.State.Inv.{or_else, IsValid, Phase-Shares, view, view2}
use redis_server_c.Store.Ops.{entries, foreach_from, store_foreach}
use redis_server_c.Store.Spec.{live}

module _ (q : Bytes) where
  -- What some entries have under the key: the first of them, and how many there are.
  record Has (c : Chain) (o : Option Entry) (n : ℕ) : Type 0 where
    first : lookup q c ≡ o
    number : count q c ≡ n

  append-Has :
      (a b : Chain) {o p : Option Entry} {n m : ℕ}
      → Has a o n
      → Has b p m
      → Has (a ++ b) (or_else o p) (n + m)
  unfolding lookup count
  append-Has [] b has also = record {
    first = ground (arith, has.first, also.first);
    number = omega (arith, has.number, also.number);
  }
  append-Has (e ∷ a) b has also =
      let rest = append-Has a b (record { first = refl; number = refl }) also in
      record {
        first = ground (arith, rest.first, has.first);
        number = omega (arith, rest.number, has.number);
      }

  nothing-Has : (c : Chain) → count q c ≡ 0 → Has c none 0
  nothing-Has c h = record { first = lookup_absent q c h; number = h }

  -- No bucket has the key.
  no_row-Has :
      (rows : List Chain) → ((i : ℕ) → count q (get_or rows i []) ≡ 0) → Has (flatten rows) none 0
  unfolding flatten lookup count
  no_row-Has [] h = record { first = refl; number = refl }
  no_row-Has (row ∷ rows) h =
      append-Has row (flatten rows) (nothing-Has row (h 0)) (no_row-Has rows (λ i. h (suc i)))

  -- A key that only bucket `j` may hold is in all the buckets together what it is there.
  one_row-Has :
      (rows : List Chain) (j : ℕ)
      → ((i : ℕ) → j ≢ i → count q (get_or rows i []) ≡ 0)
      → Has (flatten rows) (lookup q (get_or rows j [])) (count q (get_or rows j []))
  unfolding flatten lookup count
  one_row-Has [] j h = record { first = refl; number = refl }
  one_row-Has (row ∷ rows) zero h =
      let behind = no_row-Has rows (λ i. h (suc i) (omega arith)) in
      let whole = append-Has row (flatten rows) (record { first = refl; number = refl }) behind in
      record { first = ground (arith, whole.first); number = omega (arith, whole.number) }
  one_row-Has (row ∷ rows) (suc j) h =
      let behind = one_row-Has rows j (λ i n. h (suc i) (omega arith)) in
      let whole = append-Has row (flatten rows) (nothing-Has row (h 0 (omega arith))) behind in
      record { first = whole.first; number = omega (arith, whole.number) }

  table-Has : (t : Table) → IsTable t → Has (flatten t.buckets) (find t q) (copies t q)
  unfolding find copies
  table-Has t v = one_row-Has t.buckets (home t q) (v.placed q)

module _ (s : Store) (v : IsValid s) (q : Bytes) where
  -- The two walks together meet the entry of each key once.
  pub entries-view : (lookup q (entries s) ≡ view s q) × (count q (entries s) ≤ 1)
  unfolding entries view view2
  entries-view =
      let shares = Phase-Shares s.rehash_idx s.ht0 s.ht1 v in
      let has =
        append-Has q (flatten s.ht0.buckets) (flatten s.ht1.buckets)
          (table-Has q s.ht0 shares.source) (table-Has q s.ht1 shares.target) in
      (has.first, omega (arith, has.number, shares.once q))

-- The list that a callback builds by putting each entry that it is given in front.
abbrev pub collect : Entry → Chain → Chain
collect e es = e ∷ es

collected :
    (es acc : Chain) (now : ℤ) (q : Bytes)
    → count q es + count q acc ≤ 1
    → (lookup q (foreach_from es now collect acc) ≡ or_else (lookup q acc) (live now (lookup q es)))
      × (count q (foreach_from es now collect acc) ≤ count q es + count q acc)
unfolding foreach_from lookup count live
collected [] acc now q h = ground arith
collected (e ∷ es) acc now q h = elim (Bool-cases (is_expired e now)) [
  | inl old ↦
      let rest = collected es acc now q (omega arith) in
      rw old (ground (arith, old, rest, lookup_absent q es))
  | inr fresh ↦
      let rest = collected es (e ∷ acc) now q (omega arith) in
      rw fresh (ground (arith, fresh, rest, lookup_absent q es, lookup_absent q acc))
]

-- In a valid store the callback is given every live entry, once, and no expired one, at any time.
pub store_foreach-live :
    (s : Store) (now : ℤ)
    → IsValid s
    → (q : Bytes)
    → (lookup q (store_foreach s now collect []) ≡ live now (view s q))
      × (count q (store_foreach s now collect []) ≤ 1)
unfolding store_foreach
store_foreach-live s now v q =
    let (found, once) = entries-view s v q in
    let nothing : count q [] ≡ 0 = unfold count in refl in
    let (there, few) = collected (entries s) [] now q (omega arith) in
    (rw found at there ∙ unfold lookup in refl, omega arith)
