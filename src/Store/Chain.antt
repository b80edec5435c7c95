-- ===== src/Store/Chain.antt =====
-- src/store.c: `store_entry_t`, and what the code does to one chain through a slot pointer.
pub mod Laws
use redis_server_c.Prelude.{
  ℕ, zero, suc, ◌+◌, Bool, List, [], ◌∷◌, Option, none, some, Bytes, bytes_eq, if◌then◌else◌,
}
use redis_server_c.Prelude.Int.{ℤ}
use mathlib.Core.Option

-- A key and a value carry their lengths, as lists do. `expire_at_ms` is 0 for "no expiry".
pub record Entry : Type 0 where
  pub key : Bytes
  pub val : Bytes
  pub expire_at_ms : ℤ

-- The list that the `next` pointers make.
abbrev pub Chain : Type 0
Chain = List Entry

-- `(*slot)->key_len == keylen && memcmp((*slot)->key, key, keylen) == 0`
abbrev pub same_key : Entry → Bytes → Bool
same_key e key = bytes_eq e.key key

abbrev pub one_further : ℕ × Entry → ℕ × Entry
one_further (i, e) = (suc i, e)

-- The loop of `find_in_table`: a slot is its place in the chain, with the entry that it points to.
unfoldable pub find_in_chain : Bytes → Chain → Option (ℕ × Entry)
find_in_chain key [] = none
find_in_chain key (e ∷ c) =
    if same_key e key then some (0, e) else Option.map one_further (find_in_chain key c)

-- `*slot = (*slot)->next`
unfoldable pub unlink_at : ℕ → Chain → Chain
unlink_at i [] = []
unlink_at zero (e ∷ c) = c
unlink_at (suc i) (e ∷ c) = e ∷ unlink_at i c
