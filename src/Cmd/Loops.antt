-- ===== src/Cmd/Loops.antt =====
-- src/cmd.c: the loops of the commands on several keys.
use mathlib.Core.List.{append_assoc, append-nil}
use redis_server_c.Prelude.{
  ℕ, suc, ◌+◌, ◌^◌, ◌≤◌, ◌≡◌, refl, sym, ap, ap₂, ◌∙◌, List, [], ◌∷◌, ◌++◌, arith, Bytes, length,
}
use redis_server_c.Prelude.Int.{ℤ, pos}
use redis_server_c.Store.State.{Store}
use redis_server_c.Store.Ops.{store_set, store_get, store_exists, store_del}
use redis_server_c.Store.Spec
use redis_server_c.Store.Spec.{Dict}
use redis_server_c.Store.Session.{card-put}
use redis_server_c.Store.Ops.Model.{Models, Refines}
use redis_server_c.Store.Ops.Reads.{store_get-Refines, store_exists-Refines}
use redis_server_c.Store.Ops.Writes.{store_set-Refines, store_del-Refines}
use redis_server_c.Resp.Reply.{RespBuf}
use redis_server_c.Cmd.State.{Env}
use redis_server_c.Cmd.Keyspace.{reply_value, del_all, exists_all}
use redis_server_c.Cmd.Many.{get_all, set_all}
use redis_server_c.Cmd.Reply.{item, items}
use redis_server_c.Cmd.Replies.{reply_value-data_}
use redis_server_c.Cmd.Promise.{get_each, set_each, del_each, exists_each}

-- The loops over several keys.
pub del_all-Refines :
    (ks : List Bytes) (d : Dict) (s : Store) (n n' : ℕ)
    → Models d s
    → n ≡ n'
    → Refines (del_all s ks n) (del_each d ks n')
unfolding del_all del_each
del_all-Refines [] d s n n' m e = (m, e)
del_all-Refines (k ∷ ks) d s n n' m e =
    let (m', same) = store_del-Refines d s m k in
    del_all-Refines ks (Spec.del d k).0 (store_del s k).0 _ _ m' (ap₂ ◌+◌ e same)

pub exists_all-Refines :
    (env : Env) (i : ℕ) (ks : List Bytes) (d : Dict) (s : Store) (n n' : ℕ)
    → Models d s
    → n ≡ n'
    → Refines (exists_all env i s ks n) (exists_each env i d ks n')
unfolding exists_all exists_each
exists_all-Refines env i [] d s n n' m e = (m, e)
exists_all-Refines env i (k ∷ ks) d s n n' m e =
    let (m', same) = store_exists-Refines d s m k (env.now_ms i) in
    exists_all-Refines env (suc i) ks (Spec.exists d k (env.now_ms i)).0
      (store_exists s k (env.now_ms i)).0 _ _ m' (ap₂ ◌+◌ e same)

card-set : (d : Dict) (k v : Bytes) (x : ℤ) → (Spec.set d k v x).0.card ≤ d.card + 1
unfolding Spec.set
card-set d k v x = card-put d k _

pub set_all-Models :
    (ks : List Bytes) (d : Dict) (s : Store)
    → Models d s
    → d.card + length ks ≤ 2 ^ 62
    → Models (set_each d ks) (set_all s ks)
unfolding set_all set_each
set_all-Models [] d s m room = m
set_all-Models (k ∷ []) d s m room = m
set_all-Models (k ∷ v ∷ rest) d s m room =
    let (m', same) = store_set-Refines d s m k v (pos 0) (omega arith) in
    set_all-Models rest (Spec.set d k v (pos 0)).0 (store_set s k v (pos 0)).0 m'
      (omega (arith, card-set d k v (pos 0)))

-- The loop of MGET leaves the promised map, and appends the promised values.
pub get_all-Keeps :
    (env : Env) (i : ℕ) (ks : List Bytes) (d : Dict) (s : Store) (out : RespBuf)
    → Models d s
    → Models (get_each env i d ks).0 (get_all env i s ks out).0
      × ((get_all env i s ks out).1.data_ ≡ out.data_ ++ items (get_each env i d ks).1)
      × (length (get_each env i d ks).1 ≡ length ks)
unfolding get_all get_each
get_all-Keeps env i [] d s out m = (m, sym (append-nil out.data_), refl)
get_all-Keeps env i (k ∷ ks) d s out m =
    let (m', same) = store_get-Refines d s m k (env.now_ms i) in
    let v = (store_get s k (env.now_ms i)).1 in
    let d' = (Spec.get d k (env.now_ms i)).0 in
    let vs = (get_each env (suc i) d' ks).1 in
    let (there, appended, long) =
      get_all-Keeps env (suc i) ks d' (store_get s k (env.now_ms i)).0 (reply_value out v) m' in
    (
      there,
      appended
          ∙ ap (λ t. t ++ items vs) (reply_value-data_ out v)
          ∙ append_assoc out.data_ (item v) (items vs)
          ∙ ap (λ u. out.data_ ++ (item u ++ items vs)) same,
      ap suc long,
    )
