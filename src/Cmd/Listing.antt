-- ===== src/Cmd/Listing.antt =====
-- src/cmd.c: KEYS replies with every live key once.
use mathlib.Core.List.{append_assoc, append-nil}
use redis_server_c.Prelude.{
  ℕ, ◌+◌, ◌≤◌, ◌≡◌, refl, sym, ap, ◌∙◌, List, [], ◌∷◌, ◌++◌, Option, some, arith, Bytes, length,
  bytes_eq, Bool-cases, inl, inr, if◌then◌else◌,
}
use redis_server_c.Prelude.Int.{ℤ}
use redis_server_c.Store.Number.{print_ℕ}
use redis_server_c.Store.Chain.{Entry, same_key}
use redis_server_c.Store.Chain.Laws.{lookup, count}
use redis_server_c.Store.State.{is_expired}
use redis_server_c.Store.State.Access.{held}
use redis_server_c.Store.Ops.{entries, foreach_from, store_foreach}
use redis_server_c.Store.Ops.Foreach.{entries-view}
use redis_server_c.Store.Spec
use redis_server_c.Store.Spec.{live}
use redis_server_c.Persist.Format.{fresh}
use redis_server_c.Resp.Reply.{
  RespBuf, resp_buf_init, crlf, resp_reply_array_header, resp_reply_bulk_string,
}
use redis_server_c.Resp.RoundTrip.{bulk}
use redis_server_c.Resp.Buffer.{resp_buf_append-data_, resp_reply_bulk_string-data_}
use redis_server_c.Cmd.State.{Env, Server}
use redis_server_c.Cmd.Many.{keys_collect_cb, append_scratch}
use redis_server_c.Cmd.Reply.{items}
use redis_server_c.Cmd.Replies.{append_scratch-data_}
use redis_server_c.Cmd.Promise.{Abstract, many}
use redis_server_c.Cmd.Fulfils.{Represents, Fulfils}

-- How often a key stands in a list.
abbrev pub occurs : Bytes → List Bytes → ℕ
occurs q [] = 0
occurs q (k ∷ ks) = (if bytes_eq k q then 1 else 0) + occurs q ks

-- A key that is there for a reader stands in the list once, and any other does not.
abbrev pub LiveKeys : Abstract → ℤ → List Bytes → Type 0
LiveKeys a now ks = (q : Bytes) → occurs q ks ≡ held (Spec.at a.dict q now)

abbrev pub values : List Bytes → List (Option Bytes)
values [] = []
values (k ∷ ks) = some k ∷ values ks

abbrev keys : List Entry → List Bytes
keys [] = []
keys (e ∷ es) = e.key ∷ keys es

length-values : (es : List Entry) → length (values (keys es)) ≡ length es
length-values [] = refl
length-values (e ∷ es) = omega (arith, length-values es)

-- The entries that the walk gives to the callback.
scratch-keys :
    (es : List Entry) (now : ℤ) (scratch : RespBuf) (n : ℕ)
    → let (scratch', n') = foreach_from es now keys_collect_cb (scratch, n) in
      (scratch'.data_ ≡ scratch.data_ ++ items (values (keys (fresh now es))))
      × (n' ≡ n + length (values (keys (fresh now es))))
unfolding foreach_from fresh keys_collect_cb
scratch-keys [] now scratch n = (sym (append-nil scratch.data_), omega arith)
scratch-keys (e ∷ es) now scratch n = elim (Bool-cases (is_expired e now)) [
  | inl old ↦ rw (old, foreach_from, fresh) (scratch-keys es now scratch n)
  | inr here ↦
      let (bytes, number) = scratch-keys es now (resp_reply_bulk_string scratch e.key) (n + 1) in
      rw (here, foreach_from, fresh)
        (
          bytes
              ∙ ap (λ t. t ++ items (values (keys (fresh now es))))
                  (resp_reply_bulk_string-data_ scratch e.key)
              ∙ append_assoc scratch.data_ (bulk e.key) (items (values (keys (fresh now es)))),
          number ∙ omega arith,
        )
]

occurs-count : (q : Bytes) (es : List Entry) → occurs q (keys es) ≡ count q es
unfolding count
occurs-count q [] = refl
occurs-count q (e ∷ es) = ap (λ n. (if same_key e q then 1 else 0) + n) (occurs-count q es)

-- Of entries whose keys differ those that have not expired are the live ones.
count-fresh_absent :
    (q : Bytes) (now : ℤ) (es : List Entry) → count q es ≡ 0 → count q (fresh now es) ≡ 0
unfolding count fresh
count-fresh_absent q now [] h = refl
count-fresh_absent q now (e ∷ es) h = ground (arith, count-fresh_absent q now es)

count-fresh :
    (q : Bytes) (now : ℤ) (es : List Entry)
    → count q es ≤ 1
    → count q (fresh now es) ≡ held (live now (lookup q es))
unfolding count fresh lookup live
count-fresh q now [] h = refl
count-fresh q now (e ∷ es) h = elim (Bool-cases (same_key e q)) [
  | inl same ↦
      let none_left : count q es ≡ 0 = ground (arith, same, h) in
      let none_fresh = count-fresh_absent q now es none_left in
      elim (Bool-cases (is_expired e now)) [
        | inl old ↦ rw (same, old) none_fresh
        | inr stays ↦ rw (same, stays) (rw same (omega (arith, none_fresh)))
      ]
  | inr other ↦
      let rest = count-fresh q now es (ground (arith, other, h)) in
      elim (Bool-cases (is_expired e now)) [
        | inl old ↦ rw (other, old) rest
        | inr stays ↦ rw (other, stays) (rw other (omega (arith, rest)))
      ]
]

-- A reply with every live key once.
pub record ListsKeys (f : RespBuf → Server × RespBuf) (a : Abstract) (now : ℤ) : Type 0 where
  pub listed : List Bytes
  pub live_keys : LiveKeys a now listed
  pub fulfils : Fulfils f (a, many (values listed))

module _ (env : Env) (g : Server) (a : Abstract) (v : Represents a g) where
  pub keys-ListsKeys :
      let now = env.now_ms 0 in
      ListsKeys
        (λ out.
          let (scratch, n) = store_foreach g.store now keys_collect_cb (resp_buf_init, 0) in
          (g, append_scratch (resp_reply_array_header out n) scratch))
        a
        now
  unfolding store_foreach resp_reply_array_header resp_buf_init
  keys-ListsKeys =
      let now = env.now_ms 0 in
      let es = entries g.store in
      let ks = keys (fresh now es) in
      let (bytes, number) = scratch-keys es now resp_buf_init 0 in
      let walk = foreach_from es now keys_collect_cb (resp_buf_init, 0) in
      let header = λ (n : ℕ). b'*' ∷ (print_ℕ n ++ crlf) in
      let many_ = length (values ks) in
      record {
        listed = ks;
        live_keys = λ q.
            let (found, once) = entries-view g.store v.models.valid q in
            occurs-count q (fresh now es)
            ∙ count-fresh q now es once
            ∙ ap (λ o. held (live now o)) (found ∙ v.models.views q);
        fulfils = record {
          represents = λ out. v;
          replied = λ out.
              append_scratch-data_ (resp_reply_array_header out walk.1) walk.0
              ∙ ap (λ t. t ++ walk.0.data_) (resp_buf_append-data_ out (header walk.1))
              ∙ append_assoc out.data_ (header walk.1) walk.0.data_
              ∙ ap (λ t. out.data_ ++ (header walk.1 ++ t)) bytes
              ∙ ap (λ n. out.data_ ++ (header n ++ items (values ks))) (number ∙ omega arith);
        };
      }
