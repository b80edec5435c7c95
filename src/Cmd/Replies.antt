-- ===== src/Cmd/Replies.antt =====
-- MGET and KEYS of src/cmd.c reply with one array, and `cmd_dispatch` with one reply.
use mathlib.Core.List.{append_assoc, append-nil}
use redis_server_c.Prelude.{
  ℕ, suc, ◌+◌, ◌≡◌, refl, sym, ap, ◌∙◌, not, List, [], ◌∷◌, ◌++◌, Option, none, some, arith, Bytes,
  codes, length, length-append, drop, ltb, ◌==◌, if◌then◌else◌, bytes_eq, Bool-cases, inl, inr,
}
use redis_server_c.Prelude.Int.{ℤ}
use redis_server_c.Store.Number.{print_ℕ}
use redis_server_c.Store.Chain.{Entry}
use redis_server_c.Store.State.{Store, is_expired}
use redis_server_c.Store.Ops.{store_get, entries, foreach_from, store_foreach}
use redis_server_c.Resp.Reply.{
  RespBuf, resp_buf_init, resp_buf_append, crlf, resp_reply_array_header, resp_reply_bulk_string,
  resp_reply_null_bulk,
}
use redis_server_c.Resp.RoundTrip.{bulk}
use redis_server_c.Resp.Buffer.{resp_buf_append-data_, resp_reply_bulk_string-data_}
use redis_server_c.Cmd.Args.{arg}
use redis_server_c.Cmd.State.{Env, Server}
use redis_server_c.Cmd.Keyspace.{reply_value}
use redis_server_c.Cmd.Many.{get_all, cmd_mget, keys_collect_cb, append_scratch, cmd_keys}
use redis_server_c.Cmd.Reply.{no_breaks, item, items, array, Replied, resp_reply_error-Replied}
use redis_server_c.Cmd.Answers.{Answers, answered, both, guarded}

-- Items behind what the buffer had, `n` of them.
record Listed (before : Bytes) (n : ℕ) (out : RespBuf) : Type 0 where
  values : List (Option Bytes)
  number : length values ≡ n
  appended : out.data_ ≡ before ++ items values

pub reply_value-data_ :
    (out : RespBuf) (v : Option Bytes) → (reply_value out v).data_ ≡ out.data_ ++ item v
unfolding reply_value resp_reply_null_bulk
reply_value-data_ out none = resp_buf_append-data_ out (codes "$-1" ++ crlf)
reply_value-data_ out (some v) = resp_reply_bulk_string-data_ out v

get_all-Listed :
    (env : Env) (i : ℕ) (s : Store) (ks : List Bytes) (out : RespBuf)
    → Listed out.data_ (length ks) (get_all env i s ks out).1
unfolding get_all
get_all-Listed env i s [] out = record {
  values = [];
  number = refl;
  appended = sym (append-nil out.data_);
}
get_all-Listed env i s (k ∷ ks) out =
    let (s', v) = store_get s k (env.now_ms i) in
    let rest = get_all-Listed env (suc i) s' ks (reply_value out v) in
    record {
      values = v ∷ rest.values;
      number = ap suc rest.number;
      appended =
          rest.appended
          ∙ ap (λ t. t ++ items rest.values) (reply_value-data_ out v)
          ∙ append_assoc out.data_ (item v) (items rest.values);
    }

-- An array header and its items are one reply.
array-Replied :
    (out out' : RespBuf) (n : ℕ)
    → Listed (resp_reply_array_header out n).data_ n out'
    → Replied out out'
unfolding resp_reply_array_header
array-Replied out out' n l =
    let header = b'*' ∷ (print_ℕ n ++ crlf) in
    record {
      reply = header ++ items l.values;
      whole =
          array l.values
            (rw l.number (ap (λ t. b'*' ∷ t) (append_assoc (print_ℕ n) crlf (items l.values))));
      appended =
          l.appended
          ∙ ap (λ t. t ++ items l.values) (resp_buf_append-data_ out header)
          ∙ append_assoc out.data_ header (items l.values);
    }

items-snoc :
    (vs : List (Option Bytes)) (v : Option Bytes) → items vs ++ item v ≡ items (vs ++ v ∷ [])
items-snoc [] v = sym (append-nil (item v))
items-snoc (u ∷ vs) v =
    append_assoc (item u) (items vs) (item v) ∙ ap (λ t. item u ++ t) (items-snoc vs v)

foreach-Listed :
    (es : List Entry) (now : ℤ) (scratch : RespBuf) (count : ℕ) (before : Bytes)
    → Listed before count scratch
    → let (scratch', count') = foreach_from es now keys_collect_cb (scratch, count) in
      Listed before count' scratch'
unfolding foreach_from keys_collect_cb
foreach-Listed [] now scratch count before l = l
foreach-Listed (e ∷ es) now scratch count before l = elim (Bool-cases (is_expired e now)) [
  | inl old ↦ rw (old, foreach_from) (foreach-Listed es now scratch count before l)
  | inr fresh ↦
      rw (fresh, foreach_from)
        (foreach-Listed es now (resp_reply_bulk_string scratch e.key) (count + 1) before (record {
          values = l.values ++ some e.key ∷ [];
          number = omega (arith, length-append l.values (some e.key ∷ []), l.number);
          appended =
              resp_reply_bulk_string-data_ scratch e.key
              ∙ ap (λ t. t ++ bulk e.key) l.appended
              ∙ append_assoc before (items l.values) (bulk e.key)
              ∙ ap (λ t. before ++ t) (items-snoc l.values (some e.key));
        }))
]

pub append_scratch-data_ :
    (out scratch : RespBuf) → (append_scratch out scratch).data_ ≡ out.data_ ++ scratch.data_
unfolding append_scratch
append_scratch-data_ out scratch = go scratch.data_
  where
    go :
        (bytes : Bytes)
        → (if ltb 0 (length bytes) then resp_buf_append out bytes else out).data_
          ≡ out.data_ ++ bytes
    go [] = sym (append-nil out.data_)
    go (c ∷ s) = ground (arith, resp_buf_append-data_ out (c ∷ s))

-- The scratch buffer's items behind the array header.
scratch-Listed :
    (out scratch : RespBuf) (count : ℕ)
    → Listed [] count scratch
    → Listed out.data_ count (append_scratch out scratch)
scratch-Listed out scratch count l = record {
  values = l.values;
  number = l.number;
  appended = append_scratch-data_ out scratch ∙ ap (λ t. out.data_ ++ t) l.appended;
}

module _ (env : Env) (g : Server) (argv : List Bytes) (out : RespBuf) where
  pub cmd_mget-Answers : Answers out (cmd_mget env g argv out)
  unfolding cmd_mget
  cmd_mget-Answers =
      let keys = drop 1 argv in
      let start = resp_reply_array_header out (length keys) in
      guarded out argv (ltb (length argv) 2) g (
        answered (
          array-Replied out (get_all env 0 g.store keys start).1 (length keys)
            (get_all-Listed env 0 g.store keys start)))

  pub cmd_keys-Answers : Answers out (cmd_keys env g argv out)
  unfolding cmd_keys store_foreach no_breaks resp_buf_init
  cmd_keys-Answers =
      let es = entries g.store in
      let now = env.now_ms 0 in
      let done = foreach_from es now keys_collect_cb (resp_buf_init, 0) in
      let nothing : Listed [] 0 resp_buf_init = record {
        values = [];
        number = refl;
        appended = refl;
      } in
      let all = foreach-Listed es now resp_buf_init 0 [] nothing in
      guarded out argv (not (length argv == 2)) g (
        both (Answers out) (not (bytes_eq (arg argv 1) (codes "*")))
          (answered (resp_reply_error-Replied out _ refl))
          (answered (
            array-Replied out (append_scratch (resp_reply_array_header out done.1) done.0) done.1
              (scratch-Listed (resp_reply_array_header out done.1) done.0 done.1 all))))
