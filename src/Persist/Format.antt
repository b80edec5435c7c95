-- ===== src/Persist/Format.antt =====
-- The file format of include/persist.h, and that `persist_save` of src/persist.c writes it.
use mathlib.Core.List.{append_assoc, append-nil}
use redis_server_c.Prelude.{
  ◌+◌, ◌≡◌, refl, sym, ap, ◌∙◌, List, [], ◌∷◌, ◌++◌, arith, Bytes, length, if◌then◌else◌,
  Bool-cases, inl, inr,
}
use redis_server_c.Prelude.Int.{ℤ}
use redis_server_c.Store.Chain.{Entry}
use redis_server_c.Store.State.{Store, is_expired}
use redis_server_c.Store.Ops.{entries, foreach_from, store_foreach}
use redis_server_c.Persist.Codec.{write_u64, write_u32, to_u64, checksum}
use redis_server_c.Persist.Image.{SaveCtx, new_ctx, ctx_append, save_cb, magic, header, snapshot}

-- One entry: each length in front of its bytes, then the expiry.
abbrev pub encoded : Entry → Bytes
encoded e =
    write_u64 (length e.key)
    ++ (e.key ++ (write_u64 (length e.val) ++ (e.val ++ write_u64 (to_u64 e.expire_at_ms))))

abbrev pub encoded_all : List Entry → Bytes
encoded_all [] = []
encoded_all (e ∷ es) = encoded e ++ encoded_all es

-- What the checksum is taken of.
abbrev pub contents : List Entry → Bytes
contents es = magic ++ (write_u64 (length es) ++ encoded_all es)

abbrev pub sealed : Bytes → Bytes
sealed bytes = bytes ++ write_u32 (checksum bytes)

-- The entries of a walk that have not expired.
unfoldable pub fresh : ℤ → List Entry → List Entry
fresh now [] = []
fresh now (e ∷ es) = if is_expired e now then fresh now es else e ∷ fresh now es

buf-save_cb : (e : Entry) (ctx : SaveCtx) → (save_cb e ctx).buf ≡ ctx.buf ++ encoded e
unfolding save_cb ctx_append
buf-save_cb e ctx =
    let k = write_u64 (length e.key) in
    let v = write_u64 (length e.val) in
    let x = write_u64 (to_u64 e.expire_at_ms) in simp append_assoc

-- The walk appends the entries that have not expired, and counts them.
module _ (now : ℤ) where
  buf-foreach_from :
      (es : List Entry) (ctx : SaveCtx)
      → (foreach_from es now save_cb ctx).buf ≡ ctx.buf ++ encoded_all (fresh now es)
  unfolding foreach_from fresh
  buf-foreach_from [] ctx = sym (append-nil ctx.buf)
  buf-foreach_from (e ∷ es) ctx = elim (Bool-cases (is_expired e now)) [
    | inl old ↦ rw (old, foreach_from, fresh) (buf-foreach_from es ctx)
    | inr here ↦
        rw (here, foreach_from, fresh)
          (buf-foreach_from es (save_cb e ctx)
            ∙ ap (λ t. t ++ encoded_all (fresh now es)) (buf-save_cb e ctx)
            ∙ append_assoc ctx.buf (encoded e) (encoded_all (fresh now es)))
  ]

  count-foreach_from :
      (es : List Entry) (ctx : SaveCtx)
      → (foreach_from es now save_cb ctx).count ≡ ctx.count + length (fresh now es)
  unfolding foreach_from fresh save_cb
  count-foreach_from [] ctx = omega arith
  count-foreach_from (e ∷ es) ctx = elim (Bool-cases (is_expired e now)) [
    | inl old ↦ rw (old, foreach_from, fresh) (count-foreach_from es ctx)
    | inr here ↦
        rw (here, foreach_from, fresh) (omega (arith, count-foreach_from es (save_cb e ctx)))
  ]

-- The snapshot has the format, with the entries of the walk that have not expired.
pub snapshot-sealed :
    (s : Store) (now : ℤ) → snapshot s now ≡ sealed (contents (fresh now (entries s)))
unfolding snapshot store_foreach ctx_append
snapshot-sealed s now =
    let start = ctx_append new_ctx header in
    let es = fresh now (entries s) in
    let bytes : (foreach_from (entries s) now save_cb start).buf ≡ header ++ encoded_all es =
      buf-foreach_from now (entries s) start in
    let number : (foreach_from (entries s) now save_cb start).count ≡ length es =
      count-foreach_from now (entries s) start ∙ omega arith in
    rw (bytes, number) refl
