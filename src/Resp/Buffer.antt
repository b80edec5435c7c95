-- ===== src/Resp/Buffer.antt =====
-- src/resp.c: no write of `resp_buf_append` leaves the allocation, and what a buffer holds.
use mathlib.Core.List.{append_assoc, append-nil}
use redis_server_c.Prelude.{
  ℕ, ◌+◌, ◌%◌, ◌^◌, ◌≤◌, ◌≡◌, refl, sym, ap, ◌∙◌, List, [], ◌∷◌, ◌++◌, arith, Bytes, length, get_or,
  leb, length-append, Bool-cases, inl, inr,
}
use redis_server_c.Growth.{grown_enough}
use redis_server_c.Store.Number.{print_ℕ}
use redis_server_c.Resp.Parse.{ok, max_argc, max_bulk_len, resp_parse}
use redis_server_c.Resp.Reply.{
  RespBuf, resp_buf_init, resp_buf_ensure, resp_buf_append, crlf, resp_reply_bulk_string,
  resp_reply_array_header,
}
use redis_server_c.Resp.RoundTrip.{bulk, bulks, request, resp_parse-request}

-- The bytes in use lie in the allocation.
abbrev pub IsBuf : RespBuf → Type 0
IsBuf b = (length b.data_ ≤ b.cap) × (b.cap ≤ 2 ^ 63)

-- An append to a valid buffer, up to 2 ^ 62 bytes together, writes inside the allocation, and it adds exactly
-- the bytes given.
pub resp_buf_append-IsBuf :
    (b : RespBuf) (s : Bytes)
    → IsBuf b
    → length b.data_ + length s ≤ 2 ^ 62
    → IsBuf (resp_buf_append b s) × ((resp_buf_append b s).data_ ≡ b.data_ ++ s)
unfolding resp_buf_append resp_buf_ensure
resp_buf_append-IsBuf b s (le, top) small =
    let need = length b.data_ + length s in
    let w : need % 2 ^ 64 ≡ need = omega arith in
    elim (Bool-cases (leb need b.cap)) [
      | inl room ↦ rw (w, room, resp_buf_append) (ground (arith, room, length-append b.data_ s))
      | inr full ↦
          let enough =
            grown_enough 64 b.cap need (omega arith) (omega arith) (ground (arith, full)) small in
          rw (w, full, resp_buf_append)
            ((omega (arith, enough.0, length-append b.data_ s), enough.1), refl)
    ]

pub resp_buf_append-data_ : (b : RespBuf) (s : Bytes) → (resp_buf_append b s).data_ ≡ b.data_ ++ s
unfolding resp_buf_append resp_buf_ensure
resp_buf_append-data_ b s = ground arith

pub resp_reply_bulk_string-data_ :
    (b : RespBuf) (s : Bytes) → (resp_reply_bulk_string b s).data_ ≡ b.data_ ++ bulk s
unfolding resp_reply_bulk_string
resp_reply_bulk_string-data_ b s =
    let header = b'$' ∷ (print_ℕ (length s) ++ crlf) in
    let joined : header ++ (s ++ crlf) ≡ bulk s =
      ap (λ t. b'$' ∷ t) (append_assoc (print_ℕ (length s)) crlf (s ++ crlf)) in
    rw (resp_buf_append-data_, resp_buf_append-data_, resp_buf_append-data_)
      (append_assoc (b.data_ ++ header) s crlf
        ∙ append_assoc b.data_ header (s ++ crlf)
        ∙ ap (λ t. b.data_ ++ t) joined)

-- A client's use of the serializer: the array header, then one bulk string after the other.
unfoldable pub write_args : RespBuf → List Bytes → RespBuf
write_args b [] = b
write_args b (s ∷ ss) = write_args (resp_reply_bulk_string b s) ss

unfoldable pub write_request : List Bytes → RespBuf
unfolding write_args
write_request argv = write_args (resp_reply_array_header resp_buf_init (length argv)) argv

write_args-data_ : (b : RespBuf) (ss : List Bytes) → (write_args b ss).data_ ≡ b.data_ ++ bulks ss
unfolding write_args
write_args-data_ b [] = sym (append-nil b.data_)
write_args-data_ b (s ∷ ss) =
    write_args-data_ (resp_reply_bulk_string b s) ss
    ∙ rw resp_reply_bulk_string-data_ (append_assoc b.data_ (bulk s) (bulks ss))

-- A request of 1 to RESP_MAX_ARGC arguments, none above RESP_MAX_BULK_LEN bytes, that is written
-- with the serializer is read back by the parser, whatever follows it, and exactly the bytes
-- written are consumed.
pub parse-write_request :
    (argv : List Bytes) (rest : Bytes)
    → 1 ≤ length argv
    → length argv ≤ max_argc
    → ((i : ℕ) → length (get_or argv i []) ≤ max_bulk_len)
    → resp_parse ((write_request argv).data_ ++ rest) ≡ ok argv (length (write_request argv).data_)
unfolding write_request resp_reply_array_header resp_buf_init
parse-write_request argv rest some_args few top =
    let e : (write_request argv).data_ ≡ request argv =
      write_args-data_ (resp_reply_array_header resp_buf_init (length argv)) argv
      ∙ rw resp_buf_append-data_
          (ap (λ t. b'*' ∷ t) (append_assoc (print_ℕ (length argv)) crlf (bulks argv))) in
    rw e (resp_parse-request argv rest some_args few top)
