-- ===== src/Resp/Reply.antt =====
-- src/resp.c, the reply buffer and the `resp_reply_*` functions.
use redis_server_c.Prelude.{
  ℕ, ◌+◌, ◌%◌, ◌^◌, [], ◌∷◌, ◌++◌, Bytes, codes, length, leb, if◌then◌else◌,
}
use redis_server_c.Growth.{grown}
use redis_server_c.Prelude.Int.{ℤ}
use redis_server_c.Store.Number.{print_ℕ, print_ll}

-- `resp_buf_t`: `data` are the `len` bytes in use, of `cap` allocated ones.
pub record RespBuf : Type 0 where
  pub data_ : Bytes
  pub cap : ℕ

unfoldable pub resp_buf_init : RespBuf
resp_buf_init = record { data_ = []; cap = 0 }

unfoldable pub resp_buf_ensure : RespBuf → ℕ → RespBuf
unfolding grown
resp_buf_ensure b extra =
    let need = (length b.data_ + extra) % 2 ^ 64 in
    if leb need b.cap then b else record b { cap = grown 64 b.cap need }

-- `resp_buf_append(b, data, len)`
unfoldable pub resp_buf_append : RespBuf → Bytes → RespBuf
unfolding resp_buf_ensure
resp_buf_append b bytes =
    let b' = resp_buf_ensure b (length bytes) in record b' { data_ = b'.data_ ++ bytes }

abbrev pub crlf : Bytes
crlf = 13 ∷ 10 ∷ []

unfoldable pub resp_reply_simple_string : RespBuf → Bytes → RespBuf
unfolding resp_buf_append
resp_reply_simple_string b s =
    resp_buf_append (resp_buf_append (resp_buf_append b (codes "+")) s) crlf

unfoldable pub resp_reply_error : RespBuf → Bytes → RespBuf
unfolding resp_buf_append
resp_reply_error b s = resp_buf_append (resp_buf_append (resp_buf_append b (codes "-")) s) crlf

-- ":%lld\r\n"
unfoldable pub resp_reply_integer : RespBuf → ℤ → RespBuf
resp_reply_integer b v = resp_buf_append b (b':' ∷ print_ll v ++ crlf)

-- "$%zu\r\n" in front of the bytes
unfoldable pub resp_reply_bulk_string : RespBuf → Bytes → RespBuf
resp_reply_bulk_string b s =
    let b' = resp_buf_append b (b'$' ∷ print_ℕ (length s) ++ crlf) in
    resp_buf_append (resp_buf_append b' s) crlf

unfoldable pub resp_reply_null_bulk : RespBuf → RespBuf
resp_reply_null_bulk b = resp_buf_append b (codes "$-1" ++ crlf)

unfoldable pub resp_reply_array_header : RespBuf → ℕ → RespBuf
resp_reply_array_header b count = resp_buf_append b (b'*' ∷ print_ℕ count ++ crlf)

unfoldable pub resp_reply_null_array : RespBuf → RespBuf
resp_reply_null_array b = resp_buf_append b (codes "*-1" ++ crlf)
