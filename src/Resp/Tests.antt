-- ===== src/Resp/Tests.antt =====
-- The theorems about src/resp.c at a small request, and runs of the parser.
use redis_server_c.Prelude.{
  ℕ, zero, suc, ◌≤◌, ◌≡◌, refl, List, [], ◌∷◌, ◌++◌, arith, Bytes, codes, length, get_or, take,
}
use redis_server_c.Resp.Parse.{
  ok, incomplete, error, resp_parse, parse_multibulk, parse_inline, crlf_from, read_len, parse_ll,
  bulk_arg, bulk_args, newline_from, line_len, token, skip_spaces, invalid_mbulk, expected_dollar,
  max_bulk_len,
}
use redis_server_c.Resp.Reply.{resp_buf_init, resp_buf_append, crlf}
use redis_server_c.Resp.Bounds.{Accepted, parse_multibulk-Accepted, resp_parse-bounds}
use redis_server_c.Resp.Framing.{resp_parse_more, resp_parse_final, resp_parse_truncated}
use redis_server_c.Resp.Buffer.{IsBuf, resp_buf_append-IsBuf, write_request, parse-write_request}
use redis_server_c.Resp.Words.{words, parse_inline-words}

abbrev args : List Bytes
args = codes "GET" ∷ codes "a" ∷ []

abbrev header : Bytes
header = codes "*2" ++ crlf ++ codes "$3" ++ crlf

abbrev tail : Bytes
tail = codes "GET" ++ crlf ++ codes "$1" ++ crlf ++ codes "a" ++ crlf

abbrev no_dollar : Bytes
no_dollar = codes "*1" ++ crlf ++ codes "GET" ++ crlf

computing : Unit {0}
unfolding resp_parse crlf_from read_len parse_ll bulk_arg bulk_args newline_from token skip_spaces
computing = tt

parse_samples :
    (resp_parse (header ++ tail) ≡ ok args 20)
    × (resp_parse header ≡ incomplete)
    × (resp_parse (codes "*0" ++ crlf) ≡ error invalid_mbulk)
    × (resp_parse no_dollar ≡ error expected_dollar)
    × (resp_parse (codes "GET  a" ++ crlf) ≡ ok args 8)
unfolding computing
parse_samples = (refl, refl, refl, refl, refl)

resp_parse_more_example : resp_parse ((header ++ tail) ++ header) ≡ ok args 20
unfolding computing
resp_parse_more_example = resp_parse_more (header ++ tail) header args 20 refl

resp_parse_truncated_example : resp_parse header ≡ incomplete
unfolding computing
resp_parse_truncated_example =
    resp_parse_truncated header tail args 20 (omega arith) (omega arith) refl

resp_parse_final_example : resp_parse (no_dollar ++ header) ≡ error expected_dollar
unfolding computing
resp_parse_final_example = resp_parse_final no_dollar header expected_dollar (omega arith) refl

resp_parse-bounds_example : (1 ≤ 20) × (20 ≤ length (header ++ tail))
unfolding computing
resp_parse-bounds_example = resp_parse-bounds (header ++ tail) args 20 refl

parse_multibulk-Accepted_example : Accepted (header ++ tail) args 20
unfolding computing parse_multibulk
parse_multibulk-Accepted_example = parse_multibulk-Accepted (header ++ tail) args 20 refl

args_limited : (i : ℕ) → length (get_or args i []) ≤ max_bulk_len
args_limited zero = omega arith
args_limited (suc zero) = omega arith
args_limited (suc (suc i)) = omega arith

parse-write_request_example :
    resp_parse ((write_request args).data_ ++ header) ≡ ok args (length (write_request args).data_)
parse-write_request_example =
    parse-write_request args header (omega arith) (omega arith) args_limited

resp_buf_append-IsBuf_example :
    IsBuf (resp_buf_append resp_buf_init header)
    × ((resp_buf_append resp_buf_init header).data_ ≡ resp_buf_init.data_ ++ header)
unfolding resp_buf_init
resp_buf_append-IsBuf_example =
    resp_buf_append-IsBuf resp_buf_init header (omega arith, omega arith) (omega arith)

parse_inline-words_example :
    parse_inline (codes "GET  a" ++ crlf)
    ≡ ok (words (take (line_len (codes "GET  a" ++ crlf) 7) (codes "GET  a" ++ crlf)) []) 8
unfolding newline_from
parse_inline-words_example = parse_inline-words (codes "GET  a" ++ crlf) 7 refl
