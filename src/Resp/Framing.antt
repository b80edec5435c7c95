-- ===== src/Resp/Framing.antt =====
-- `resp_parse` on a stream: what the reader of a connection relies on when bytes arrive in parts.
use redis_server_c.Prelude.{ℕ, ◌≤◌, ◌<◌, ◌≡◌, sym, ◌∙◌, List, ◌++◌, arith, Bytes, length}
use redis_server_c.Resp.Parse.{Parsed, ok, incomplete, error, max_inline_len, resp_parse}
use redis_server_c.Resp.Bounds.{resp_parse-bounds}
use redis_server_c.Resp.Grows.{Grows, waits, settled, refused, resp_parse-Grows}

ok_settled :
    {len : ℕ} {argv : List Bytes} {n : ℕ} (p q : Parsed (List Bytes))
    → Grows len p q
    → p ≡ ok argv n
    → q ≡ ok argv n
ok_settled p q (waits e) h = absurd cc
ok_settled p q (settled e) h = sym e ∙ h
ok_settled p q (refused long m e) h = absurd cc

-- A command that is accepted is the same, with as many bytes, whatever bytes follow the buffer.
pub resp_parse_more :
    (buf t : Bytes) (argv : List Bytes) (n : ℕ)
    → resp_parse buf ≡ ok argv n
    → resp_parse (buf ++ t) ≡ ok argv n
resp_parse_more buf t argv n h =
    ok_settled (resp_parse buf) (resp_parse (buf ++ t)) (resp_parse-Grows buf t) h

error_settled :
    {len : ℕ} {m : Bytes} (p q : Parsed (List Bytes))
    → Grows len p q
    → len ≤ max_inline_len
    → p ≡ error m
    → q ≡ error m
error_settled p q (waits e) small h = absurd cc
error_settled p q (settled e) small h = sym e ∙ h
error_settled p q (refused long m e) small h = absurd (omega arith)

-- An error on a buffer of at most RESP_MAX_INLINE_LEN bytes is no matter of bytes still to come.
pub resp_parse_final :
    (buf t : Bytes) (m : Bytes)
    → length buf ≤ max_inline_len
    → resp_parse buf ≡ error m
    → resp_parse (buf ++ t) ≡ error m
resp_parse_final buf t m small h =
    error_settled (resp_parse buf) (resp_parse (buf ++ t)) (resp_parse-Grows buf t) small h

truncated :
    {len : ℕ} {argv : List Bytes} {n : ℕ} (p q : Parsed (List Bytes))
    → Grows len p q
    → len ≤ max_inline_len
    → q ≡ ok argv n
    → (p ≡ ok argv n → n ≤ len)
    → len < n
    → p ≡ incomplete
truncated p q (waits e) small h bound short = e
truncated p q (settled e) small h bound short = absurd (omega (arith, bound (e ∙ h)))
truncated p q (refused long m e) small h bound short = absurd (omega arith)

-- A part of a command, cut off anywhere before its last byte and of at most RESP_MAX_INLINE_LEN
-- bytes, is incomplete.
pub resp_parse_truncated :
    (buf t : Bytes) (argv : List Bytes) (n : ℕ)
    → length buf ≤ max_inline_len
    → length buf < n
    → resp_parse (buf ++ t) ≡ ok argv n
    → resp_parse buf ≡ incomplete
resp_parse_truncated buf t argv n small short h =
    truncated (resp_parse buf) (resp_parse (buf ++ t)) (resp_parse-Grows buf t) small h
      (λ e. (resp_parse-bounds buf argv n e).1) short
