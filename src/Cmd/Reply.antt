-- ===== src/Cmd/Reply.antt =====
-- The replies of the protocol, and that each `resp_reply_*` call of src/cmd.c appends one of them.
use mathlib.Core.List.{append_assoc}
use redis_server_c.Prelude.{
  ℕ, zero, suc, ◌-◌, ◌≡◌, refl, ◌∙◌, Bool, true, not, ◌&&◌, List, [], ◌∷◌, ◌++◌, Option, none, some,
  arith, Bytes, codes, length, take, ◌==◌,
}
use redis_server_c.Prelude.Int.{ℤ}
use redis_server_c.Store.Number.{print_ℕ, print_ll}
use redis_server_c.Resp.Reply.{
  RespBuf, resp_buf_append, resp_reply_simple_string, resp_reply_error, resp_reply_integer,
  resp_reply_bulk_string, resp_reply_null_bulk, crlf,
}
use redis_server_c.Resp.RoundTrip.{bulk}
use redis_server_c.Resp.Buffer.{resp_buf_append-data_, resp_reply_bulk_string-data_}
use redis_server_c.Cmd.Args.{safe_chars, safe_token, snprintf, arg, reply_wrong_arity}

-- A text without '\r' and '\n', as the line of a simple string or an error must be.
unfoldable pub no_breaks : Bytes → Bool
no_breaks [] = true
no_breaks (c ∷ s) = not (c == 13) && not (c == 10) && no_breaks s

-- A bulk string, or null.
abbrev pub item : Option Bytes → Bytes
item none = codes "$-1" ++ crlf
item (some v) = bulk v

abbrev pub items : List (Option Bytes) → Bytes
items [] = []
items (v ∷ vs) = item v ++ items vs

-- The bytes `r` are exactly one reply.
pub data IsReply (r : Bytes) : Type 0 where
  simple : (s : Bytes) → no_breaks s ≡ true → r ≡ b'+' ∷ (s ++ crlf) → IsReply r
  failure : (s : Bytes) → no_breaks s ≡ true → r ≡ b'-' ∷ (s ++ crlf) → IsReply r
  integer : (v : ℤ) → r ≡ b':' ∷ (print_ll v ++ crlf) → IsReply r
  single : (v : Option Bytes) → r ≡ item v → IsReply r
  array :
      (vs : List (Option Bytes))
      → r ≡ b'*' ∷ (print_ℕ (length vs) ++ (crlf ++ items vs))
      → IsReply r

-- One reply stands behind what the buffer had.
pub record Replied (out out' : RespBuf) : Type 0 where
  pub reply : Bytes
  pub whole : IsReply reply
  pub appended : out'.data_ ≡ out.data_ ++ reply

-- A line is written in three parts.
pub line_appended :
    (b : RespBuf) (sign s : Bytes)
    → (resp_buf_append (resp_buf_append (resp_buf_append b sign) s) crlf).data_
      ≡ b.data_ ++ (sign ++ (s ++ crlf))
line_appended b sign s =
    rw (resp_buf_append-data_, resp_buf_append-data_, resp_buf_append-data_)
      (append_assoc (b.data_ ++ sign) s crlf ∙ append_assoc b.data_ sign (s ++ crlf))

pub resp_reply_simple_string-Replied :
    (b : RespBuf) (s : Bytes) → no_breaks s ≡ true → Replied b (resp_reply_simple_string b s)
unfolding resp_reply_simple_string
resp_reply_simple_string-Replied b s h = record {
  reply = b'+' ∷ (s ++ crlf);
  whole = simple s h refl;
  appended = line_appended b (codes "+") s;
}

pub resp_reply_error-Replied :
    (b : RespBuf) (s : Bytes) → no_breaks s ≡ true → Replied b (resp_reply_error b s)
unfolding resp_reply_error
resp_reply_error-Replied b s h = record {
  reply = b'-' ∷ (s ++ crlf);
  whole = failure s h refl;
  appended = line_appended b (codes "-") s;
}

pub resp_reply_integer-Replied : (b : RespBuf) (v : ℤ) → Replied b (resp_reply_integer b v)
unfolding resp_reply_integer
resp_reply_integer-Replied b v = record {
  reply = b':' ∷ (print_ll v ++ crlf);
  whole = integer v refl;
  appended = resp_buf_append-data_ b (b':' ∷ (print_ll v ++ crlf));
}

pub resp_reply_bulk_string-Replied :
    (b : RespBuf) (s : Bytes) → Replied b (resp_reply_bulk_string b s)
resp_reply_bulk_string-Replied b s = record {
  reply = bulk s;
  whole = single (some s) refl;
  appended = resp_reply_bulk_string-data_ b s;
}

pub resp_reply_null_bulk-Replied : (b : RespBuf) → Replied b (resp_reply_null_bulk b)
unfolding resp_reply_null_bulk
resp_reply_null_bulk-Replied b = record {
  reply = codes "$-1" ++ crlf;
  whole = single none refl;
  appended = resp_buf_append-data_ b (codes "$-1" ++ crlf);
}

-- What a message is made of has no line break: the parts, and a part that is cut off.
pub no_breaks-append :
    (s t : Bytes) → no_breaks s ≡ true → no_breaks t ≡ true → no_breaks (s ++ t) ≡ true
unfolding no_breaks
no_breaks-append [] t h k = k
no_breaks-append (c ∷ s) t h k = ground (arith, no_breaks-append s t)

pub no_breaks-take : (n : ℕ) (s : Bytes) → no_breaks s ≡ true → no_breaks (take n s) ≡ true
unfolding no_breaks
no_breaks-take zero s h = refl
no_breaks-take (suc n) [] h = refl
no_breaks-take (suc n) (c ∷ s) h = ground (arith, no_breaks-take n s)

no_breaks-safe_chars : (s : Bytes) → no_breaks (safe_chars s) ≡ true
unfolding no_breaks safe_chars
no_breaks-safe_chars [] = refl
no_breaks-safe_chars (c ∷ s) = ground (arith, no_breaks-safe_chars s)

-- Whatever bytes a client sends as a name, a message that quotes it between texts without line
-- breaks has no line break.
pub quoted_one_line :
    (size : ℕ) (before name behind : Bytes)
    → no_breaks before ≡ true
    → no_breaks behind ≡ true
    → no_breaks (snprintf size (before ++ (safe_token name ++ behind))) ≡ true
unfolding safe_token
quoted_one_line size before name behind h k =
    no_breaks-take (size - 1) (before ++ (safe_token name ++ behind)) (
      no_breaks-append before (safe_token name ++ behind) h
        (no_breaks-append (safe_token name) behind (no_breaks-safe_chars (take 31 name)) k))

pub reply_wrong_arity-Replied :
    (b : RespBuf) (argv : List Bytes) → Replied b (reply_wrong_arity b argv)
unfolding reply_wrong_arity no_breaks
reply_wrong_arity-Replied b argv = resp_reply_error-Replied b _ (
    quoted_one_line 80 (codes "ERR wrong number of arguments for '") (arg argv 0)
      (codes "' command") refl refl)
