-- ===== src/Resp/Parse.antt =====
-- src/resp.c, `resp_parse` and its helpers. `buf` carries its length, as a list does, and a byte
-- is a number below 256; the tests on a `char` that may be negative are tests for ASCII bytes.
use redis_server_c.Prelude.{
  ℕ, zero, suc, ◌+◌, ◌-◌, ◌*◌, ◌&&◌, ◌||◌, List, [], ◌∷◌, Option, none, some, Bytes, codes, length,
  get_or, take, drop, ltb, ◌==◌, if◌then◌else◌,
}
use redis_server_c.Prelude.Int.{ℤ, pos, negsuc}
use redis_server_c.Store.Number.{is_space, is_digit, negate}

-- RESP_MAX_ARGC, RESP_MAX_BULK_LEN and RESP_MAX_INLINE_LEN
abbrev pub max_argc : ℕ
max_argc = 1024 * 1024

abbrev pub max_bulk_len : ℕ
max_bulk_len = 512 * 1024 * 1024

abbrev pub max_inline_len : ℕ
max_inline_len = 65536

-- `resp_status_t` with what the out parameters hold: the value and the bytes consumed, or the
-- message.
pub data Parsed {ℓ} (A : Type ℓ) : Type ℓ where
  ok : A → ℕ → Parsed A
  incomplete : Parsed A
  error : Bytes → Parsed A

abbrev pub cr : ℕ
cr = 13

abbrev pub lf : ℕ
lf = 10

-- The loop of `find_crlf` from index `i`, at which the rest of the buffer starts.
unfoldable pub crlf_from : Bytes → ℕ → Option ℕ
crlf_from [] i = none
crlf_from (c ∷ []) i = none
crlf_from (c ∷ d ∷ s) i = if (c == cr) && (d == lf) then some i else crlf_from (d ∷ s) (suc i)

-- `none` for -1
abbrev pub find_crlf : Bytes → ℕ → Option ℕ
find_crlf buf from = crlf_from (drop from buf) from

-- The digit loop of `parse_ll`, with its guard against overflow.
unfoldable pub read_len : Bytes → ℕ → Option ℕ
read_len [] v = some v
read_len (c ∷ s) v =
    let next = v * 10 + (c - b'0') in
    if is_digit c then if ltb (max_bulk_len * 2) next then none else read_len s next else none

signed : (ℕ → ℤ) → Option ℕ → Option ℤ
signed sign none = none
signed sign (some v) = some (sign v)

unfoldable pub parse_ll : Bytes → Option ℤ
unfolding signed
parse_ll [] = none
parse_ll (c ∷ []) = if c == b'-' then none else signed pos (read_len (c ∷ []) 0)
parse_ll (c ∷ d ∷ s) =
    if c == b'-' then signed negate (read_len (d ∷ s) 0) else signed pos (read_len (c ∷ d ∷ s) 0)

-- buf[from..to)
abbrev pub slice : Bytes → ℕ → ℕ → Bytes
slice buf from to = take (to - from) (drop from buf)

abbrev pub at : Bytes → ℕ → ℕ
at buf i = get_or buf i 0

abbrev pub too_big_mbulk : Bytes
too_big_mbulk = codes "ERR Protocol error: too big mbulk count string"

abbrev pub invalid_mbulk : Bytes
invalid_mbulk = codes "ERR Protocol error: invalid multibulk length"

abbrev pub too_big_bulk : Bytes
too_big_bulk = codes "ERR Protocol error: too big bulk count string"

abbrev pub expected_dollar : Bytes
expected_dollar = codes "ERR Protocol error: expected '$', got something else"

abbrev pub invalid_bulk : Bytes
invalid_bulk = codes "ERR Protocol error: invalid bulk length"

abbrev pub expected_crlf : Bytes
expected_crlf = codes "ERR Protocol error: expected CRLF after bulk string body"

abbrev pub too_big_inline : Bytes
too_big_inline = codes "ERR Protocol error: too big inline request"

-- The body of a bulk string of length `blen` at `p`, and the CRLF behind it.
unfoldable pub bulk_body : Bytes → ℕ → ℕ → Parsed Bytes
bulk_body buf p blen =
    if ltb (length buf) (p + blen + 2)
    then incomplete
    else if (at buf (p + blen) == cr) && (at buf (p + blen + 1) == lf)
    then ok (take blen (drop p buf)) (p + blen + 2)
    else error expected_crlf

-- What the header line gave for `blen`, before the body at `p`.
unfoldable pub bulk_sized : Bytes → ℕ → Option ℤ → Parsed Bytes
unfolding bulk_body
bulk_sized buf p none = error invalid_bulk
bulk_sized buf p (some (negsuc n)) = error invalid_bulk
bulk_sized buf p (some (pos n)) =
    if ltb max_bulk_len n then error invalid_bulk else bulk_body buf p n

-- One round of the loop of `parse_multibulk`.
unfoldable pub bulk_arg : Bytes → ℕ → Parsed Bytes
unfolding bulk_sized
bulk_arg buf p = elim (find_crlf buf p) [
  | none ↦ if ltb max_inline_len (length buf - p) then error too_big_bulk else incomplete
  | some hdr_end ↦
      if at buf p == b'$'
      then bulk_sized buf (hdr_end + 2) (parse_ll (slice buf (p + 1) hdr_end))
      else error expected_dollar
]

abbrev pub prepend : Bytes → Parsed (List Bytes) → Parsed (List Bytes)
prepend arg (ok argv p) = ok (arg ∷ argv) p
prepend arg incomplete = incomplete
prepend arg (error m) = error m

-- The loop on the number of arguments that are left.
unfoldable pub bulk_args : Bytes → ℕ → ℕ → Parsed (List Bytes)
bulk_args buf zero p = ok [] p
bulk_args buf (suc n) p = elim (bulk_arg buf p) [
  | ok arg p' ↦ prepend arg (bulk_args buf n p')
  | incomplete ↦ incomplete
  | error m ↦ error m
]

unfoldable pub counted_args : Bytes → ℕ → Option ℤ → Parsed (List Bytes)
counted_args buf p none = error invalid_mbulk
counted_args buf p (some (negsuc n)) = error invalid_mbulk
counted_args buf p (some (pos argc)) =
    if (argc == 0) || ltb max_argc argc then error invalid_mbulk else bulk_args buf argc p

unfoldable pub parse_multibulk : Bytes → Parsed (List Bytes)
unfolding counted_args
parse_multibulk buf = elim (find_crlf buf 0) [
  | none ↦ if ltb max_inline_len (length buf) then error too_big_mbulk else incomplete
  | some line_end ↦ counted_args buf (line_end + 2) (parse_ll (slice buf 1 line_end))
]

-- The index of the first '\n'.
unfoldable pub newline_from : Bytes → ℕ → Option ℕ
newline_from [] i = none
newline_from (c ∷ s) i = if c == lf then some i else newline_from s (suc i)

unfoldable pub skip_spaces : Bytes → Bytes
skip_spaces [] = []
skip_spaces (c ∷ s) = if is_space c then skip_spaces s else c ∷ s

-- The bytes up to the next white space, and the rest from there on.
unfoldable pub token : Bytes → Bytes × Bytes
token [] = ([], [])
token (c ∷ s) = let (t, rest) = token s in if is_space c then ([], c ∷ s) else (c ∷ t, rest)

-- The rounds of the tokenizer; each consumes a byte at least.
unfoldable pub tokens : ℕ → Bytes → List Bytes
tokens zero line = []
tokens (suc rounds) line = elim (skip_spaces line) [
  | [] ↦ []
  | c ∷ s ↦ let (t, rest) = token (c ∷ s) in t ∷ tokens rounds rest
]

-- `line_len`: without a '\r' in front of the '\n' at `i`.
abbrev pub line_len : Bytes → ℕ → ℕ
line_len buf zero = zero
line_len buf (suc i) = if at buf i == cr then i else suc i

unfoldable pub parse_inline : Bytes → Parsed (List Bytes)
unfolding tokens
parse_inline buf = elim (newline_from buf 0) [
  | none ↦ if ltb max_inline_len (length buf) then error too_big_inline else incomplete
  | some i ↦ ok (tokens (line_len buf i) (take (line_len buf i) buf)) (i + 1)
]

unfoldable pub resp_parse : Bytes → Parsed (List Bytes)
unfolding parse_multibulk parse_inline
resp_parse [] = incomplete
resp_parse (c ∷ s) = if c == b'*' then parse_multibulk (c ∷ s) else parse_inline (c ∷ s)
