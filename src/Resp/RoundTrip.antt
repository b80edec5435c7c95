-- ===== src/Resp/RoundTrip.antt =====
-- A request that is written with the serializer of src/resp.c is read back by its parser.
use mathlib.Core.List.{append_assoc}
use redis_server_c.Prelude.{
  ℕ, suc, ◌+◌, ◌-◌, ◌≤◌, ◌≡◌, refl, ap, ◌∙◌, List, [], ◌∷◌, ◌++◌, some, arith, Bytes, length,
  get_or, take, drop, length-append, length-drop, drop-drop, get_or-drop, get_or-length-append,
  drop-length-append, take-length-append,
}
use redis_server_c.Store.Number.{print_ℕ}
use redis_server_c.Resp.Parse.{
  ok, max_argc, max_bulk_len, find_crlf, slice, at, bulk_body, bulk_sized, bulk_arg, bulk_args,
  counted_args, parse_multibulk, resp_parse,
}
use redis_server_c.Resp.Header.{parse_ll-print_ℕ, crlf_from-header}
use redis_server_c.Resp.Reply.{crlf}

-- The bytes of one bulk string, and of several.
abbrev pub bulk : Bytes → Bytes
bulk s = b'$' ∷ (print_ℕ (length s) ++ 13 ∷ 10 ∷ (s ++ crlf))

abbrev pub bulks : List Bytes → Bytes
bulks [] = []
bulks (s ∷ ss) = bulk s ++ bulks ss

bulk-append :
    (s rest : Bytes)
    → bulk s ++ rest ≡ b'$' ∷ (print_ℕ (length s) ++ 13 ∷ 10 ∷ (s ++ 13 ∷ 10 ∷ rest))
bulk-append s rest =
    ap (λ t. b'$' ∷ t)
      (append_assoc (print_ℕ (length s)) (13 ∷ 10 ∷ (s ++ crlf)) rest
        ∙ ap (λ t. print_ℕ (length s) ++ 13 ∷ 10 ∷ t) (append_assoc s crlf rest))

module _ (buf : Bytes) where
  bulk_body_reads :
      (p : ℕ) (s rest : Bytes)
      → drop p buf ≡ s ++ 13 ∷ 10 ∷ rest
      → bulk_body buf p (length s) ≡ ok s (p + length s + 2)
  unfolding bulk_body
  bulk_body_reads p s rest h =
      let len = ap length h ∙ length-append s (13 ∷ 10 ∷ rest) in
      let fits : p + length s + 2 ≤ length buf = omega (arith, len, length-drop p buf) in
      let first : at buf (p + length s) ≡ 13 =
        get_or-drop p (length s) buf 0
        ∙ rw h (
            ap (λ i. get_or (s ++ 13 ∷ 10 ∷ rest) i 0) (omega arith)
            ∙ get_or-length-append s (13 ∷ 10 ∷ rest) 0 0) in
      let second : at buf (p + length s + 1) ≡ 10 =
        ap (at buf) (omega arith)
        ∙ get_or-drop p (length s + 1) buf 0
        ∙ rw h (get_or-length-append s (13 ∷ 10 ∷ rest) 1 0) in
      let body : take (length s) (drop p buf) ≡ s = rw h (take-length-append s (13 ∷ 10 ∷ rest)) in
      ground (arith, fits, first, second, body)

  -- One argument is read, and the next one starts where it ends.
  bulk_arg_reads :
      (p : ℕ) (s rest : Bytes)
      → length s ≤ max_bulk_len
      → drop p buf ≡ bulk s ++ rest
      → bulk_arg buf p ≡ ok s (p + length (bulk s))
  unfolding bulk_arg bulk_sized
  bulk_arg_reads p s rest top h =
      let n = length s in
      let digits = print_ℕ n in
      let body = s ++ 13 ∷ 10 ∷ rest in
      let here : drop p buf ≡ b'$' ∷ (digits ++ 13 ∷ 10 ∷ body) = h ∙ bulk-append s rest in
      let found : find_crlf buf p ≡ some (p + 1 + length digits) =
        rw here (crlf_from-header b'$' n body p (omega arith) top) in
      let dollar : at buf p ≡ b'$' =
        ap (at buf) (omega arith) ∙ get_or-drop p 0 buf 0 ∙ rw here refl in
      let header : slice buf (p + 1) (p + 1 + length digits) ≡ digits =
        let w : p + 1 + length digits - (p + 1) ≡ length digits = omega arith in
        rw (w, drop-drop p 1 buf, here) (take-length-append digits (13 ∷ 10 ∷ body)) in
      let behind : drop (p + 1 + length digits + 2) buf ≡ body =
        let w : p + 1 + length digits + 2 ≡ p + (1 + (length digits + 2)) = omega arith in
        rw
          (
            w,
            drop-drop p (1 + (length digits + 2)) buf,
            here,
            drop-drop 1 (length digits + 2) (b'$' ∷ (digits ++ 13 ∷ 10 ∷ body)),
          )
          (drop-length-append digits (13 ∷ 10 ∷ body) 2) in
      let got = bulk_body_reads (p + 1 + length digits + 2) s rest behind in
      let end : p + 1 + length digits + 2 + n + 2 ≡ p + length (bulk s) =
        omega (arith, length-append digits (13 ∷ 10 ∷ (s ++ crlf)), length-append s crlf) in
      rw (found, bulk_arg) (rw (header, parse_ll-print_ℕ n top) (ground (arith, dollar, got, end)))

  bulk_args_read :
      (p : ℕ) (ss : List Bytes) (rest : Bytes)
      → ((i : ℕ) → length (get_or ss i []) ≤ max_bulk_len)
      → drop p buf ≡ bulks ss ++ rest
      → bulk_args buf (length ss) p ≡ ok ss (p + length (bulks ss))
  unfolding bulk_args
  bulk_args_read p [] rest top h = ap (ok []) (omega arith)
  bulk_args_read p (s ∷ ss) rest top h =
      let here : drop p buf ≡ bulk s ++ (bulks ss ++ rest) =
        h ∙ append_assoc (bulk s) (bulks ss) rest in
      let got = bulk_arg_reads p s (bulks ss ++ rest) (top 0) here in
      let from_start : length (bulk s) ≡ length (bulk s) + 0 = omega arith in
      let behind : drop (p + length (bulk s)) buf ≡ bulks ss ++ rest =
        rw (drop-drop p (length (bulk s)) buf, here)
          (ap (λ i. drop i (bulk s ++ (bulks ss ++ rest))) from_start
            ∙ drop-length-append (bulk s) (bulks ss ++ rest) 0) in
      let more = bulk_args_read (p + length (bulk s)) ss rest (λ i. top (suc i)) behind in
      let end : p + length (bulk s) + length (bulks ss) ≡ p + length (bulk s ++ bulks ss) =
        omega (arith, length-append (bulk s) (bulks ss)) in
      rw (got, bulk_args) (rw more (ap (ok (s ∷ ss)) end))

-- The bytes of a request of bulk strings.
abbrev pub request : List Bytes → Bytes
request argv = b'*' ∷ (print_ℕ (length argv) ++ 13 ∷ 10 ∷ bulks argv)

-- A request within the limits is read back, whatever follows it, and exactly its bytes are used.
pub resp_parse-request :
    (argv : List Bytes) (rest : Bytes)
    → 1 ≤ length argv
    → length argv ≤ max_argc
    → ((i : ℕ) → length (get_or argv i []) ≤ max_bulk_len)
    → resp_parse (request argv ++ rest) ≡ ok argv (length (request argv))
unfolding resp_parse parse_multibulk counted_args
resp_parse-request argv rest some_args few top =
    let n = length argv in
    let digits = print_ℕ n in
    let body = bulks argv ++ rest in
    let buf = b'*' ∷ (digits ++ 13 ∷ 10 ∷ body) in
    let whole : request argv ++ rest ≡ buf =
      ap (λ t. b'*' ∷ t) (append_assoc digits (13 ∷ 10 ∷ bulks argv) rest) in
    let found : find_crlf buf 0 ≡ some (0 + 1 + length digits) =
      crlf_from-header b'*' n body 0 (omega arith) (omega arith) in
    let header : slice buf 1 (0 + 1 + length digits) ≡ digits =
      let w : 0 + 1 + length digits - 1 ≡ length digits = omega arith in
      rw w (take-length-append digits (13 ∷ 10 ∷ body)) in
    let behind : drop (0 + 1 + length digits + 2) buf ≡ body =
      let w : 0 + 1 + length digits + 2 ≡ 1 + (length digits + 2) = omega arith in
      rw (w, drop-drop 1 (length digits + 2) buf) (drop-length-append digits (13 ∷ 10 ∷ body) 2) in
    let got = bulk_args_read buf (0 + 1 + length digits + 2) argv rest top behind in
    let end : 0 + 1 + length digits + 2 + length (bulks argv) ≡ length (request argv) =
      omega (arith, length-append digits (13 ∷ 10 ∷ bulks argv)) in
    rw whole (
      rw (found, parse_multibulk)
        (rw (header, parse_ll-print_ℕ n (omega arith)) (ground (arith, got, end))))
