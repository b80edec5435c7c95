-- ===== src/Resp/Grows.antt =====
-- What becomes of a result of the parser when more bytes arrive behind the buffer.
use redis_server_c.Prelude.{
  ℕ, zero, suc, ◌+◌, ◌-◌, ◌≤◌, ◌<◌, ◌≡◌, refl, ap, sym, ◌∙◌, ◌||◌, List, [], ◌∷◌, ◌++◌, Option,
  none, some, arith, Bytes, length, drop, take, ltb, ◌==◌, drop-append, length-drop, length-append,
  take-append, get_or-append, Bool-cases, Option-cases, inl, inr,
}
use redis_server_c.Prelude.Int.{ℤ, pos, negsuc}
use redis_server_c.Resp.Parse.{
  Parsed, incomplete, error, find_crlf, parse_ll, slice, at, max_inline_len, max_bulk_len, max_argc,
  bulk_body, bulk_sized, bulk_arg, prepend, bulk_args, counted_args, parse_multibulk, parse_inline,
  newline_from, line_len, resp_parse, too_big_bulk, too_big_mbulk, too_big_inline,
}
use redis_server_c.Resp.Bounds.{Parsed-cases, bulk_arg-Fits, line_len-le}
use redis_server_c.Resp.Crlf.{
  find_crlf-bounds, find_crlf-append, newline_from-append, newline_from-bounds,
}

-- `p` is the result on a buffer of `len` bytes, `q` on a buffer that starts with it.
pub data Grows {ℓ} {A : Type ℓ} (len : ℕ) (p q : Parsed A) : Type ℓ where
  waits : p ≡ incomplete → Grows len p q
  settled : p ≡ q → Grows len p q
  refused : max_inline_len < len → (m : Bytes) → p ≡ error m → Grows len p q

-- Bytes and slices of the buffer stay where they are.
at-append : (buf t : Bytes) (i : ℕ) → i < length buf → at (buf ++ t) i ≡ at buf i
at-append buf t i h = get_or-append i buf t 0 h

slice-append :
    (buf t : Bytes) (from to : ℕ)
    → from ≤ length buf
    → to ≤ length buf
    → slice (buf ++ t) from to ≡ slice buf from to
slice-append buf t from to le h =
    ap (take (to - from)) (drop-append from buf t le)
    ∙ take-append (to - from) (drop from buf) t (omega (arith, length-drop from buf))

prepend-Grows :
    {len : ℕ} (arg : Bytes) {p q : Parsed (List Bytes)}
    → Grows len p q
    → Grows len (prepend arg p) (prepend arg q)
prepend-Grows arg (waits e) = waits (rw e refl)
prepend-Grows arg (settled e) = settled (rw e refl)
prepend-Grows arg (refused long m e) = refused long m (rw e refl)

module _ (buf t : Bytes) where
  bulk_body-Grows :
      (p blen : ℕ) → Grows (length buf) (bulk_body buf p blen) (bulk_body (buf ++ t) p blen)
  unfolding bulk_body
  bulk_body-Grows p blen = elim (Bool-cases (ltb (length buf) (p + blen + 2))) [
    | inl short ↦ waits (ground (arith, short))
    | inr fits ↦
        let h : p + blen + 2 ≤ length buf = ground (arith, fits) in
        let e : drop p (buf ++ t) ≡ drop p buf ++ t = drop-append p buf t (omega arith) in
        let body : take blen (drop p (buf ++ t)) ≡ take blen (drop p buf) =
          ap (take blen) e ∙ take-append blen (drop p buf) t (omega (arith, length-drop p buf)) in
        settled (
          ground (
            arith,
            fits,
            length-append buf t,
            at-append buf t (p + blen) (omega arith),
            at-append buf t (p + blen + 1) (omega arith),
            body,
          ))
  ]

  bulk_sized-Grows :
      (p : ℕ) (blen : Option ℤ)
      → Grows (length buf) (bulk_sized buf p blen) (bulk_sized (buf ++ t) p blen)
  unfolding bulk_sized
  bulk_sized-Grows p none = settled refl
  bulk_sized-Grows p (some (negsuc n)) = settled refl
  bulk_sized-Grows p (some (pos n)) = elim (Bool-cases (ltb max_bulk_len n)) [
    | inl large ↦ settled (ground (arith, large))
    | inr small ↦ rw small (bulk_body-Grows p n)
  ]

  bulk_arg-Grows :
      (p : ℕ) → p ≤ length buf → Grows (length buf) (bulk_arg buf p) (bulk_arg (buf ++ t) p)
  unfolding bulk_arg
  bulk_arg-Grows p le = elim (Option-cases (find_crlf buf p)) [
    | inl gone ↦ elim (Bool-cases (ltb max_inline_len (length buf - p))) [
      | inl long ↦ refused (ground (arith, long)) too_big_bulk (ground (arith, gone, long))
      | inr short ↦ waits (ground (arith, gone, short))
    ]
    | inr (j, found) ↦
        let (from, top) = find_crlf-bounds buf p j le found in
        let later = find_crlf-append buf t p j le found in
        let same = at-append buf t p (omega arith) in
        elim (Bool-cases (at buf p == b'$')) [
          | inr other ↦ settled (ground (arith, found, later, same, other))
          | inl dollar ↦
              let header = slice-append buf t (p + 1) j (omega arith) (omega arith) in
              rw (found, later, same, dollar, header, bulk_arg)
                (bulk_sized-Grows (j + 2) (parse_ll (slice buf (p + 1) j)))
        ]
  ]

  bulk_args-Grows :
      (n p : ℕ) → p ≤ length buf → Grows (length buf) (bulk_args buf n p) (bulk_args (buf ++ t) n p)
  unfolding bulk_args
  bulk_args-Grows zero p le = settled refl
  bulk_args-Grows (suc n) p le = elim (bulk_arg-Grows p le) [
    | waits e ↦ waits (rw (e, bulk_args) refl)
    | refused long m e ↦ refused long m (rw (e, bulk_args) refl)
    | settled e ↦
        rw (sym e, bulk_args)
          (elim (Parsed-cases (bulk_arg buf p)) [
            | inl waiting ↦ waits (rw (waiting, bulk_args) refl)
            | inr (inl (m, bad)) ↦ settled (rw (bad, bulk_args) refl)
            | inr (inr (arg, p', got)) ↦
                rw (got, bulk_args)
                  (prepend-Grows arg (bulk_args-Grows n p' (bulk_arg-Fits buf p arg p' le got).1))
          ])
  ]

  counted_args-Grows :
      (p : ℕ) (argc : Option ℤ)
      → p ≤ length buf
      → Grows (length buf) (counted_args buf p argc) (counted_args (buf ++ t) p argc)
  unfolding counted_args
  counted_args-Grows p none le = settled refl
  counted_args-Grows p (some (negsuc n)) le = settled refl
  counted_args-Grows p (some (pos n)) le = elim (Bool-cases ((n == 0) || ltb max_argc n)) [
    | inl bad ↦ settled (ground (arith, bad))
    | inr good ↦ rw good (bulk_args-Grows n p le)
  ]

  parse_multibulk-Grows : Grows (length buf) (parse_multibulk buf) (parse_multibulk (buf ++ t))
  unfolding parse_multibulk
  parse_multibulk-Grows = elim (Option-cases (find_crlf buf 0)) [
    | inl gone ↦ elim (Bool-cases (ltb max_inline_len (length buf))) [
      | inl long ↦ refused (ground (arith, long)) too_big_mbulk (ground (arith, gone, long))
      | inr short ↦ waits (ground (arith, gone, short))
    ]
    | inr (j, found) ↦
        let (from, top) = find_crlf-bounds buf 0 j (omega arith) found in
        let later = find_crlf-append buf t 0 j (omega arith) found in
        let header = slice-append buf t 1 j (omega arith) (omega arith) in
        rw (found, later, header, parse_multibulk)
          (counted_args-Grows (j + 2) (parse_ll (slice buf 1 j)) (omega arith))
  ]

  line_len-append : (i : ℕ) → i < length buf → line_len (buf ++ t) i ≡ line_len buf i
  line_len-append zero h = refl
  line_len-append (suc i) h = rw (at-append buf t i (omega arith)) refl

  parse_inline-Grows : Grows (length buf) (parse_inline buf) (parse_inline (buf ++ t))
  unfolding parse_inline
  parse_inline-Grows = elim (Option-cases (newline_from buf 0)) [
    | inl gone ↦ elim (Bool-cases (ltb max_inline_len (length buf))) [
      | inl long ↦ refused (ground (arith, long)) too_big_inline (ground (arith, gone, long))
      | inr short ↦ waits (ground (arith, gone, short))
    ]
    | inr (i, found) ↦
        let (from, top) = newline_from-bounds buf 0 i found in
        let later = newline_from-append buf t 0 i found in
        let line = line_len-append i (omega arith) in
        let same = take-append (line_len buf i) buf t (omega (arith, line_len-le buf i)) in
        settled (rw (found, later, line, same, parse_inline) refl)
  ]

-- A result on a buffer stays when bytes arrive, unless it is to wait, or an unended line is too long.
pub resp_parse-Grows : (buf t : Bytes) → Grows (length buf) (resp_parse buf) (resp_parse (buf ++ t))
unfolding resp_parse
resp_parse-Grows [] t = waits refl
resp_parse-Grows (c ∷ s) t = elim (Bool-cases (c == b'*')) [
  | inl star ↦ rw star (parse_multibulk-Grows (c ∷ s) t)
  | inr other ↦ rw other (parse_inline-Grows (c ∷ s) t)
]
