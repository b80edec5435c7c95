-- ===== src/Resp/Bounds.antt =====
-- How much of the buffer the parser consumes, and how large a request it accepts.
use redis_server_c.Prelude.{
  ℕ, zero, suc, ◌+◌, ◌≤◌, ◌<◌, ◌≡◌, refl, ◌⊎◌, inl, inr, ◌||◌, List, [], ◌∷◌, Option, none, some,
  arith, Bytes, length, get_or, drop, ap, ltb, ◌==◌, length-drop, length-take, Bool-cases,
  Option-cases,
}
use redis_server_c.Prelude.Int.{ℤ, pos, negsuc}
use redis_server_c.Resp.Parse.{
  Parsed, ok, incomplete, error, find_crlf, parse_ll, slice, max_bulk_len, max_argc, bulk_body,
  bulk_sized, bulk_arg, prepend, bulk_args, counted_args, parse_multibulk, parse_inline,
  newline_from, line_len, resp_parse,
}
use redis_server_c.Resp.Crlf.{find_crlf-bounds, newline_from-bounds}

pub Parsed-cases {ℓ} :
    {A : Type ℓ} (p : Parsed A)
    → (p ≡ incomplete) ⊎ (((m : Bytes) × (p ≡ error m)) ⊎ ((a : A) × (n : ℕ) × (p ≡ ok a n)))
Parsed-cases incomplete = inl refl
Parsed-cases (error m) = inr (inl (m, refl))
Parsed-cases (ok a n) = inr (inr (a, n, refl))

pub line_len-le : (buf : Bytes) (i : ℕ) → line_len buf i ≤ i
line_len-le buf zero = omega arith
line_len-le buf (suc i) = ground arith

-- An argument is at most as long as the limit says, and it ends in the buffer behind its start.
abbrev pub Fits : Bytes → ℕ → Bytes → ℕ → Type 0
Fits buf p arg p' = (p < p') × (p' ≤ length buf) × (length arg ≤ max_bulk_len)

bulk_body-Fits :
    (buf : Bytes) (p blen : ℕ) (arg : Bytes) (p' : ℕ)
    → blen ≤ max_bulk_len
    → bulk_body buf p blen ≡ ok arg p'
    → Fits buf p arg p'
unfolding bulk_body
bulk_body-Fits buf p blen arg p' small h =
    ground (arith, length-take blen (drop p buf), length-drop p buf)

bulk_sized-Fits :
    (buf : Bytes) (p : ℕ) (blen : Option ℤ) (arg : Bytes) (p' : ℕ)
    → bulk_sized buf p blen ≡ ok arg p'
    → Fits buf p arg p'
unfolding bulk_sized
bulk_sized-Fits buf p none arg p' h = absurd cc
bulk_sized-Fits buf p (some (negsuc n)) arg p' h = absurd cc
bulk_sized-Fits buf p (some (pos n)) arg p' h = ground (arith, bulk_body-Fits buf p n arg p')

pub bulk_arg-Fits :
    (buf : Bytes) (p : ℕ) (arg : Bytes) (p' : ℕ)
    → p ≤ length buf
    → bulk_arg buf p ≡ ok arg p'
    → Fits buf p arg p'
unfolding bulk_arg
bulk_arg-Fits buf p arg p' le h = elim (Option-cases (find_crlf buf p)) [
  | inl gone ↦ absurd (ground (arith, gone))
  | inr (j, found) ↦
      let (from, top) = find_crlf-bounds buf p j le found in
      let fits = bulk_sized-Fits buf (j + 2) (parse_ll (slice buf (p + 1) j)) arg p' in
      ground (arith, found, fits)
]

-- A request of `n` arguments, none of them above the limit, that ends in the buffer.
pub record Request (buf : Bytes) (n : ℕ) (argv : List Bytes) (p p' : ℕ) : Type 0 where
  pub count : length argv ≡ n
  pub limited : (i : ℕ) → length (get_or argv i []) ≤ max_bulk_len
  pub forward : p ≤ p'
  pub inside : p' ≤ length buf

limited_cons :
    (arg : Bytes) (argv : List Bytes)
    → length arg ≤ max_bulk_len
    → ((i : ℕ) → length (get_or argv i []) ≤ max_bulk_len)
    → (i : ℕ) → length (get_or (arg ∷ argv) i []) ≤ max_bulk_len
limited_cons arg argv h hs zero = h
limited_cons arg argv h hs (suc i) = hs i

prepend_inv :
    (arg : Bytes) (p : Parsed (List Bytes)) (argv : List Bytes) (n : ℕ)
    → prepend arg p ≡ ok argv n
    → (rest : List Bytes) × (p ≡ ok rest n) × (argv ≡ arg ∷ rest)
prepend_inv arg (ok rest m) argv n h = (rest, ground arith, ground arith)
prepend_inv arg incomplete argv n h = absurd cc
prepend_inv arg (error m) argv n h = absurd cc

pub bulk_args-Request :
    (buf : Bytes) (n p : ℕ) (argv : List Bytes) (p' : ℕ)
    → p ≤ length buf
    → bulk_args buf n p ≡ ok argv p'
    → Request buf n argv p p'
unfolding bulk_args
bulk_args-Request buf zero p argv p' le h =
    let none_left : argv ≡ [] = ground arith in
    record {
      count = rw none_left refl;
      limited = λ i. rw none_left (omega arith);
      forward = ground arith;
      inside = ground arith;
    }
bulk_args-Request buf (suc n) p argv p' le h = elim (Parsed-cases (bulk_arg buf p)) [
  | inl waiting ↦ absurd (ground (arith, waiting))
  | inr (inl (m, bad)) ↦ absurd (ground (arith, bad))
  | inr (inr (arg, q, got)) ↦
      let (forward, inside, short) = bulk_arg-Fits buf p arg q le got in
      let (rest, more, whole) =
        prepend_inv arg (bulk_args buf n q) argv p' (rw (got, bulk_args) at h) in
      let r = bulk_args-Request buf n q rest p' inside more in
      record {
        count = rw whole (ap suc r.count);
        limited = rw whole (limited_cons arg rest short r.limited);
        forward = omega (arith, r.forward);
        inside = r.inside;
      }
]

counted_args-Request :
    (buf : Bytes) (p : ℕ) (argc : Option ℤ) (argv : List Bytes) (p' : ℕ)
    → p ≤ length buf
    → counted_args buf p argc ≡ ok argv p'
    → (n : ℕ) × Request buf n argv p p' × (1 ≤ n) × (n ≤ max_argc)
unfolding counted_args
counted_args-Request buf p none argv p' le h = absurd cc
counted_args-Request buf p (some (negsuc n)) argv p' le h = absurd cc
counted_args-Request buf p (some (pos n)) argv p' le h =
    elim (Bool-cases ((n == 0) || ltb max_argc n)) [
      | inl bad ↦ absurd (ground (arith, bad))
      | inr good ↦ (
        n,
        bulk_args-Request buf n p argv p' le (rw good at h),
        ground (arith, good),
        ground (arith, good),
      )
    ]

-- What an accepted multibulk request has.
pub record Accepted (buf : Bytes) (argv : List Bytes) (consumed : ℕ) : Type 0 where
  pub some_args : 1 ≤ length argv
  pub few_args : length argv ≤ max_argc
  pub limited : (i : ℕ) → length (get_or argv i []) ≤ max_bulk_len
  pub forward : 2 ≤ consumed
  pub inside : consumed ≤ length buf

-- A multibulk request that is accepted has from 1 to RESP_MAX_ARGC arguments, none of them above
-- RESP_MAX_BULK_LEN bytes, and consumes no more bytes than the buffer has.
pub parse_multibulk-Accepted :
    (buf : Bytes) (argv : List Bytes) (n : ℕ)
    → parse_multibulk buf ≡ ok argv n
    → Accepted buf argv n
unfolding parse_multibulk
parse_multibulk-Accepted buf argv p' h = elim (Option-cases (find_crlf buf 0)) [
  | inl gone ↦ absurd (ground (arith, gone))
  | inr (j, found) ↦
      let (from, top) = find_crlf-bounds buf 0 j (omega arith) found in
      let (n, r, low, high) =
        counted_args-Request buf (j + 2) (parse_ll (slice buf 1 j)) argv p' top
          (rw (found, parse_multibulk) at h) in
      record {
        some_args = omega (arith, r.count);
        few_args = omega (arith, r.count);
        limited = r.limited;
        forward = omega (arith, r.forward);
        inside = r.inside;
      }
]

parse_inline-bounds :
    (buf : Bytes) (argv : List Bytes) (n : ℕ)
    → parse_inline buf ≡ ok argv n
    → (1 ≤ n) × (n ≤ length buf)
unfolding parse_inline
parse_inline-bounds buf argv n h = elim (Option-cases (newline_from buf 0)) [
  | inl gone ↦ absurd (ground (arith, gone))
  | inr (i, found) ↦ ground (arith, found, newline_from-bounds buf 0 i found)
]

-- A command that is accepted consumes a byte at least, and no more than there are.
pub resp_parse-bounds :
    (buf : Bytes) (argv : List Bytes) (n : ℕ)
    → resp_parse buf ≡ ok argv n
    → (1 ≤ n) × (n ≤ length buf)
unfolding resp_parse
resp_parse-bounds [] argv n h = absurd cc
resp_parse-bounds (c ∷ s) argv n h = elim (Bool-cases (c == b'*')) [
  | inl star ↦
      let r = parse_multibulk-Accepted (c ∷ s) argv n (ground (arith, star)) in
      (omega (arith, r.forward), r.inside)
  | inr other ↦ parse_inline-bounds (c ∷ s) argv n (ground (arith, other))
]
