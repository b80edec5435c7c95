-- ===== src/Resp/Words.antt =====
-- src/resp.c: the tokenizer of `parse_inline` against a splitter that reads each byte once.
use mathlib.Core.List.{append_assoc, append-nil}
use redis_server_c.Prelude.{
  ℕ, zero, suc, ◌+◌, ◌≤◌, ◌≡◌, refl, sym, ap, ◌∙◌, false, List, [], ◌∷◌, ◌++◌, arith, Bytes, length,
  take, length-take, some, if◌then◌else◌, Bool-cases, inl, inr, ◌⊎◌,
}
use redis_server_c.Store.Number.{is_space}
use redis_server_c.Resp.Parse.{ok, skip_spaces, token, tokens, newline_from, line_len, parse_inline}

-- A word that has begun is one of the words.
abbrev closed : Bytes → List Bytes → List Bytes
closed [] ws = ws
closed (c ∷ w) ws = (c ∷ w) ∷ ws

-- The maximal runs of bytes that are no white space, behind the word that has begun.
unfoldable pub words : Bytes → Bytes → List Bytes
words [] w = closed w []
words (c ∷ s) w = if is_space c then closed w (words s []) else words s (w ++ c ∷ [])

words-skip_spaces : (s : Bytes) → words (skip_spaces s) [] ≡ words s []
unfolding words skip_spaces
words-skip_spaces [] = refl
words-skip_spaces (c ∷ s) = elim (Bool-cases (is_space c)) [
  | inl space ↦ rw (space, skip_spaces, words) (words-skip_spaces s)
  | inr other ↦ rw (other, skip_spaces, words) (rw (other, words) refl)
]

words-token : (s w : Bytes) → words s w ≡ closed (w ++ (token s).0) (words (token s).1 [])
unfolding words token
words-token [] w = rw (append-nil w) refl
words-token (c ∷ s) w = elim (Bool-cases (is_space c)) [
  | inl space ↦ rw (space, words, token, append-nil w) (rw (space, words) refl)
  | inr other ↦
      rw (other, words, token)
        (words-token s (w ++ c ∷ [])
          ∙ ap (λ t. closed t (words (token s).1 [])) (append_assoc w (c ∷ []) (token s).0))
]

-- What is left behind white space starts a word, and a token takes its first byte away.
skip_spaces-le : (s : Bytes) → length (skip_spaces s) ≤ length s
unfolding skip_spaces
skip_spaces-le [] = omega arith
skip_spaces-le (c ∷ s) = ground (arith, skip_spaces-le s)

skip_spaces-head : (s : Bytes) (c : ℕ) (t : Bytes) → skip_spaces s ≡ c ∷ t → is_space c ≡ false
unfolding skip_spaces
skip_spaces-head [] c t h = absurd cc
skip_spaces-head (d ∷ s) c t h = elim (Bool-cases (is_space d)) [
  | inl space ↦ skip_spaces-head s c t (rw (space, skip_spaces) at h)
  | inr other ↦ ground (arith, other)
]

length-token-le : (s : Bytes) → length (token s).1 ≤ length s
unfolding token
length-token-le [] = omega arith
length-token-le (c ∷ s) = ground (arith, length-token-le s)

token_head :
    (c : ℕ) (s : Bytes) → is_space c ≡ false → token (c ∷ s) ≡ (c ∷ (token s).0, (token s).1)
unfolding token
token_head c s h = rw (h, token) refl

skip_spaces-cases :
    (s : Bytes) → (skip_spaces s ≡ []) ⊎ ((c : ℕ) × (t : Bytes) × (skip_spaces s ≡ c ∷ t))
skip_spaces-cases s = go (skip_spaces s)
  where
    go : (s : Bytes) → (s ≡ []) ⊎ ((c : ℕ) × (t : Bytes) × (s ≡ c ∷ t))
    go [] = inl refl
    go (c ∷ t) = inr (c, t, refl)

-- With as many rounds as bytes the tokenizer returns all the words of the line.
pub tokens-words : (n : ℕ) (line : Bytes) → length line ≤ n → tokens n line ≡ words line []
unfolding tokens
tokens-words zero [] h = unfold words in refl
tokens-words zero (c ∷ s) h = absurd (omega arith)
tokens-words (suc n) line h = elim (skip_spaces-cases line) [
  | inl blank ↦ rw (blank, tokens) (unfold words in rw blank at (words-skip_spaces line))
  | inr (c, s, e) ↦
      let other = skip_spaces-head line c s e in
      let short = length-token-le s in
      let few = skip_spaces-le line in
      let first = token_head c s other in
      let rest = tokens-words n (token s).1 (omega (arith, short, few, ap length e)) in
      let whole = words-token (c ∷ s) [] ∙ rw first refl in
      rw (e, tokens) (rw (first, rest) (sym whole ∙ rw e at (words-skip_spaces line)))
]

-- A line that ends at `i` gives its maximal runs of bytes that are no white space, without the
-- line's "\n" or "\r\n", and the bytes up to the end of the line are consumed.
pub parse_inline-words :
    (buf : Bytes) (i : ℕ)
    → newline_from buf 0 ≡ some i
    → parse_inline buf ≡ ok (words (take (line_len buf i) buf) []) (i + 1)
unfolding parse_inline
parse_inline-words buf i found =
    let n = line_len buf i in
    let all = tokens-words n (take n buf) (omega (arith, length-take n buf)) in
    rw (found, parse_inline) (rw all refl)
