-- ===== src/Cmd/Wording.antt =====
-- src/cmd.c: `arg_eq_ci` and the rounding of TTL, against what the promises say in their place.
use redis_server_c.Prelude.{
  ℕ, suc, ◌+◌, ◌/◌, ◌≡◌, refl, ap, ap₂, ◌∙◌, Bool, true, false, ◌&&◌, [], ◌∷◌, Option, none, some,
  arith, Bytes, length, ◌==◌, if◌then◌else◌, Bool-cases, inl, inr,
}
use redis_server_c.Prelude.Int.{ℤ, pos, negsuc, pos_part, is_zero, ltb_ℤ, ◌-ℤ◌}
use redis_server_c.Store.Chain.{Entry}
use redis_server_c.Store.Spec.{remaining}
use redis_server_c.Cmd.Args.{to_lower, same_ci, arg_eq_ci}
use redis_server_c.Cmd.Keyspace.{ttl_reply}
use redis_server_c.Cmd.Promise.{same_letter, spelled, seconds_for, same_time, time_left}

to_lower-same_letter : (c u : ℕ) → (to_lower c == to_lower u) ≡ same_letter c u
to_lower-same_letter c u = ground arith

longer : (b : Bool) (m n : ℕ) → ((suc m == suc n) && b) ≡ ((m == n) && b)
longer b m n = ground arith

moved : (l x y : Bool) → (l && (x && y)) ≡ (x && (l && y))
moved true x y = refl
moved false true y = refl
moved false false y = refl

pub arg_eq_ci-spelled : (a b : Bytes) → arg_eq_ci a b ≡ spelled a b
unfolding arg_eq_ci same_ci spelled
arg_eq_ci-spelled [] [] = refl
arg_eq_ci-spelled [] (u ∷ t) = ground arith
arg_eq_ci-spelled (c ∷ s) [] = ground arith
arg_eq_ci-spelled (c ∷ s) (u ∷ t) =
    longer _ (length s) (length t)
    ∙ moved (length s == length t) (to_lower c == to_lower u) (same_ci s t (length t))
    ∙ ap₂ ◌&&◌ (to_lower-same_letter c u) (arg_eq_ci-spelled s t)

-- The unit of TTL, or of PTTL.
abbrev pub unit_of : Bool → ℕ → ℕ
unit_of want_ms = if want_ms then same_time else seconds_for

rounded : (n : ℕ) → (n + 999) / 1000 ≡ seconds_for n
rounded n = ground arith

positive : (want_ms : Bool) (n : ℕ) → ttl_reply want_ms (pos n) ≡ pos (unit_of want_ms n)
positive true n = refl
positive false n = ap pos (rounded n)

clamped : (r : ℤ) → (if ltb_ℤ (pos 0) r then r else pos 0) ≡ pos (pos_part r)
clamped (pos n) = ground arith
clamped (negsuc n) = ground arith

pub ttl_reply-time_left :
    (want_ms : Bool) (later : ℤ) (o : Option Entry)
    → ttl_reply want_ms (remaining later o) ≡ time_left (unit_of want_ms) later o
ttl_reply-time_left want_ms later none = refl
ttl_reply-time_left want_ms later (some e) = elim (Bool-cases (is_zero e.expire_at_ms)) [
  | inl stays ↦ rw stays refl
  | inr ends ↦ rw ends (
      ap (ttl_reply want_ms) (clamped (e.expire_at_ms -ℤ later))
      ∙ positive want_ms (pos_part (e.expire_at_ms -ℤ later)))
]
