-- ===== src/Growth.antt =====
-- The loop by which every growable buffer of the program doubles its capacity (src/resp.c,
-- src/persist.c, src/server.c and src/server_threaded.c).
use native.Mathlib.Nat.{two-pow-succ, mul_assoc}
use redis_server_c.Prelude.{
  ℕ, zero, suc, ◌+◌, ◌*◌, ◌%◌, ◌^◌, ◌≤◌, ◌<◌, ◌≡◌, arith, ltb, ◌==◌, if◌then◌else◌, Bool-cases, inl,
  inr,
}

-- `while (newcap < need) newcap *= 2`, at most 64 times for a `size_t`.
unfoldable pub double_until : ℕ → ℕ → ℕ → ℕ
double_until zero newcap need = newcap
double_until (suc rounds) newcap need =
    let rest = double_until rounds (newcap * 2 % 2 ^ 64) need in
    if ltb newcap need then rest else newcap

-- `newcap = cap ? cap * 2 : initial` with the loop.
unfoldable pub grown : ℕ → ℕ → ℕ → ℕ
unfolding double_until
grown initial cap need = double_until 64 (if cap == 0 then initial else cap * 2 % 2 ^ 64) need

-- The loop ends by its own test, above the need and not above 2 ^ 63.
double_until_enough :
    (rounds newcap need : ℕ)
    → need ≤ 2 ^ 62
    → need ≤ newcap * 2 ^ rounds
    → newcap ≤ 2 ^ 63
    → (need ≤ double_until rounds newcap need) × (double_until rounds newcap need ≤ 2 ^ 63)
unfolding double_until
double_until_enough zero newcap need small enough top = (omega arith, omega arith)
double_until_enough (suc rounds) newcap need small enough top =
    elim (Bool-cases (ltb newcap need)) [
      | inr done ↦ rw (done, double_until) (ground (arith, done), top)
      | inl short ↦
          let lt : newcap < need = ground (arith, short) in
          let e : newcap * 2 % 2 ^ 64 ≡ newcap * 2 = omega arith in
          let enough' : need ≤ newcap * 2 * 2 ^ rounds =
            let d : 2 * 2 ^ rounds ≡ 2 ^ rounds + 2 ^ rounds = omega arith in
            rw (mul_assoc newcap 2 (2 ^ rounds), d) (rw two-pow-succ at enough) in
          rw (short, e, double_until)
            (double_until_enough rounds (newcap * 2) need small enough' (omega arith))
    ]

-- A capacity that was too small becomes large enough.
pub grown_enough :
    (initial cap need : ℕ)
    → 0 < initial
    → initial ≤ 2 ^ 62
    → cap < need
    → need ≤ 2 ^ 62
    → (need ≤ grown initial cap need) × (grown initial cap need ≤ 2 ^ 63)
unfolding grown
grown_enough initial cap need pos top short small =
    double_until_enough 64 (if cap == 0 then initial else cap * 2 % 2 ^ 64) need small
      (ground arith) (ground arith)
