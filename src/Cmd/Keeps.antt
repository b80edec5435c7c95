-- ===== src/Cmd/Keeps.antt =====
-- src/cmd.c: the handlers of the commands on keys keep their promises.
use mathlib.Core.List.{append_assoc}
use redis_server_c.Prelude.{
  ◌≡◌, ◌+◌, ◌^◌, ◌%◌, ◌≤◌, ◌<◌, refl, sym, ap, ◌∙◌, Bool, true, false, not, ◌&&◌, ◌||◌, List, ◌∷◌,
  ◌++◌, Option, none, some, arith, Bytes, codes, length, drop, length-drop, ltb, ◌==◌,
  if◌then◌else◌,
}
use redis_server_c.Prelude.Int.{
  int64, int64_fits, ℤ, pos, negsuc, ◌+ℤ◌, ◌*ℤ◌, ◌-ℤ◌, is_zero, ltb_ℤ, int64_min,
}
use redis_server_c.Store.Number.{parse_strict_ll, print_ℕ}
use redis_server_c.Store.Ops.{IncrResult, incr_ok, incr_not_integer, incr_overflow}
use redis_server_c.Store.Ops.Reads.{store_get-Refines, store_expire-Refines, store_ttl_ms-Refines}
use redis_server_c.Store.Ops.Writes.{store_set-Refines}
use redis_server_c.Store.Ops.Incr.{store_incrby-Refines}
use redis_server_c.Resp.Reply.{RespBuf, crlf, resp_reply_integer, resp_reply_array_header}
use redis_server_c.Resp.Buffer.{resp_buf_append-data_}
use redis_server_c.Cmd.Args.{arg, reply_wrong_arity}
use redis_server_c.Cmd.State.{Env, Handled, Server}
use redis_server_c.Cmd.Keyspace.{
  Expiry, expire_at, refused, set_number, set_expiry, set_with, reply_value, reply_incr_result,
  incr_by, expire_with, ttl_reply, cmd_set, cmd_get, cmd_del, cmd_exists, cmd_expire,
  cmd_ttl_generic, cmd_incr, cmd_decr,
}
use redis_server_c.Cmd.Many.{incrby_with, cmd_incrby_generic, cmd_mget, cmd_mset}
use redis_server_c.Cmd.Reply.{items}
use redis_server_c.Cmd.Promise
use redis_server_c.Cmd.Promise.{
  spelled, arity_text, print, Reply, number, single, many, print, Abstract, Outcome, failure,
  stored, stored_for, seconds, milliseconds, get_each, set_each, del_each, exists_each, expire_in,
  incr_reply, add, add_parsed,
}
use redis_server_c.Cmd.Promised.{
  in_range, lifetime_fits, option_fits, set_fits, number_fits, expire_fits,
}
use redis_server_c.Cmd.Wording.{arg_eq_ci-spelled, unit_of, ttl_reply-time_left}
use redis_server_c.Store.Spec
use redis_server_c.Cmd.Fulfils.{
  Represents, Fulfils, Prints, status-Prints, failure-Prints, number-Prints, single-Prints, answers,
  choose, Represents-with, called, arity-Fulfils,
}
use redis_server_c.Cmd.Loops.{del_all-Refines, exists_all-Refines, set_all-Models, get_all-Keeps}

-- In range, the sums of the code are the sums themselves.
in_time :
    (env : Env) (in_ms : ℤ → ℤ) (n : ℤ)
    → in_range env in_ms n ≡ true
    → int64 (env.now_ms 0 +ℤ int64 (in_ms n)) ≡ env.now_ms 0 +ℤ in_ms n
in_time env in_ms n fits =
    rw (int64_fits (in_ms n) (ground (arith, fits)))
      (int64_fits (env.now_ms 0 +ℤ in_ms n) (ground (arith, fits)))

in_time_ms :
    (env : Env) (n : ℤ)
    → in_range env milliseconds n ≡ true
    → int64 (env.now_ms 0 +ℤ n) ≡ env.now_ms 0 +ℤ n
in_time_ms env n fits = int64_fits (env.now_ms 0 +ℤ n) (ground (arith, fits))

module _ (env : Env) (g : Server) (a : Abstract) (v : Represents a g) (argv : List Bytes) where
  pub cmd_get-Fulfils : Fulfils (cmd_get env g argv) (Promise.get env a argv)
  unfolding cmd_get Promise.get
  cmd_get-Fulfils = arity-Fulfils (not (length argv == 2)) argv v (
      called a g (λ x out. reply_value out x) single _ _ v single-Prints
        (store_get-Refines a.dict g.store v.models (arg argv 1) (env.now_ms 0)))

  pub cmd_mget-Fulfils : Fulfils (cmd_mget env g argv) (Promise.mget env a argv)
  unfolding cmd_mget Promise.mget resp_reply_array_header
  cmd_mget-Fulfils =
      let keys = drop 1 argv in
      let start = λ (out : RespBuf). resp_reply_array_header out (length keys) in
      let all = λ (out : RespBuf). get_all-Keeps env 0 keys a.dict g.store (start out) v.models in
      let vs = (get_each env 0 a.dict keys).1 in
      arity-Fulfils (ltb (length argv) 2) argv v (record {
        represents = λ out. Represents-with a g _ _ v (all out).0;
        replied = λ out.
            (all out).1
            ∙ ap (λ t. t ++ items vs)
                (resp_buf_append-data_ out (b'*' ∷ (print_ℕ (length keys) ++ crlf)))
            ∙ append_assoc out.data_ (b'*' ∷ (print_ℕ (length keys) ++ crlf)) (items vs)
            ∙ ap (λ n. out.data_ ++ ((b'*' ∷ (print_ℕ n ++ crlf)) ++ items vs)) (sym (all out).2);
      })

  pub cmd_del-Fulfils : Fulfils (cmd_del env g argv) (Promise.del env a argv)
  unfolding cmd_del Promise.del
  cmd_del-Fulfils = arity-Fulfils (ltb (length argv) 2) argv v (
      called a g (λ n out. resp_reply_integer out (pos n)) (λ n. number (pos n)) _ _ v
        (λ n. number-Prints (pos n))
        (del_all-Refines (drop 1 argv) a.dict g.store 0 0 v.models refl))

  pub cmd_exists-Fulfils : Fulfils (cmd_exists env g argv) (Promise.exists env a argv)
  unfolding cmd_exists Promise.exists
  cmd_exists-Fulfils = arity-Fulfils (ltb (length argv) 2) argv v (
      called a g (λ n out. resp_reply_integer out (pos n)) (λ n. number (pos n)) _ _ v
        (λ n. number-Prints (pos n))
        (exists_all-Refines env 0 (drop 1 argv) a.dict g.store 0 0 v.models refl))

  expire_with-Fulfils :
      (n : Option ℤ)
      → number_fits env n ≡ true
      → Fulfils (λ out. expire_with env g argv out n) (expire_in env a argv n)
  unfolding expire_with expire_in
  expire_with-Fulfils none fits = answers v (failure-Prints _)
  expire_with-Fulfils (some n) fits = rw (sym (in_time env seconds n fits)) (
      called a g (λ ok out. resp_reply_integer out (if ok == 0 then pos 0 else pos 1))
        (λ ok. number (if ok == 0 then pos 0 else pos 1)) _ _ v (λ ok. number-Prints _)
        (store_expire-Refines a.dict g.store v.models (arg argv 1) (env.now_ms 1)
          (int64 (env.now_ms 0 +ℤ int64 (n *ℤ pos 1000)))))

  -- Where the number of arguments is right, the time fits.
  counted :
      (b fits : Bool) {f h : RespBuf → Handled} {p q : Outcome}
      → (if b then fits else true) ≡ true
      → (fits ≡ true → Fulfils f p)
      → Fulfils h q
      → Fulfils (λ out. if not b then h out else f out) (if not b then q else p)
  counted true fits h x y = x h
  counted false fits h x y = y

  pub cmd_expire-Fulfils :
      expire_fits env argv ≡ true → Fulfils (cmd_expire env g argv) (Promise.expire env a argv)
  unfolding cmd_expire Promise.expire reply_wrong_arity
  cmd_expire-Fulfils fits =
      counted (length argv == 3) (number_fits env (parse_strict_ll (arg argv 2))) fits
        (expire_with-Fulfils (parse_strict_ll (arg argv 2)))
        (answers v (failure-Prints (arity_text argv)))

  pub cmd_ttl_generic-Fulfils :
      (want_ms : Bool)
      → Fulfils (cmd_ttl_generic want_ms env g argv) (Promise.ttl (unit_of want_ms) env a argv)
  unfolding cmd_ttl_generic Promise.ttl Spec.ttl
  cmd_ttl_generic-Fulfils want_ms =
      let found = Spec.at a.dict (arg argv 1) (env.now_ms 0) in
      let r =
        called a g (λ t out. resp_reply_integer out (ttl_reply want_ms t))
          (λ t. number (ttl_reply want_ms t)) _ _ v (λ t. number-Prints _)
          (store_ttl_ms-Refines a.dict g.store v.models (arg argv 1) (env.now_ms 0)
            (env.now_ms 1)) in
      arity-Fulfils (not (length argv == 2)) argv v (record {
        represents = r.represents;
        replied = λ out.
            r.replied out
            ∙ ap (λ t. out.data_ ++ print (number t))
                (ttl_reply-time_left want_ms (env.now_ms 1) found);
      })

  -- The map is small enough for the new keys.
  module _ (named : 1 ≤ length argv) (room : a.dict.card + length argv ≤ 2 ^ 62) where
    few : a.dict.card < 2 ^ 62
    few = omega arith

    stored-Fulfils : (x : ℤ) → Fulfils (λ out. set_with g argv out (expire_at x)) (stored a argv x)
    unfolding set_with
    stored-Fulfils x =
        answers
          (Represents-with a g _ _ v
            (store_set-Refines a.dict g.store v.models (arg argv 1) (arg argv 2) x few).0)
          (status-Prints _)

    refused-Fulfils : (m : Bytes) → Fulfils (λ out. set_with g argv out (refused m)) (a, failure m)
    unfolding set_with
    refused-Fulfils m = answers v (failure-Prints m)

    -- A number that is accepted, and what is stored until then.
    accepted :
        (b : Bool) (x y : ℤ) (m : Bytes)
        → (b ≡ true → x ≡ y)
        → Fulfils
            (λ out. set_with g argv out (if b then expire_at x else refused m))
            (if b then stored a argv y else (a, failure m))
    accepted true x y m e = rw (e refl) (stored-Fulfils y)
    accepted false x y m e = refused-Fulfils m

    positive_fits :
        (in_ms : ℤ → ℤ) (n : ℤ)
        → lifetime_fits env in_ms (some n) ≡ true
        → ltb_ℤ (pos 0) n ≡ true
        → in_range env in_ms n ≡ true
    positive_fits in_ms n fits more = rw more at fits

    set_number-Fulfils :
        (is_ex : Bool) (n : Option ℤ)
        → lifetime_fits env (if is_ex then seconds else milliseconds) n ≡ true
        → Fulfils
            (λ out. set_with g argv out (set_number is_ex (env.now_ms 0) n))
            (stored_for env a argv (if is_ex then seconds else milliseconds) n)
    unfolding set_number stored_for
    set_number-Fulfils is_ex none fits = refused-Fulfils _
    set_number-Fulfils true (some n) fits =
        accepted (ltb_ℤ (pos 0) n) _ _ _
          (λ more. in_time env seconds n (positive_fits seconds n fits more))
    set_number-Fulfils false (some n) fits =
        accepted (ltb_ℤ (pos 0) n) _ _ _
          (λ more. in_time_ms env n (positive_fits milliseconds n fits more))

    -- The third argument is EX, PX or something else.
    set_option-Fulfils :
        (is_ex is_px : Bool) (n : Option ℤ)
        → (if is_ex
            then lifetime_fits env seconds n
            else if is_px
            then lifetime_fits env milliseconds n
            else true)
          ≡ true
        → Fulfils
            (λ out. set_with g argv out (
              if not is_ex && not is_px
              then refused (codes "ERR syntax error")
              else set_number is_ex (env.now_ms 0) n))
            (if is_ex
              then stored_for env a argv seconds n
              else if is_px
              then stored_for env a argv milliseconds n
              else (a, failure (codes "ERR syntax error")))
    set_option-Fulfils true is_px n fits = set_number-Fulfils true n fits
    set_option-Fulfils false true n fits = set_number-Fulfils false n fits
    set_option-Fulfils false false n fits = refused-Fulfils _

    -- With and without an option.
    optional :
        (b fits : Bool) (x y : Expiry) {p q : Outcome}
        → (if b then fits else true) ≡ true
        → (fits ≡ true → Fulfils (λ out. set_with g argv out x) p)
        → Fulfils (λ out. set_with g argv out y) q
        → Fulfils (λ out. set_with g argv out (if b then x else y)) (if b then p else q)
    optional true fits x y h kept other = kept h
    optional false fits x y h other kept = kept

    pub cmd_set-Fulfils :
        set_fits env argv ≡ true → Fulfils (cmd_set env g argv) (Promise.set env a argv)
    unfolding cmd_set set_expiry Promise.set
    cmd_set-Fulfils fits = arity-Fulfils (not (length argv == 3) && not (length argv == 5)) argv v (
        optional (length argv == 5) (option_fits env argv) _ _ fits
          (λ there.
            rw
              (
                arg_eq_ci-spelled (arg argv 3) (codes "EX"),
                arg_eq_ci-spelled (arg argv 3) (codes "PX"),
              )
              (set_option-Fulfils (spelled (arg argv 3) (codes "EX"))
                (spelled (arg argv 3) (codes "PX")) (parse_strict_ll (arg argv 4)) there))
          (stored-Fulfils (pos 0)))

    pub cmd_mset-Fulfils : Fulfils (cmd_mset env g argv) (Promise.mset env a argv)
    unfolding cmd_mset Promise.mset
    cmd_mset-Fulfils = arity-Fulfils (ltb (length argv) 3 || (length argv % 2 == 0)) argv v (
        answers
          (Represents-with a g _ _ v (
            set_all-Models (drop 1 argv) a.dict g.store v.models
              (omega (arith, length-drop 1 argv))))
          (status-Prints _))

    incr-Prints : (r : IncrResult) → Prints (λ out. reply_incr_result out r) (incr_reply r)
    unfolding reply_incr_result
    incr-Prints (incr_ok, n) = number-Prints n
    incr-Prints (incr_not_integer, n) = failure-Prints _
    incr-Prints (incr_overflow, n) = failure-Prints _

    incr_by-Fulfils :
        (delta : ℤ) → Fulfils (λ out. incr_by env g argv out delta) (add env a argv delta)
    unfolding incr_by add
    incr_by-Fulfils delta =
        called a g (λ r out. reply_incr_result out r) incr_reply _ _ v incr-Prints
          (store_incrby-Refines a.dict g.store v.models (arg argv 1) delta (env.now_ms 0) few)

    pub cmd_incr-Fulfils : Fulfils (cmd_incr env g argv) (Promise.by_one (pos 1) env a argv)
    unfolding cmd_incr Promise.by_one
    cmd_incr-Fulfils = arity-Fulfils (not (length argv == 2)) argv v (incr_by-Fulfils (pos 1))

    pub cmd_decr-Fulfils : Fulfils (cmd_decr env g argv) (Promise.by_one (negsuc 0) env a argv)
    unfolding cmd_decr Promise.by_one
    cmd_decr-Fulfils = arity-Fulfils (not (length argv == 2)) argv v (incr_by-Fulfils (negsuc 0))

    incrby_with-Fulfils :
        (negated : Bool) (delta : Option ℤ)
        → Fulfils
            (λ out. incrby_with negated env g argv out delta)
            (add_parsed negated env a argv delta)
    unfolding incrby_with add_parsed
    incrby_with-Fulfils negated none = answers v (failure-Prints _)
    incrby_with-Fulfils negated (some delta) =
        choose (negated && is_zero (delta -ℤ int64_min)) (answers v (failure-Prints _))
          (incr_by-Fulfils (if negated then pos 0 -ℤ delta else delta))

    pub cmd_incrby_generic-Fulfils :
        (negated : Bool)
        → Fulfils (cmd_incrby_generic negated env g argv) (Promise.by_number negated env a argv)
    unfolding cmd_incrby_generic Promise.by_number
    cmd_incrby_generic-Fulfils negated =
        arity-Fulfils (not (length argv == 3)) argv v
          (incrby_with-Fulfils negated (parse_strict_ll (arg argv 2)))
