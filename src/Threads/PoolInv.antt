-- ===== src/Threads/PoolInv.antt =====
-- src/server_threaded.c: what holds whatever order the threads run in.
use mathlib.Core.List.{append_assoc}
use redis_server_c.Prelude.{
  ℕ, suc, ◌+◌, ◌≡◌, inl, inr, refl, sym, ap, ◌∙◌, true, false, [], ◌∷◌, ◌++◌, none, some, arith,
  length, length-append,
}
use redis_server_c.Threads.Queue.{WorkQueue, waits, done, wq_push, wq_pop}
use redis_server_c.Threads.Fifo.{contents, Pushed, Popped, wq_push-Pushed, wq_pop-Popped}
use redis_server_c.Threads.Pool.{
  Main, pushing, Pool, pushed, popped, Step, accept, push_waits, push, push_closes, main_wakes,
  worker_wakes, pop_waits, pop, exit, finish, shut_down, Reach, start, later,
}
use redis_server_c.Threads.Wakeups.{
  MainOk, IsPool, not_both, init-IsPool, signal-workers, signal-no_lost, signal-MainOk,
  slept-MainOk,
}

module _ (workers : ℕ) (s : Pool) (v : IsPool workers s) where
  main_is : {m : Main} → s.main ≡ m → MainOk m s.queue s.asleep
  main_is h = let ok = v.main_ok in rw h at ok

  nobody_gone : s.queue.shutdown ≡ false → s.exited ≡ 0
  nobody_gone up = elim v.gone [ inl e ↦ e | inr (down, nothing) ↦ absurd (not_both down up) ]

  push-IsPool :
      (fd : ℕ) (q : WorkQueue)
      → s.main ≡ pushing fd
      → wq_push s.queue fd ≡ done q true
      → IsPool workers (pushed s fd q)
  push-IsPool fd q h turn =
      let p : Pushed s.queue fd (done q true) =
        let p = wq_push-Pushed s.queue fd v.queue in rw turn at p in
      let (queue, more, up) = p in
      let longer : length (contents q) ≡ length (contents s.queue) + 1 =
        ap length more ∙ length-append (contents s.queue) (fd ∷ []) in
      record {
        queue = queue;
        fifo =
            ap (λ t. t ++ (fd ∷ [])) v.fifo
            ∙ append_assoc s.taken (contents s.queue) (fd ∷ [])
            ∙ ap (λ t. s.taken ++ t) (sym more);
        all_workers = omega (arith, v.all_workers, signal-workers s.ready s.asleep);
        no_lost = rw longer (signal-no_lost s.ready s.asleep _ v.no_lost);
        main_ok = up;
        gone = inl (nobody_gone (main_is h));
      }

  pop-IsPool :
      (n fd : ℕ) (q : WorkQueue)
      → s.ready ≡ suc n
      → wq_pop s.queue ≡ done q (some fd)
      → IsPool workers (popped s n fd q)
  pop-IsPool n fd q h turn =
      let p : Popped s.queue (done q (some fd)) =
        let p = wq_pop-Popped s.queue v.queue in rw turn at p in
      let (queue, first, same) = p in
      let shorter : length (contents s.queue) ≡ suc (length (contents q)) = ap length first in
      record {
        queue = queue;
        fifo =
            v.fifo
            ∙ ap (λ t. s.taken ++ t) first
            ∙ sym (append_assoc s.taken (fd ∷ []) (contents q));
        all_workers = omega (arith, v.all_workers);
        no_lost = elim v.no_lost [ inl e ↦ inl e | inr le ↦ inr (omega arith) ];
        main_ok = signal-MainOk s.main s.queue q s.asleep v.main_ok same;
        gone = elim v.gone [
          | inl e ↦ inl e
          | inr (down, nothing) ↦ absurd (omega (arith, shorter, ap length nothing))
        ];
      }

  pop_waits-IsPool :
      (n : ℕ)
      → s.ready ≡ suc n
      → wq_pop s.queue ≡ waits
      → IsPool workers (record s { ready = n; asleep = suc s.asleep })
  pop_waits-IsPool n h turn =
      let p : Popped s.queue waits = let p = wq_pop-Popped s.queue v.queue in rw turn at p in
      let (nothing, up) = p in
      record {
        queue = v.queue;
        fifo = v.fifo;
        all_workers = omega (arith, v.all_workers);
        no_lost = inr (omega (arith, ap length nothing));
        main_ok = slept-MainOk s.main s.queue s.asleep (suc s.asleep) v.main_ok (inl up);
        gone = inl (nobody_gone up);
      }

  exit-IsPool :
      (n : ℕ) (q : WorkQueue)
      → s.ready ≡ suc n
      → wq_pop s.queue ≡ done q none
      → IsPool workers (record s { queue = q; ready = n; exited = suc s.exited })
  exit-IsPool n q h turn =
      let p : Popped s.queue (done q none) =
        let p = wq_pop-Popped s.queue v.queue in rw turn at p in
      let (same, nothing, down) = p in
      rw same (record {
        queue = v.queue;
        fifo = v.fifo;
        all_workers = omega (arith, v.all_workers);
        no_lost = inr (omega (arith, ap length nothing));
        main_ok = v.main_ok;
        gone = inr (down, nothing);
      })

  Step-IsPool : {t : Pool} → Step s t → IsPool workers t
  Step-IsPool (accept fd h) = record {
    queue = v.queue;
    fifo = v.fifo;
    all_workers = v.all_workers;
    no_lost = v.no_lost;
    main_ok = main_is h;
    gone = v.gone;
  }
  Step-IsPool (push_waits fd h turn) =
      let p : Pushed s.queue fd waits = let p = wq_push-Pushed s.queue fd v.queue in rw turn at p in
      record {
        queue = v.queue;
        fifo = v.fifo;
        all_workers = v.all_workers;
        no_lost = v.no_lost;
        main_ok = (p.1, p.0);
        gone = v.gone;
      }
  Step-IsPool (push fd q h turn) = push-IsPool fd q h turn
  Step-IsPool (push_closes fd q h turn) =
      let p : Pushed s.queue fd (done q false) =
        let p = wq_push-Pushed s.queue fd v.queue in rw turn at p in
      absurd (not_both p.1 (main_is h))
  Step-IsPool (main_wakes fd h) = record {
    queue = v.queue;
    fifo = v.fifo;
    all_workers = v.all_workers;
    no_lost = v.no_lost;
    main_ok = (main_is h).0;
    gone = v.gone;
  }
  Step-IsPool (worker_wakes n h) = record {
    queue = v.queue;
    fifo = v.fifo;
    all_workers = omega (arith, v.all_workers);
    no_lost = elim v.no_lost [ inl e ↦ absurd (omega arith) | inr le ↦ inr (omega arith) ];
    main_ok = slept-MainOk s.main s.queue s.asleep n v.main_ok (inr (omega arith));
    gone = v.gone;
  }
  Step-IsPool (pop_waits n h turn) = pop_waits-IsPool n h turn
  Step-IsPool (pop n fd q h turn) = pop-IsPool n fd q h turn
  Step-IsPool (exit n q h turn) = exit-IsPool n q h turn
  Step-IsPool (finish fd before after h) = record {
    queue = v.queue;
    fifo = v.fifo;
    all_workers = omega (
      arith,
      v.all_workers,
      ap length h,
      length-append before (fd ∷ after),
      length-append before after,
    );
    no_lost = elim v.no_lost [ inl e ↦ inl e | inr le ↦ inr (omega arith) ];
    main_ok = v.main_ok;
    gone = v.gone;
  }
  Step-IsPool (shut_down h) = record {
    queue = record {
      size = v.queue.size;
      start = v.queue.start;
      few = v.queue.few;
      end = v.queue.end;
    };
    fifo = v.fifo;
    all_workers = omega (arith, v.all_workers);
    no_lost = inl refl;
    main_ok = (refl, refl);
    gone = inl (nobody_gone (main_is h));
  }

pub Reach-IsPool : {workers : ℕ} {s : Pool} → Reach workers s → IsPool workers s
Reach-IsPool {workers} start = init-IsPool workers
Reach-IsPool {workers} (later {s} r step) = Step-IsPool workers s (Reach-IsPool r) step
