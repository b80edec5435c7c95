-- ===== src/Threads/Progress.antt =====
-- src/server_threaded.c: every connection that is queued is handled, and the threads end.
use mathlib.Core.List.{append-nil}
use redis_server_c.Prelude.{ℕ, ◌+◌, ◌≤◌, ◌<◌, ◌≡◌, inl, inr, ap, ◌∙◌, ◌++◌, arith, length}
use redis_server_c.Threads.Fifo.{contents, length-around}
use redis_server_c.Threads.Pool.{joining, sleeping, Pool, Reach}
use redis_server_c.Threads.Wakeups.{MainOk}
use redis_server_c.Threads.PoolInv.{Reach-IsPool}

-- In whatever order the threads run, the workers take the connections in the order in which they
-- were queued, each of them once; those not yet taken are in the queue, 512 at most.
pub taken_in_order :
    {workers : ℕ} {s : Pool}
    → Reach workers s
    → (s.queued ≡ s.taken ++ contents s.queue) × (length (contents s.queue) ≤ 512)
taken_in_order {s} r =
    let v = Reach-IsPool r in
    (v.fifo, omega (arith, v.queue.few, length-around s.queue.fds s.queue.head s.queue.count))

module _ {workers : ℕ} {s : Pool} (r : Reach workers s) (some_workers : 0 < workers) where
  -- With at least one worker and in whatever order the threads run, while a connection waits in
  -- the queue a worker is about to take one or handles one: no wake-up is lost.
  pub worker_awake : 0 < length (contents s.queue) → 0 < s.ready + length s.busy
  worker_awake waiting =
      let v = Reach-IsPool r in
      elim v.gone [
        | inr (down, nothing) ↦ absurd (omega (arith, ap length nothing))
        | inl here ↦ elim v.no_lost [
          | inl none_asleep ↦ omega (arith, v.all_workers)
          | inr le ↦ omega (arith, le)
        ]
      ]

  -- The main thread sleeps only while 512 connections wait, and then a worker is awake.
  pub main_asleep :
      (fd : ℕ)
      → s.main ≡ sleeping fd
      → (length (contents s.queue) ≡ 512) × (0 < s.ready + length s.busy)
  main_asleep fd h =
      let v = Reach-IsPool r in
      let ok : MainOk (sleeping fd) s.queue s.asleep = let ok = v.main_ok in rw h at ok in
      (ok.1, worker_awake (omega (arith, ok.1)))

  -- With at least one worker, once `main` joins the workers and none of them is ready or busy, all
  -- have returned, and every connection that was queued has been taken.
  pub workers_end :
      s.main ≡ joining
      → s.ready ≡ 0
      → length s.busy ≡ 0
      → (s.exited ≡ workers) × (s.queued ≡ s.taken)
  workers_end h none_ready none_busy =
      let v = Reach-IsPool r in
      let ok : MainOk joining s.queue s.asleep = let ok = v.main_ok in rw h at ok in
      let all : s.exited ≡ workers = omega (arith, v.all_workers, ok.1) in
      elim v.gone [
        | inl nobody ↦ absurd (omega arith)
        | inr (down, nothing) ↦ (all, v.fifo ∙ ap (λ t. s.taken ++ t) nothing ∙ append-nil s.taken)
      ]
