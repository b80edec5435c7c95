-- ===== src/Threads/Wakeups.antt =====
-- src/server_threaded.c: the invariant of the pool, and what a signal does to it.

use redis_server_c.Prelude.{
  ℕ, zero, suc, ◌+◌, ◌≤◌, ◌≡◌, ◌⊎◌, inl, inr, refl, ◌∙◌, Bool, true, false, [], ◌++◌, arith, length,
}
use redis_server_c.Threads.Queue.{WorkQueue}
use redis_server_c.Threads.Fifo.{contents, IsQueue, wq_init-IsQueue}
use redis_server_c.Threads.Pool.{
  Main, accepting, joining, pushing, sleeping, Pool, signal_not_empty, signal_not_full, init,
}

-- The main thread sleeps only while the queue is full, and no worker sleeps once it joins them.
abbrev pub MainOk : Main → WorkQueue → ℕ → Type 0
MainOk accepting q asleep = q.shutdown ≡ false
MainOk (pushing fd) q asleep = q.shutdown ≡ false
MainOk (sleeping fd) q asleep = (q.shutdown ≡ false) × (length (contents q) ≡ 512)
MainOk joining q asleep = (q.shutdown ≡ true) × (asleep ≡ 0)

pub record IsPool (workers : ℕ) (s : Pool) : Type 0 where
  pub queue : IsQueue s.queue
  pub fifo : s.queued ≡ s.taken ++ contents s.queue
  pub all_workers : s.ready + s.asleep + length s.busy + s.exited ≡ workers
  -- No wake-up is lost: while workers sleep, there is a ready one for every descriptor.
  pub no_lost : (s.asleep ≡ 0) ⊎ (length (contents s.queue) ≤ s.ready)
  pub main_ok : MainOk s.main s.queue s.asleep
  -- A worker returns only when the queue is empty for good.
  pub gone : (s.exited ≡ 0) ⊎ ((s.queue.shutdown ≡ true) × (contents s.queue ≡ []))

pub not_both : {b : Bool} → b ≡ true → ¬ (b ≡ false)
not_both h k = cc

pub init-IsPool : (workers : ℕ) → IsPool workers (init workers)
init-IsPool workers = record {
  queue = wq_init-IsQueue;
  fifo = refl;
  all_workers = omega arith;
  no_lost = inl refl;
  main_ok = refl;
  gone = inl refl;
}

pub signal-workers :
    (ready asleep : ℕ)
    → (signal_not_empty ready asleep).0 + (signal_not_empty ready asleep).1 ≡ ready + asleep
signal-workers ready zero = refl
signal-workers ready (suc asleep) = omega arith

-- One more descriptor and one more signal.
pub signal-no_lost :
    (ready asleep waiting : ℕ)
    → (asleep ≡ 0) ⊎ (waiting ≤ ready)
    → ((signal_not_empty ready asleep).1 ≡ 0) ⊎ (waiting + 1 ≤ (signal_not_empty ready asleep).0)
signal-no_lost ready zero waiting h = inl refl
signal-no_lost ready (suc asleep) waiting (inl e) = absurd (omega arith)
signal-no_lost ready (suc asleep) waiting (inr le) = inr (omega arith)

pub signal-MainOk :
    (m : Main) (q q' : WorkQueue) (asleep : ℕ)
    → MainOk m q asleep
    → q'.shutdown ≡ q.shutdown
    → MainOk (signal_not_full m) q' asleep
signal-MainOk accepting q q' asleep ok same = same ∙ ok
signal-MainOk joining q q' asleep (down, none_) same = (same ∙ down, none_)
signal-MainOk (pushing fd) q q' asleep ok same = same ∙ ok
signal-MainOk (sleeping fd) q q' asleep (up, full) same = same ∙ up

-- More workers may sleep as long as the server runs, and fewer at any time.
pub slept-MainOk :
    (m : Main) (q : WorkQueue) (asleep asleep' : ℕ)
    → MainOk m q asleep
    → (q.shutdown ≡ false) ⊎ (asleep' ≤ asleep)
    → MainOk m q asleep'
slept-MainOk accepting q asleep asleep' ok h = ok
slept-MainOk (pushing fd) q asleep asleep' ok h = ok
slept-MainOk (sleeping fd) q asleep asleep' ok h = ok
slept-MainOk joining q asleep asleep' (down, none_) (inl up) = absurd (not_both down up)
slept-MainOk joining q asleep asleep' (down, none_) (inr le) = (down, omega arith)
