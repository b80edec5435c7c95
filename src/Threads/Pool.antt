-- ===== src/Threads/Pool.antt =====
-- src/server_threaded.c: the accept loop of `main`, `worker_thread` and `wq_shutdown` as the steps of
-- threads that take turns with the queue's mutex.
use redis_server_c.Prelude.{ℕ, zero, suc, ◌+◌, ◌≡◌, true, false, List, [], ◌∷◌, ◌++◌, none, some}
use redis_server_c.Threads.Queue.{WorkQueue, wq_init, waits, done, wq_push, wq_pop, wq_shutdown}

-- The main thread: in the accept loop, about to take a turn in `wq_push`, asleep there on
-- `not_full`, and in `pthread_join` after `wq_shutdown`.
pub data Main : Type 0 where
  accepting joining : Main
  pushing sleeping : ℕ → Main

-- The workers that are about to take a turn in `wq_pop`, those asleep there on `not_empty`, the
-- descriptors that workers handle, and the workers that have returned. Besides, the descriptors that
-- have been queued and those that workers have taken, the oldest first.
pub record Pool : Type 0 where
  pub queue : WorkQueue
  pub main : Main
  pub ready : ℕ
  pub asleep : ℕ
  pub busy : List ℕ
  pub exited : ℕ
  pub queued : List ℕ
  pub taken : List ℕ

-- `pthread_cond_signal(&q->not_empty)`: one of the workers asleep, if there is one, is ready again.
abbrev pub signal_not_empty : ℕ → ℕ → ℕ × ℕ
signal_not_empty ready zero = (ready, zero)
signal_not_empty ready (suc asleep) = (suc ready, asleep)

-- `pthread_cond_signal(&q->not_full)`: only the main thread may sleep there.
abbrev pub signal_not_full : Main → Main
signal_not_full accepting = accepting
signal_not_full joining = joining
signal_not_full (pushing fd) = pushing fd
signal_not_full (sleeping fd) = pushing fd

abbrev pub init : ℕ → Pool
init workers = record {
  queue = wq_init;
  main = accepting;
  ready = workers;
  asleep = 0;
  busy = [];
  exited = 0;
  queued = [];
  taken = [];
}

-- A push that is done, and a pop that is done with a descriptor.
abbrev pub pushed : Pool → ℕ → WorkQueue → Pool
pushed s fd q = record s {
  queue = q;
  main = accepting;
  ready = (signal_not_empty s.ready s.asleep).0;
  asleep = (signal_not_empty s.ready s.asleep).1;
  queued = s.queued ++ (fd ∷ []);
}

abbrev pub popped : Pool → ℕ → ℕ → WorkQueue → Pool
popped s n fd q = record s {
  queue = q;
  main = signal_not_full s.main;
  ready = n;
  busy = fd ∷ s.busy;
  taken = s.taken ++ (fd ∷ []);
}

pub data Step (s : Pool) : Pool → Type 0 where
  accept : (fd : ℕ) → s.main ≡ accepting → Step s (record s { main = pushing fd })
  push_waits :
      (fd : ℕ)
      → s.main ≡ pushing fd
      → wq_push s.queue fd ≡ waits
      → Step s (record s { main = sleeping fd })
  push :
      (fd : ℕ) (q : WorkQueue)
      → s.main ≡ pushing fd
      → wq_push s.queue fd ≡ done q true
      → Step s (pushed s fd q)
  push_closes :
      (fd : ℕ) (q : WorkQueue)
      → s.main ≡ pushing fd
      → wq_push s.queue fd ≡ done q false
      → Step s (record s { queue = q; main = accepting })
  -- A wake-up for no reason, which the loops around `pthread_cond_wait` allow for.
  main_wakes : (fd : ℕ) → s.main ≡ sleeping fd → Step s (record s { main = pushing fd })
  worker_wakes : (n : ℕ) → s.asleep ≡ suc n → Step s (record s { ready = suc s.ready; asleep = n })
  pop_waits :
      (n : ℕ)
      → s.ready ≡ suc n
      → wq_pop s.queue ≡ waits
      → Step s (record s { ready = n; asleep = suc s.asleep })
  pop :
      (n fd : ℕ) (q : WorkQueue)
      → s.ready ≡ suc n
      → wq_pop s.queue ≡ done q (some fd)
      → Step s (popped s n fd q)
  exit :
      (n : ℕ) (q : WorkQueue)
      → s.ready ≡ suc n
      → wq_pop s.queue ≡ done q none
      → Step s (record s { queue = q; ready = n; exited = suc s.exited })
  -- `handle_conn` returns.
  finish :
      (fd : ℕ) (before after : List ℕ)
      → s.busy ≡ before ++ (fd ∷ after)
      → Step s (record s { ready = suc s.ready; busy = before ++ after })
  -- Both broadcasts; the main thread itself is not asleep.
  shut_down :
      s.main ≡ accepting
      → Step s (record s {
        queue = wq_shutdown s.queue;
        main = joining;
        ready = s.ready + s.asleep;
        asleep = 0;
      })

-- The states that any order of the steps reaches with so many workers.
pub data Reach (workers : ℕ) : Pool → Type 0 where
  start : Reach workers (init workers)
  later : {s t : Pool} → Reach workers s → Step s t → Reach workers t
