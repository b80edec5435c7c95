-- ===== src/Threads/Queue.antt =====
-- src/server_threaded.c: `work_queue_t` and what its functions do under the mutex.
use redis_server_c.Prelude.{
  ℕ, ◌+◌, ◌-◌, ◌%◌, Bool, true, false, not, ◌&&◌, List, Option, none, some, get_or, set, replicate,
  ltb, ◌==◌, if◌then◌else◌,
}

-- QUEUE_CAPACITY
abbrev pub queue_capacity : ℕ
queue_capacity = 512

-- `work_queue_t` but for the mutex and the condition variables.
pub record WorkQueue : Type 0 where
  pub fds : List ℕ
  pub head : ℕ
  pub tail : ℕ
  pub count : ℕ
  pub shutdown : Bool

-- The array of the static `g_queue` is zero at the start.
abbrev pub wq_init : WorkQueue
wq_init = record {
  fds = replicate queue_capacity 0;
  head = 0;
  tail = 0;
  count = 0;
  shutdown = false;
}

-- What a call does in one turn with the mutex: it waits on its condition variable, or is done.
pub data Turn {ℓ} (A : Type ℓ) : Type ℓ where
  waits : Turn A
  done : WorkQueue → A → Turn A

-- The result is whether the descriptor has been queued; otherwise it has been closed.
unfoldable pub wq_push : WorkQueue → ℕ → Turn Bool
wq_push q fd =
    if (q.count == queue_capacity) && not q.shutdown
    then waits
    else if not q.shutdown
    then done
        (record q {
          fds = set q.fds q.tail fd;
          tail = (q.tail + 1) % queue_capacity;
          count = q.count + 1;
        })
        true
    else done q false

-- The result is `none` for -1.
unfoldable pub wq_pop : WorkQueue → Turn (Option ℕ)
wq_pop q =
    if (q.count == 0) && not q.shutdown
    then waits
    else if ltb 0 q.count
    then done (record q { head = (q.head + 1) % queue_capacity; count = q.count - 1 })
        (some (get_or q.fds q.head 0))
    else done q none

abbrev pub wq_shutdown : WorkQueue → WorkQueue
wq_shutdown q = record q { shutdown = true }
