-- ===== src/Threads/Fifo.antt =====
-- src/server_threaded.c: the circular buffer is a queue of at most 512 descriptors.
use redis_server_c.Prelude.{
  ℕ, zero, suc, ◌+◌, ◌-◌, ◌%◌, ◌≤◌, ◌<◌, ◌≡◌, refl, ap, ap₂, ◌∙◌, Bool, true, false, List, [], ◌∷◌,
  ◌++◌, Option, none, some, arith, length, get_or, set, length-set, length-replicate, get_or-set,
  ltb, ◌==◌, Bool-cases, inl, inr,
}
use redis_server_c.Threads.Queue.{
  WorkQueue, queue_capacity, wq_init, Turn, waits, done, wq_push, wq_pop,
}

-- `n` elements from index `i` on, around the end of the array.
abbrev pub around : List ℕ → ℕ → ℕ → List ℕ
around fds i zero = []
around fds i (suc n) = get_or fds i 0 ∷ around fds ((i + 1) % 512) n

-- The descriptors in the queue, the oldest first.
abbrev pub contents : WorkQueue → List ℕ
contents q = around q.fds q.head q.count

pub record IsQueue (q : WorkQueue) : Type 0 where
  pub size : length q.fds ≡ 512
  pub start : q.head < 512
  pub few : q.count ≤ 512
  pub end : q.tail ≡ (q.head + q.count) % 512

pub wq_init-IsQueue : IsQueue wq_init
wq_init-IsQueue = record {
  size = length-replicate {A = ℕ} 512 0;
  start = omega arith;
  few = omega arith;
  end = refl;
}

pub length-around : (fds : List ℕ) (i n : ℕ) → length (around fds i n) ≡ n
length-around fds i zero = refl
length-around fds i (suc n) = ap suc (length-around fds ((i + 1) % 512) n)

-- A write at the place behind the last element leaves the elements and adds one.
around-set :
    (fds : List ℕ) (i n k v : ℕ)
    → length fds ≡ 512
    → i < 512
    → n < 512
    → k ≡ (i + n) % 512
    → around (set fds k v) i (suc n) ≡ around fds i n ++ (v ∷ [])
around-set fds i zero k v size small room e =
    let here : (k == i) ≡ true = ground (arith, e) in
    ap (λ t. t ∷ []) (get_or-set fds k i v 0 (omega arith) ∙ rw here refl)
around-set fds i (suc n) k v size small room e =
    let elsewhere : (k == i) ≡ false = ground (arith, e) in
    ap₂ ◌∷◌ (get_or-set fds k i v 0 (omega arith) ∙ rw elsewhere refl)
      (around-set fds ((i + 1) % 512) n k v size (omega arith) (omega arith) (omega arith))

-- What the functions of the queue do to its contents.
abbrev pub Pushed : WorkQueue → ℕ → Turn Bool → Type 0
Pushed q fd waits = (length (contents q) ≡ 512) × (q.shutdown ≡ false)
Pushed q fd (done q' true) =
    IsQueue q' × (contents q' ≡ contents q ++ (fd ∷ [])) × (q'.shutdown ≡ false)
Pushed q fd (done q' false) = (q' ≡ q) × (q.shutdown ≡ true)

abbrev pub Popped : WorkQueue → Turn (Option ℕ) → Type 0
Popped q waits = (contents q ≡ []) × (q.shutdown ≡ false)
Popped q (done q' (some fd)) =
    IsQueue q' × (contents q ≡ fd ∷ contents q') × (q'.shutdown ≡ q.shutdown)
Popped q (done q' none) = (q' ≡ q) × (contents q ≡ []) × (q.shutdown ≡ true)

around-front :
    (fds : List ℕ) (i n : ℕ)
    → 0 < n
    → around fds i n ≡ get_or fds i 0 ∷ around fds ((i + 1) % 512) (n - 1)
around-front fds i zero h = absurd (omega arith)
around-front fds i (suc n) h = let e : suc n - 1 ≡ n = omega arith in rw e refl

around-none : (fds : List ℕ) (i n : ℕ) → n ≡ 0 → around fds i n ≡ []
around-none fds i zero h = refl
around-none fds i (suc n) h = absurd (omega arith)

-- A push appends the descriptor; it waits just when there are 512, and closes the descriptor just
-- when the server shuts down.
pub wq_push-Pushed : (q : WorkQueue) (fd : ℕ) → IsQueue q → Pushed q fd (wq_push q fd)
unfolding wq_push
wq_push-Pushed q fd v =
    let size = length-around q.fds q.head q.count in
    elim (Bool-cases q.shutdown) [
      | inl down ↦ elim (Bool-cases (q.count == queue_capacity)) [
        | inl full ↦ rw (full, down, wq_push) (refl, refl)
        | inr room ↦ rw (room, down, wq_push) (refl, refl)
      ]
      | inr up ↦ elim (Bool-cases (q.count == queue_capacity)) [
        | inl full ↦ rw (full, up, wq_push) (ground (arith, full, size), refl)
        | inr room ↦
            let few = v.few in
            let below : q.count < 512 = ground (arith, room) in
            let more : q.count + 1 ≡ suc q.count = omega arith in
            rw (room, up, wq_push)
              (
                record {
                  size = length-set q.fds q.tail fd ∙ v.size;
                  start = v.start;
                  few = omega arith;
                  end = omega (arith, v.end);
                },
                rw more (around-set q.fds q.head q.count q.tail fd v.size v.start below v.end),
                refl,
              )
      ]
    ]

-- A pop takes the oldest descriptor, also during a shutdown; it waits just when there is none and
-- the server does not shut down, and returns -1 just when there is none and it does.
pub wq_pop-Popped : (q : WorkQueue) → IsQueue q → Popped q (wq_pop q)
unfolding wq_pop
wq_pop-Popped q v = elim (Bool-cases (ltb 0 q.count)) [
  | inl some_fds ↦
      let pos : 0 < q.count = ground (arith, some_fds) in
      let filled : (q.count == 0) ≡ false = ground (arith, pos) in
      rw (filled, some_fds, wq_pop)
        (
          record {
            size = v.size;
            start = omega arith;
            few = omega (arith, v.few);
            end = omega (arith, v.end, v.start);
          },
          around-front q.fds q.head q.count pos,
          refl,
        )
  | inr no_fds ↦
      let zero_fds : q.count ≡ 0 = ground (arith, no_fds) in
      let empty : (q.count == 0) ≡ true = ground (arith, zero_fds) in
      let nothing = around-none q.fds q.head q.count zero_fds in
      elim (Bool-cases q.shutdown) [
        | inl down ↦ rw (empty, no_fds, down, wq_pop) (refl, nothing, refl)
        | inr up ↦ rw (empty, up, wq_pop) (nothing, refl)
      ]
]

-- In a valid queue a push appends the descriptor, waits just when there are 512 and the server does
-- not shut down, and closes the descriptor just when it does; a pop takes the oldest descriptor, also
-- during a shutdown, and where there is none it returns -1 in a shutdown and waits otherwise.
pub wq_turns :
    (q : WorkQueue) (fd : ℕ) → IsQueue q → Pushed q fd (wq_push q fd) × Popped q (wq_pop q)
wq_turns q fd v = (wq_push-Pushed q fd v, wq_pop-Popped q v)
