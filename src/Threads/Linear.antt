-- ===== src/Threads/Linear.antt =====
-- src/server_threaded.c: any number of `handle_conn` at once, against one order of all commands.
use mathlib.Core.Path.{subst}
use redis_server_c.Prelude.{
  ℕ, ◌≡◌, refl, sym, ap, ◌∙◌, arith, Bool, true, false, List, [], ◌∷◌, ◌++◌, Bytes, ◌==◌,
  if◌then◌else◌,
}
use redis_server_c.Resp.Reply.{resp_buf_init}
use redis_server_c.Epoll.Conn.{World}
use redis_server_c.Epoll.Output.{WriteResult}
use redis_server_c.Epoll.Client.{ReadResult}
use redis_server_c.Epoll.History.{Log, replay, own, replay-append, asked-other}
use redis_server_c.Epoll.Advance.{at_fd}
use redis_server_c.Threads.Handle.{Handling}
use redis_server_c.Threads.Took.{Took, Took-nothing, Took-join}
use redis_server_c.Threads.Workers.{alone, finds, System, turn_of, on_turn, turns, all_begun}
use redis_server_c.Threads.Turned.{heard_at, Sound, Turned, no_others, turn_at-Turned}

-- All workers are sound.
abbrev pub AllSound : System → Type 0
AllSound s = (q : ℕ) → Sound (s.workers q).place (s.workers q).handling

-- What the worker of a client finds at its next turn.
abbrev pub seen_by : System → ℕ → Handling
seen_by s q = finds s.world (s.workers q).handling

-- The workers' turns, against one order of the commands of all clients.
pub record Together (log : Log) (heard : ℕ → Bytes) (s s' : System) : Type 0 where
  pub world_after : s'.world ≡ replay s.world log
  pub each : (q : ℕ) → Took q log (heard q) (seen_by s q) (seen_by s' q)
  pub sound : AllSound s'

-- A worker finds the store as the last command has left it.
refound :
    (me : ℕ) (log : Log) (heard : Bytes) (h h' : Handling)
    → Took me log heard h h'
    → Took me log heard h (finds h'.shared.world h')
refound me log heard h h' t = record {
  rest = t.rest;
  tail = t.tail;
  error_line = t.error_line;
  lost = t.lost;
  world_after = t.world_after;
  splits = t.splits;
  in_order = t.in_order;
  fine = t.fine;
  flushed = t.flushed;
  others = no_others me h'.shared.world;
  closes = t.closes;
}

turned :
    (s : System) (p : ℕ)
    → AllSound s
    → Turned p
        (heard_at (s.workers p).place (s.workers p).reads (seen_by s p))
        (seen_by s p)
        (turn_of s p)
turned s p all =
    let k = s.workers p in
    turn_at-Turned p s.world k.handling (all p).flushed k.place k.reads (all p).goes

-- The bytes that a turn brings from each client.
abbrev pub heard_now : ℕ → System → ℕ → Bytes
heard_now p s q = at_fd p q (heard_at (s.workers p).place (s.workers p).reads (seen_by s p))

module _ (p : ℕ) (s : System) (all : AllSound s) where
  abbrev log : Log
  log = own p (turned s p all).commands

  turn_each :
      (q : ℕ) (b : Bool)
      → (p == q) ≡ b
      → Took q log
          (if b then heard_at (s.workers p).place (s.workers p).reads (seen_by s p) else [])
          (seen_by s q)
          (finds
            (turn_of s p).handling.shared.world
            (if b then turn_of s p else s.workers q).handling)
  turn_each q true same =
      let e : p ≡ q = ground (arith, same) in
      let t = turned s p all in
      subst
        (λ (r : ℕ).
          Took r log (heard_at (s.workers p).place (s.workers p).reads (seen_by s p)) (seen_by s r)
            (finds (turn_of s p).handling.shared.world (turn_of s p).handling))
        e (refound p log _ (seen_by s p) (turn_of s p).handling t.took)
  turn_each q false other =
      let t = turned s p all in
      Took-nothing q log (seen_by s q) (alone (turn_of s p).handling.shared.world) (all q).flushed
        (no_others q _) t.took.world_after (asked-other p q t.commands other)

  turn-Sound :
      (q : ℕ) (b : Bool)
      → let k = if b then turn_of s p else s.workers q in Sound k.place k.handling
  turn-Sound q true = let t = turned s p all in record { flushed = t.took.flushed; goes = t.goes }
  turn-Sound q false = all q

  on_turn-Together : Together log (heard_now p s) s (on_turn p s)
  unfolding on_turn
  on_turn-Together = record {
    world_after = (turned s p all).took.world_after;
    each = λ q. turn_each q (p == q) refl;
    sound = λ q. turn-Sound q (p == q);
  }

-- The bytes that have come in.
abbrev pub heard : List ℕ → System → ℕ → Bytes
heard [] s q = []
heard (p ∷ schedule) s q = heard_now p s q ++ heard schedule (on_turn p s) q

turns-Together :
    (schedule : List ℕ) (s : System)
    → AllSound s
    → (log : Log) × Together log (heard schedule s) s (turns schedule s)
unfolding turns
turns-Together [] s all = (
  [],
  record {
    world_after = refl;
    each = λ q.
        Took-nothing q [] (seen_by s q) (alone s.world) (all q).flushed (no_others q _) refl refl;
    sound = all;
  },
)
turns-Together (p ∷ schedule) s all =
    let t = on_turn-Together p s all in
    let (log2, rest) = turns-Together schedule (on_turn p s) t.sound in
    let log1 = own p (turned s p all).commands in
    (
      log1 ++ log2,
      record {
        world_after =
            rest.world_after
            ∙ ap (λ w. replay w log2) t.world_after
            ∙ sym (replay-append s.world log1 log2);
        each = λ q. Took-join q log1 log2 _ _ _ _ _ (t.each q) (rest.each q);
        sound = rest.sound;
      },
    )

-- With any number of workers at work, in whatever order they have their turns and whatever read()
-- and write() return, there is one order of all clients' commands whose run, one after another,
-- leaves the store's world; the commands of each client in it are those that its input so far is cut
-- into, and what it has been sent are the replies to these, in the same order, up to what is lost
-- and the error line when its worker fails. A worker that has not failed has sent all replies.
pub workers_served :
    (schedule : List ℕ) (reads : ℕ → List ReadResult) (writes : ℕ → List WriteResult) (w : World)
    → (log : Log) × Together log
        (heard schedule (all_begun reads writes w))
        (all_begun reads writes w)
        (turns schedule (all_begun reads writes w))
unfolding resp_buf_init
workers_served schedule reads writes w =
    turns-Together schedule (all_begun reads writes w)
      (λ q. record { flushed = refl; goes = λ e. refl })
