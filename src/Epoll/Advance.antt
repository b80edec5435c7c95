-- ===== src/Epoll/Advance.antt =====
-- src/server.c: a stretch of the event loop, against one order of all clients' commands.
use mathlib.Core.Path.{subst, fun_ext}
use redis_server_c.Prelude.{
  ℕ, ◌≡◌, refl, sym, ap, ◌∙◌, List, [], ◌++◌, Option, none, some, arith, Bytes, set, get_or-set,
  ◌==◌, if◌then◌else◌, Bool-cases, Option-cases, inl, inr,
}
use redis_server_c.Cmd.Answers.{both}
use redis_server_c.Epoll.Conn.{Conn, World}
use redis_server_c.Epoll.Table.{conn_at, conn_at-inside}
use redis_server_c.Epoll.Loop.{Loop}
use redis_server_c.Epoll.History.{Log, replay, own, replay-append, asked-other}
use redis_server_c.Epoll.Talk.{Talk, quiet-Talk, Talk-join}
use redis_server_c.Epoll.Spoken.{TalkTo}

-- Some bytes of the client at `fd`.
abbrev pub at_fd : ℕ → ℕ → Bytes → Bytes
at_fd fd q bytes = if fd == q then bytes else []

-- A stretch of the loop: these commands, of all clients, leave the world, and each client that is
-- connected before and behind it has its talk in them. `K` says which descriptors accept4() has
-- not returned.
pub record Advance (K : ℕ → Type 0) (l l' : Loop) (log : Log) (heard said : ℕ → Bytes)
    : Type 0 where
  pub world_after : l'.world ≡ replay l.world log
  pub talks :
      (q : ℕ) (c c' : Conn)
      → K q
      → conn_at l.conns q ≡ some c
      → conn_at l'.conns q ≡ some c'
      → Talk q l.world log (heard q) (said q) c c'
  pub gone : (q : ℕ) → K q → conn_at l.conns q ≡ none → conn_at l'.conns q ≡ none

abbrev pub Any : ℕ → Type 0
Any q = Unit

pub none-some : {c : Conn} → none ≡ some c → ⊥
none-some e = cc

same_conn : {c c' : Conn} → some c ≡ some c' → c ≡ c'
same_conn e = cc

pub same-Talk :
    (q : ℕ) (w : World) (c c' : Conn) (o : Option Conn)
    → o ≡ some c
    → o ≡ some c'
    → (log : Log) → Talk q w log [] [] c c
    → Talk q w log [] [] c c'
same-Talk q w c c' o h h' log t = subst (λ d. Talk q w log [] [] c d) (same_conn (sym h ∙ h')) t

pub no-Advance : (l : Loop) → Advance Any l l [] (λ q. []) (λ q. [])
no-Advance l = record {
  world_after = refl;
  talks = λ q c c' k h h'.
      same-Talk q l.world c c' (conn_at l.conns q) h h' [] (quiet-Talk q l.world [] c refl);
  gone = λ q k h. h;
}

pub Advance-join :
    (K1 K2 K : ℕ → Type 0) (l l1 l2 : Loop) (a b : Log) (h1 h2 s1 s2 : ℕ → Bytes)
    → ((q : ℕ) → K q → K1 q × K2 q)
    → Advance K1 l l1 a h1 s1
    → Advance K2 l1 l2 b h2 s2
    → Advance K l l2 (a ++ b) (λ q. h1 q ++ h2 q) (λ q. s1 q ++ s2 q)
Advance-join K1 K2 K l l1 l2 a b h1 h2 s1 s2 split x y = record {
  world_after =
      y.world_after ∙ ap (λ w. replay w b) x.world_after ∙ sym (replay-append l.world a b);
  talks = λ q c c2 k h h'. elim (Option-cases (conn_at l1.conns q)) [
    | inl closed ↦ absurd (none-some (sym (y.gone q (split q k).1 closed) ∙ h'))
    | inr (c1, here) ↦
        let more = y.talks q c1 c2 (split q k).1 here h' in
        Talk-join q l.world a b (h1 q) (h2 q) (s1 q) (s2 q) c c1 c2
          (x.talks q c c1 (split q k).0 h here) (rw x.world_after at more)
  ];
  gone = λ q k h. y.gone q (split q k).1 (x.gone q (split q k).0 h);
}

-- The connection at one descriptor has its event.
Talk-at :
    (fd q : ℕ) (w : World) (log : Log) (h s : Bytes) (c c' c0 : Conn) (o : Option Conn)
    → fd ≡ q
    → o ≡ some c'
    → c0 ≡ c
    → TalkTo fd w log h s c0 o
    → Talk q w log h s c c'
Talk-at fd q w log h s c c' c0 o e there same t = rw (e, there, same) at t

pub slot-Advance :
    (l : Loop) (fd : ℕ) (w' : World) (c : Conn) (o : Option Conn) (h s : Bytes)
    (commands : List (List Bytes))
    → conn_at l.conns fd ≡ some c
    → w' ≡ replay l.world (own fd commands)
    → TalkTo fd l.world (own fd commands) h s c o
    → Advance Any l
        (record { conns = set l.conns fd o; world = w' })
        (own fd commands)
        (λ q. at_fd fd q h)
        (λ q. at_fd fd q s)
slot-Advance l fd w' c o h s commands here after t =
    let there = conn_at-inside l.conns fd c here in
    let written = λ (q : ℕ). get_or-set l.conns fd q o none there in
    record {
      world_after = after;
      talks = λ q c1 c2 k h1 h2. elim (Bool-cases (fd == q)) [
        | inl same ↦
            let e : fd ≡ q = ground (arith, same) in
            let now = sym (written q) ∙ h2 in
            rw same (
              Talk-at fd q l.world (own fd commands) h s c1 c2 c o e (rw same at now)
                (same_conn (sym here ∙ ap (conn_at l.conns) e ∙ h1)) t)
        | inr other ↦
            let now = sym (written q) ∙ h2 in
            rw other (
              same-Talk q l.world c1 c2 (conn_at l.conns q) h1 (rw other at now) (own fd commands)
                (quiet-Talk q l.world (own fd commands) c1 (asked-other fd q commands other)))
      ];
      gone = λ q k h1. elim (Bool-cases (fd == q)) [
        | inl same ↦
            let e : fd ≡ q = ground (arith, same) in
            absurd (none-some (sym h1 ∙ ap (conn_at l.conns) (sym e) ∙ here))
        | inr other ↦ rw (written q) (rw other h1)
      ];
    }

-- The slot is named by the connection's own descriptor.
pub own_slot-Advance :
    (l : Loop) (fd own_fd : ℕ) (w' : World) (c : Conn) (o : Option Conn) (h s : Bytes)
    (commands : List (List Bytes))
    → own_fd ≡ fd
    → conn_at l.conns fd ≡ some c
    → w' ≡ replay l.world (own fd commands)
    → TalkTo fd l.world (own fd commands) h s c o
    → Advance Any l
        (record { conns = set l.conns own_fd o; world = w' })
        (own fd commands)
        (λ q. at_fd fd q h)
        (λ q. at_fd fd q s)
own_slot-Advance l fd own_fd w' c o h s commands same here after t =
    rw same (slot-Advance l fd w' c o h s commands here after t)

-- What is heard and said, in other words.
pub recast :
    {K : ℕ → Type 0} {l l' : Loop} {log : Log} (heard heard' said said' : ℕ → Bytes)
    → ((q : ℕ) → heard q ≡ heard' q)
    → ((q : ℕ) → said q ≡ said' q)
    → Advance K l l' log heard said
    → Advance K l l' log heard' said'
recast {K} {l} {l'} {log} heard heard' said said' h s x =
    subst (λ (t : ℕ → Bytes). Advance K l l' log t said') (fun_ext h)
      (subst (λ (t : ℕ → Bytes). Advance K l l' log heard t) (fun_ext s) x)

at_fd-nothing : (fd q : ℕ) → at_fd fd q [] ≡ []
at_fd-nothing fd q = both (λ (t : Bytes). t ≡ []) (fd == q) refl refl

-- Nothing is heard, and nothing said.
pub unheard :
    {K : ℕ → Type 0} {l l' : Loop} {log : Log} {said : ℕ → Bytes} (fd : ℕ)
    → Advance K l l' log (λ q. at_fd fd q []) said
    → Advance K l l' log (λ q. []) said
unheard {said = said} fd x =
    recast (λ q. at_fd fd q []) (λ q. []) said said (at_fd-nothing fd) (λ q. refl) x

pub quiet-Advance :
    (fd : ℕ) (l : Loop) → Advance Any l l [] (λ q. at_fd fd q []) (λ q. at_fd fd q [])
quiet-Advance fd l =
    recast (λ q. []) (λ q. at_fd fd q []) (λ q. []) (λ q. at_fd fd q [])
      (λ q. sym (at_fd-nothing fd q)) (λ q. sym (at_fd-nothing fd q)) (no-Advance l)

-- What is said in two parts.
pub at_fd-append : (fd q : ℕ) (a b : Bytes) → at_fd fd q a ++ at_fd fd q b ≡ at_fd fd q (a ++ b)
at_fd-append fd q a b = ground arith
