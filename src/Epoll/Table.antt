-- ===== src/Epoll/Table.antt =====
-- src/server.c: the table of connections, indexed by file descriptor.
use redis_server_c.Prelude.{
  ℕ, zero, suc, ◌+◌, ◌-◌, ◌^◌, ◌<◌, ◌≡◌, refl, ap, ◌∙◌, List, [], ◌∷◌, ◌++◌, Option, none, some,
  arith, length, get_or, set, replicate, length-append, length-replicate, get_or-replicate,
  get_or-set, ltb, ◌==◌, if◌then◌else◌, Bool-cases, inl, inr,
}
use redis_server_c.Growth.{grown, grown_enough}
use redis_server_c.Epoll.Conn.{Conn, new_conn}

-- `g_conns` with `g_conns_cap`; `none` for NULL.
abbrev pub Conns : Type 0
Conns = List (Option Conn)

-- `((size_t)fd < g_conns_cap) ? g_conns[fd] : NULL`
abbrev pub conn_at : Conns → ℕ → Option Conn
conn_at conns fd = get_or conns fd none

-- The loop goes on while `newcap <= fd`.
unfoldable pub conns_table_ensure : Conns → ℕ → Conns
conns_table_ensure conns fd =
    if ltb fd (length conns)
    then conns
    else conns ++ replicate (grown 64 (length conns) (fd + 1) - length conns) none

unfoldable pub conn_create : Conns → ℕ → Conns
unfolding conns_table_ensure
conn_create conns fd = set (conns_table_ensure conns fd) fd (some (new_conn fd))

-- The slot is set to NULL.
unfoldable pub conn_close : Conns → Conn → Conns
conn_close conns c = set conns c.fd none

appended : (conns : Conns) (n q : ℕ) → conn_at (conns ++ replicate n none) q ≡ conn_at conns q
appended [] n q = get_or-replicate n q none
appended (c ∷ conns) n zero = refl
appended (c ∷ conns) n (suc q) = appended conns n q

-- The new slots are empty, and there is one for the descriptor.
conns_table_ensure-at :
    (conns : Conns) (fd q : ℕ)
    → fd < 2 ^ 62 - 1
    → (conn_at (conns_table_ensure conns fd) q ≡ conn_at conns q)
      × (fd < length (conns_table_ensure conns fd))
unfolding conns_table_ensure
conns_table_ensure-at conns fd q small = elim (Bool-cases (ltb fd (length conns))) [
  | inl there ↦ rw (there, conns_table_ensure) (refl, ground (arith, there))
  | inr beyond ↦
      let cap = grown 64 (length conns) (fd + 1) in
      let added : Conns = replicate (cap - length conns) none in
      let (reached, below) =
        grown_enough 64 (length conns) (fd + 1) (omega arith) (omega arith) (ground (arith, beyond))
          (omega arith) in
      rw (beyond, conns_table_ensure)
        (
          appended conns (cap - length conns) q,
          omega (
            arith,
            length-append conns added,
            length-replicate {A = Option Conn} (cap - length conns) none,
            reached,
          ),
        )
]

-- For a descriptor below 2 ^ 62 - 1 the new connection is at the descriptor, whether or not the
-- table has to grow, and the other connections are as they were.
pub conn_create-at :
    (conns : Conns) (fd q : ℕ)
    → fd < 2 ^ 62 - 1
    → conn_at (conn_create conns fd) q ≡ (if fd == q then some (new_conn fd) else conn_at conns q)
unfolding conn_create
conn_create-at conns fd q small =
    let (same, there) = conns_table_ensure-at conns fd q small in
    get_or-set (conns_table_ensure conns fd) fd q (some (new_conn fd)) none there
    ∙ ap (λ t. if fd == q then some (new_conn fd) else t) same

-- A slot that holds a connection is in the table.
pub conn_at-inside :
    (conns : Conns) (fd : ℕ) (c : Conn) → conn_at conns fd ≡ some c → fd < length conns
conn_at-inside [] fd c h = absurd cc
conn_at-inside (o ∷ conns) zero c h = omega arith
conn_at-inside (o ∷ conns) (suc fd) c h = omega (arith, conn_at-inside conns fd c h)
