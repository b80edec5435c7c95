-- ===== src/Epoll/Output.antt =====
-- src/server.c: `conn_flush_output` and `conn_service_output`.

use Prim.Native.Nat.{min}
use redis_server_c.Prelude.{
  ℕ, ◌+◌, ◌-◌, Bool, true, false, not, ◌≡◌, refl, ap, ◌∙◌, arith, Bool-cases, inl, inr, List, [],
  ◌∷◌, ◌++◌, Option, none, some, Bytes, length, take, drop, ltb, ◌==◌, if◌then◌else◌,
}
use redis_server_c.Epoll.Conn.{Conn, interest}

-- What a call of write() does: it takes the bytes that it is given as far as there is room for
-- them, and returns their number, or returns -1 with EINTR, with EAGAIN, or with another error.
pub data WriteResult : Type 0 where
  wrote : ℕ → WriteResult
  write_eintr write_eagain write_failed : WriteResult

-- The results 1, 0 and -1 of `conn_flush_output`.
pub data Flushed : Type 0 where
  all_sent some_left broken : Flushed

-- The connection with the bytes that write() has taken, and the result.
pub record FlushResult : Type 0 where
  pub conn : Conn
  pub sent : Bytes
  pub status : Flushed

abbrev pub stopped : Conn → Flushed → FlushResult
stopped c status = record { conn = c; sent = []; status = status }

-- `c->out.len = 0; c->out_sent = 0;`
abbrev pub reset_out : Conn → Conn
reset_out c = record c { out = record (c.out) { data_ = [] }; out_sent = 0 }

abbrev pub more_sent : Bytes → FlushResult → FlushResult
more_sent bytes r = record r { sent = bytes ++ r.sent }

-- The calls of write() return these results in order, and EAGAIN after them.
unfoldable pub conn_flush_output : List WriteResult → Conn → FlushResult
conn_flush_output [] c = elim (ltb c.out_sent (length c.out.data_)) [
  | false ↦ stopped (reset_out c) all_sent
  | true ↦ stopped c some_left
]
conn_flush_output (r ∷ rs) c = elim (ltb c.out_sent (length c.out.data_)) [
  | false ↦ stopped (reset_out c) all_sent
  | true ↦ elim r [
    | wrote room ↦
        let n = min room (length c.out.data_ - c.out_sent) in
        elim (n == 0) [
          | true ↦ stopped c broken
          | false ↦
              more_sent (take n (drop c.out_sent c.out.data_))
                (conn_flush_output rs (record c { out_sent = c.out_sent + n }))
        ]
    | write_eintr ↦ conn_flush_output rs c
    | write_eagain ↦ stopped c some_left
    | write_failed ↦ stopped c broken
  ]
]

abbrev same_flag : Bool → Bool → Bool
same_flag want now = if want then now else not now

-- The events of the EPOLL_CTL_MOD; whether it succeeds makes no difference but for a message.
unfoldable pub conn_arm_write_interest : Conn → Bool → Conn
conn_arm_write_interest c want =
    if same_flag want c.want_write
    then c
    else record c { events = interest want; want_write = want }

-- What is armed, and that the rest of the connection stays.
pub record Rearmed (c : Conn) (want : Bool) (c' : Conn) : Type 0 where
  pub same_fd : c'.fd ≡ c.fd
  pub same_input : c'.input ≡ c.input
  pub same_out : c'.out ≡ c.out
  pub same_out_sent : c'.out_sent ≡ c.out_sent
  pub same_closing : c'.closing ≡ c.closing
  pub wants : c'.want_write ≡ want
  pub asked : c.events ≡ interest c.want_write → c'.events ≡ interest want

flag_same : (want now : Bool) → same_flag want now ≡ true → now ≡ want
flag_same want now h = ground (arith, h)

pub conn_arm_write_interest-Rearmed :
    (c : Conn) (want : Bool) → Rearmed c want (conn_arm_write_interest c want)
unfolding conn_arm_write_interest
conn_arm_write_interest-Rearmed c want = elim (Bool-cases (same_flag want c.want_write)) [
  | inl already ↦
      let e = flag_same want c.want_write already in
      rw (already, conn_arm_write_interest)
        (record {
          same_fd = refl;
          same_input = refl;
          same_out = refl;
          same_out_sent = refl;
          same_closing = refl;
          wants = e;
          asked = λ h. h ∙ ap interest e;
        })
  | inr changes ↦
      rw (changes, conn_arm_write_interest)
        (record {
          same_fd = refl;
          same_input = refl;
          same_out = refl;
          same_out_sent = refl;
          same_closing = refl;
          wants = refl;
          asked = λ h. refl;
        })
]

-- The connection, or `none` when it has been closed, with the bytes that write() has taken.
unfoldable pub conn_service_output : List WriteResult → Conn → Option Conn × Bytes
unfolding conn_flush_output conn_arm_write_interest
conn_service_output ws c =
    let r = conn_flush_output ws c in
    (
      elim (r.status) [
        | broken ↦ none
        | some_left ↦ some (conn_arm_write_interest r.conn true)
        | all_sent ↦ if r.conn.closing then none else some (conn_arm_write_interest r.conn false)
      ],
      r.sent,
    )
