-- ===== src/Epoll/Reached.antt =====
-- src/server.c: the store that any events leave is one that calls of the store leave.
use redis_server_c.Prelude.{
  ℕ, zero, suc, ◌^◌, ◌≤◌, ◌≡◌, inl, inr, refl, sym, ap, ◌∙◌, ◌||◌, List, [], ◌∷◌, ◌++◌, Option,
  none, some, Bytes, length, ◌==◌, Bool-cases, Option-cases,
}
use redis_server_c.Store.State.{Store}
use redis_server_c.Store.Ops.{store_create}
use redis_server_c.Store.Session.{Call, step, final, final_promised, reached_Models}
use redis_server_c.Store.Spec.{empty}
use redis_server_c.Store.Ops.Model.{Models}
use redis_server_c.Resp.Parse.{resp_parse}
use redis_server_c.Resp.Bounds.{Parsed-cases}
use redis_server_c.Resp.Reply.{RespBuf}
use redis_server_c.Cmd.State.{Server}
use redis_server_c.Cmd.Answers.{both}
use redis_server_c.Cmd.Effects.{Called}
use redis_server_c.Cmd.DispatchEffect.{cmd_dispatch-Effect}
use redis_server_c.Epoll.Conn.{Conn, World, dispatch}
use redis_server_c.Epoll.Process.{process_loop, conn_process_input}
use redis_server_c.Epoll.Output.{WriteResult}
use redis_server_c.Epoll.Client.{read_loop, processed, after_read, handle_client_readable}
use redis_server_c.Epoll.Table.{conn_at}
use redis_server_c.Epoll.Loop.{
  Ready, Event, listening, client, Loop, on_readable, on_writable, on_client, event_loop,
}

-- One run of calls after another.
final-append : (a b : List Call) (s : Store) → final s (a ++ b) ≡ final (final s a) b
unfolding final step
final-append [] b s = refl
final-append (c ∷ a) b s = final-append a b (step s c).0

no_call : (s : Store) → Called s s
unfolding final
no_call s = ([], refl)

joined : (s s' s'' : Store) → Called s s' → Called s' s'' → Called s s''
joined s s' s'' (a, e) (b, e') = (a ++ b, e' ∙ ap (λ t. final t b) e ∙ sym (final-append a b s))

-- The store of a world.
abbrev store_of : World → Store
store_of w = w.server.store

dispatch-Called :
    (w : World) (argv : List Bytes) (out : RespBuf)
    → Called (store_of w) (store_of (dispatch w argv out).0)
dispatch-Called w argv out =
    let effect = cmd_dispatch-Effect (w.answers 0) w.server argv in
    (effect.calls, ap (λ (g : Server). g.store) (effect.same_server out) ∙ effect.store_final)

process_loop-Called :
    (rounds : ℕ) (w : World) (c : Conn) → Called (store_of w) (store_of (process_loop rounds w c).0)
unfolding process_loop
process_loop-Called zero w c = no_call (store_of w)
process_loop-Called (suc rounds) w c = elim (Bool-cases ((length c.input.buf == 0) || c.closing)) [
  | inl stop ↦ rw (stop, process_loop) (no_call (store_of w))
  | inr go ↦ elim (Parsed-cases (resp_parse c.input.buf)) [
    | inl short ↦ rw (go, short, process_loop) (no_call (store_of w))
    | inr (inl (m, bad)) ↦ rw (go, bad, process_loop) (no_call (store_of w))
    | inr (inr (argv, n, good)) ↦
        let w' = (dispatch w argv c.out).0 in
        rw (go, good, process_loop)
          (joined (store_of w) (store_of w') _ (dispatch-Called w argv c.out)
            (process_loop-Called rounds w' _))
  ]
]

processed-Called : (w : World) (c : Conn) → Called (store_of w) (store_of (processed w c).0)
unfolding conn_process_input
processed-Called w c =
    both (λ (t : World × Conn). Called (store_of w) (store_of t.0)) c.closing (no_call (store_of w))
      (process_loop-Called (length c.input.buf) w c)

after_read-Called :
    (ws : List WriteResult) (w : World) (o : Option Conn)
    → Called (store_of w) (store_of (after_read ws w o).world)
after_read-Called ws w none = no_call (store_of w)
after_read-Called ws w (some c) = processed-Called w c

-- The store of the loop.
abbrev stored : Loop → Store
stored l = store_of l.world

on_readable-Called :
    (e : Ready) (l : Loop) (c : Conn) → Called (stored l) (stored (on_readable e l c))
unfolding on_readable handle_client_readable
on_readable-Called e l c =
    both (λ (t : Loop). Called (stored l) (stored t)) e.readable
      (after_read-Called e.writes l.world (read_loop e.reads c)) (no_call (stored l))

on_writable-same : (e : Ready) (l : Loop) → (on_writable e l).world ≡ l.world
unfolding on_writable
on_writable-same e l = elim (Option-cases (conn_at l.conns e.fd)) [
  | inl nothing ↦ rw (nothing, on_writable) refl
  | inr (c, here) ↦
      rw (here, on_writable) (both (λ (t : Loop). t.world ≡ l.world) e.writable refl refl)
]

on_client-Called : (e : Ready) (l : Loop) → Called (stored l) (stored (on_client e l))
unfolding on_client
on_client-Called e l = elim (Option-cases (conn_at l.conns e.fd)) [
  | inl nothing ↦ rw (nothing, on_client) (no_call (stored l))
  | inr (c, here) ↦
      let l' = on_readable e l c in
      let (calls, same) = on_readable-Called e l c in
      rw (here, on_client)
        (both (λ (t : Loop). Called (stored l) (stored t)) e.hup (no_call (stored l))
          (calls, ap store_of (on_writable-same e l') ∙ same))
]

-- Whatever events come and whatever commands the clients send, the store after them is the one
-- that some sequence of store calls leaves.
pub event_loop-Called : (es : List Event) (l : Loop) → Called (stored l) (stored (event_loop es l))
unfolding event_loop
event_loop-Called [] l = no_call (stored l)
event_loop-Called (listening rs ∷ es) l = event_loop-Called es _
event_loop-Called (client e ∷ es) l =
    joined (stored l) (stored (on_client e l)) _ (on_client-Called e l)
      (event_loop-Called es (on_client e l))

-- The calls of the store that the commands of the events have made.
abbrev pub calls_made : List Event → Loop → List Call
calls_made es l = (event_loop-Called es l).0

-- Whatever the clients send, a server that began with an empty store and whose commands have made at
-- most 2 ^ 62 calls of the store has a valid one, that stands for the map which these calls promise.
pub event_loop-Models :
    (es : List Event) (l : Loop)
    → l.world.server.store ≡ store_create
    → length (calls_made es l) ≤ 2 ^ 62
    → Models (final_promised empty (calls_made es l)) (event_loop es l).world.server.store
event_loop-Models es l fresh few =
    let same = (event_loop-Called es l).1 in
    rw (same ∙ ap (λ s. final s (calls_made es l)) fresh) (reached_Models (calls_made es l) few)
