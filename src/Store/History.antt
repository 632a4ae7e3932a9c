-- ===== src/Store/History.antt =====
-- state.go: runs of many requests, in the order in which the serializer takes them.
use metassh.Base.{
  ◌≤◌, ◌≡◌, refl, sym, ap, ◌∙◌, inl, inr, Bool, true, false, some, List, [], ◌∷◌, arith, Bool-cases,
  All, Str, str_eq, str_eq_iff, lookup, lookup-insert, lookup-modify, Outcome, ok, ◌>>=◌, bind-ok,
  ok_injective,
}
use metassh.Store.Types.{
  ConnInfo, State, World, Request, Reply, timeout_waiters, inc_proxy_count, set_conn_info,
  delete_conn_info, flag,
}
use metassh.Store.Serializer.{serve, abort_waiters, handle, with_proxy}
use metassh.Store.Panics.{in_world_state, touches_conn, handle-Frame}
use metassh.Store.Races.{handle_all}
use metassh.Store.View.{View, view, promise, shown, seen}
use metassh.Store.Refinement.{serve-Refines}

abort_reply :
    (w w' : World) (r : Reply)
    → abort_waiters w ≡ ok (w', r)
    → (w'.state ≡ w.state) × (r ≡ flag true)
unfolding abort_waiters serve
abort_reply w w' r e = ground arith

handle-Refines :
    (req : Request) (w w' : World) (r : Reply)
    → handle req w ≡ ok (w', r)
    → promise req (view w.state) ≡ ok (view w'.state, shown r)
unfolding handle
handle-Refines timeout_waiters w w' r e =
    let (same, told) = abort_reply w w' r e in
    ap (λ u. ok (view u, some (flag true))) (sym same)
    ∙ ap (λ x. ok (view w'.state, shown x)) (sym told)
handle-Refines req w w' r e =
    sym (serve-Refines req w.state) ∙ ap seen (in_world_state w w' (serve req w.state) r e)

abbrev pub promise_all : List Request → View → Outcome View
promise_all [] v = ok v
promise_all (req ∷ reqs) v = promise req v >>= λ r. promise_all reqs r.0

-- A run of requests that the serializer comes through does to its state what they promise one
-- after another on the view.
pub handle_all-Refines :
    (reqs : List Request) (w w' : World)
    → handle_all reqs w ≡ ok w'
    → promise_all reqs (view w.state) ≡ ok (view w'.state)
unfolding handle_all
handle_all-Refines [] w w' e = ap (λ (u : World). ok (view u.state)) (ok_injective e)
handle_all-Refines (req ∷ reqs) w w' e =
    let ((u, r), p, q) = bind-ok (handle req w) _ e in
    rw (handle-Refines req w u r p) (handle_all-Refines reqs u w' q)

-- A connection that is filed under `h` still, with its channel, and no fewer proxy connections.
abbrev pub Stays : Str → ConnInfo → State → Type 0
Stays h ci s =
    (ci' : ConnInfo) × (lookup h s.conn ≡ some ci')
    × (ci'.req_chan ≡ ci.req_chan)
    × (ci'.is_proxy ≡ ci.is_proxy)
    × (ci'.is_direct ≡ ci.is_direct)
    × (ci.proxy_count ≤ ci'.proxy_count)

abbrev pub drops : Str → Request → Bool
drops h (delete_conn_info k) = str_eq k h
drops h _ = false

same-Stays :
    (req : Request) (w w' : World) (r : Reply) (h : Str) (ci : ConnInfo)
    → lookup h w.state.conn ≡ some ci
    → touches_conn req h ≡ false
    → handle req w ≡ ok (w', r)
    → Stays h ci w'.state
same-Stays req w w' r h ci there apart e =
    (ci, (handle-Frame req w w' r h e).1 apart ∙ there, refl, refl, refl, omega arith)

handle-Stays :
    (req : Request) (w w' : World) (r : Reply) (h : Str) (ci : ConnInfo)
    → lookup h w.state.conn ≡ some ci
    → drops h req ≡ false
    → handle req w ≡ ok (w', r)
    → Stays h ci w'.state
unfolding handle
handle-Stays (inc_proxy_count k) w w' r h ci there kept e = elim (Bool-cases (str_eq k h)) [
  | inl same ↦ (
    with_proxy ci,
    ground (arith, str_eq_iff k h, lookup-modify k h with_proxy w.state.conn),
    refl,
    refl,
    refl,
    omega arith,
  )
  | inr apart ↦ same-Stays (inc_proxy_count k) w w' r h ci there apart e
]
handle-Stays (set_conn_info new) w w' r h ci there kept e = (
  ci,
  ground (arith, str_eq_iff new.host_name h, lookup-insert new.host_name h new w.state.conn),
  refl,
  refl,
  refl,
  omega arith,
)
handle-Stays (delete_conn_info k) w w' r h ci there kept e =
    same-Stays (delete_conn_info k) w w' r h ci there kept e
handle-Stays req w w' r h ci there kept e = same-Stays req w w' r h ci there refl e

-- While nobody deletes a connection it stays filed, with the request channel and the kind that it
-- was filed with, whatever requests come in between; its proxy count does not fall.
pub handle_all-Stays :
    (reqs : List Request) (w w' : World) (h : Str) (ci : ConnInfo)
    → lookup h w.state.conn ≡ some ci
    → All (λ req. drops h req ≡ false) reqs
    → handle_all reqs w ≡ ok w'
    → Stays h ci w'.state
unfolding handle_all
handle_all-Stays [] w w' h ci there kept e = (
  ci,
  ap (λ (u : World). lookup h u.state.conn) (sym (ok_injective e)) ∙ there,
  refl,
  refl,
  refl,
  omega arith,
)
handle_all-Stays (req ∷ reqs) w w' h ci there (kept, later) e =
    let ((u, r), p, q) = bind-ok (handle req w) _ e in
    let (ci1, there1, c1, p1, d1, n1) = handle-Stays req w u r h ci there kept p in
    let (ci2, there2, c2, p2, d2, n2) = handle_all-Stays reqs u w' h ci1 there1 later q in
    (ci2, there2, c2 ∙ c1, p2 ∙ p1, d2 ∙ d1, omega arith)
