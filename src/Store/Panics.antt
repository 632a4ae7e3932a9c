-- ===== src/Store/Panics.antt =====
-- state.go: when a request takes the whole program down, and what a request leaves alone.
use metassh.Base.{
  ◌≡◌, ◌≢◌, ◌↔◌, Bool, true, false, none, arith, Str, str_eq, lookup, lookup-insert, lookup-delete,
  lookup-modify, Outcome, ok, panic, blocked,
}
use metassh.Store.Types.{
  State, Request, Reply, World, timeout_waiters, set_requires_pw, set_connection_status,
  set_run_status, inc_proxy_count, set_host_info, set_conn_info, get_host_info, delete_host_info,
  clear_host_info, get_conn_info, delete_conn_info,
}
use metassh.Store.Waiters.{timeout_all-ne-panic, timeout_waiters_reach_all}
use metassh.Store.Serializer.{
  serve, abort_waiters, with_pw, with_connection, with_run, with_proxy, handle, in_world,
}

-- The request reads through an entry that is not there.
abbrev pub Dangling : Request → State → Type 0
Dangling (set_requires_pw h) s = lookup h s.targets ≡ none
Dangling (inc_proxy_count h) s = lookup h s.conn ≡ none
Dangling (get_host_info h) s = lookup h s.targets ≡ none
Dangling (get_conn_info h) s = lookup h s.conn ≡ none
Dangling _ s = ⊥

abort_waiters-ne-panic : (w : World) → abort_waiters w ≢ panic
unfolding abort_waiters
abort_waiters-ne-panic w e = grind (arith, timeout_all-ne-panic)

-- The serializer panics exactly on the requests that read through a missing entry.
pub handle-eq-panic : (req : Request) (w : World) → (handle req w ≡ panic) ↔ Dangling req w.state
unfolding handle
handle-eq-panic timeout_waiters w = (λ e. abort_waiters-ne-panic w e, λ e. elim e [ ])
handle-eq-panic (set_requires_pw h) w = (λ e. ground arith, λ e. ground arith)
handle-eq-panic (inc_proxy_count h) w = (λ e. ground arith, λ e. ground arith)
handle-eq-panic (get_host_info h) w = (λ e. ground arith, λ e. ground arith)
handle-eq-panic (get_conn_info h) w = (λ e. ground arith, λ e. ground arith)
handle-eq-panic req w = (λ e. cc, λ e. elim e [ ])

-- The target that a request may change.
abbrev pub touches_target : Request → Str → Bool
touches_target (set_requires_pw h) j = str_eq h j
touches_target (set_connection_status scs) j = str_eq scs.host_name j
touches_target (set_run_status srs) j = str_eq srs.host_name j
touches_target (set_host_info hi) j = str_eq hi.host_name j
touches_target (delete_host_info h) j = str_eq h j
touches_target clear_host_info j = true
touches_target _ j = false

-- The connection that a request may change.
abbrev pub touches_conn : Request → Str → Bool
touches_conn (inc_proxy_count h) j = str_eq h j
touches_conn (set_conn_info ci) j = str_eq ci.host_name j
touches_conn (delete_conn_info h) j = str_eq h j
touches_conn _ j = false

abbrev pub Frame : Str → State → State → Request → Type 0
Frame j s s' req =
    (touches_target req j ≡ false → lookup j s'.targets ≡ lookup j s.targets)
    × (touches_conn req j ≡ false → lookup j s'.conn ≡ lookup j s.conn)

serve-Frame :
    (req : Request) (s s' : State) (r : Reply) (j : Str)
    → serve req s ≡ ok (s', r)
    → Frame j s s' req
unfolding serve
serve-Frame (set_requires_pw h) s s' r j e =
    (ground (arith, lookup-modify h j with_pw s.targets), ground arith)
serve-Frame (set_connection_status scs) s s' r j e =
    (ground (arith, lookup-modify scs.host_name j (with_connection scs) s.targets), ground arith)
serve-Frame (set_run_status srs) s s' r j e =
    (ground (arith, lookup-modify srs.host_name j (with_run srs) s.targets), ground arith)
serve-Frame (set_host_info hi) s s' r j e =
    (ground (arith, lookup-insert hi.host_name j hi s.targets), ground arith)
serve-Frame (delete_host_info h) s s' r j e =
    (ground (arith, lookup-delete h j s.targets), ground arith)
serve-Frame (inc_proxy_count h) s s' r j e =
    (ground arith, ground (arith, lookup-modify h j with_proxy s.conn))
serve-Frame (set_conn_info ci) s s' r j e =
    (ground arith, ground (arith, lookup-insert ci.host_name j ci s.conn))
serve-Frame (delete_conn_info h) s s' r j e =
    (ground arith, ground (arith, lookup-delete h j s.conn))
serve-Frame _ s s' r j e = (ground arith, ground arith)

abort-Frame :
    (w w' : World) (r : Reply) (j : Str)
    → abort_waiters w ≡ ok (w', r)
    → Frame j w.state w'.state timeout_waiters
abort-Frame w w' r j h =
    let same = (timeout_waiters_reach_all w w' r (unfold handle in h)).3 in
    (λ _. rw same, λ _. rw same)

pub in_world_state :
    (w w' : World) (o : Outcome (State × Reply)) (r : Reply)
    → in_world w o ≡ ok (w', r)
    → o ≡ ok (w'.state, r)
in_world_state w w' (ok (s, reply)) r h = ground arith
in_world_state w w' panic r h = cc
in_world_state w w' blocked r h = cc

-- A request leaves alone every target and every connection but the one that it names
-- (`clearHostInfo` names all targets).
pub handle-Frame :
    (req : Request) (w w' : World) (r : Reply) (j : Str)
    → handle req w ≡ ok (w', r)
    → Frame j w.state w'.state req
unfolding handle
handle-Frame timeout_waiters w w' r j h = abort-Frame w w' r j h
handle-Frame req w w' r j h =
    serve-Frame req w.state w'.state r j (in_world_state w w' (serve req w.state) r h)
