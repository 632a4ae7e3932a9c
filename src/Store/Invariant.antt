-- ===== src/Store/Invariant.antt =====
-- state.go: the four maps of the state whose entries carry a name file each entry once, under that
-- name. The map PTR has bare strings as its entries, and is left out.
use metassh.Base.{
  ◌≡◌, refl, Option, none, some, arith, if_both, Dict, lookup, modify, Keyed, Keyed-insert,
  Keyed-delete, Keyed-modify, Outcome, ok, panic, blocked, ◌>>=◌,
}
use metassh.Store.Types.{
  HostInfo, ConnInfo, WaitInfo, State, Request, Reply, World, new_state, timeout_waiters,
  delete_conn_wait_info, delete_run_wait_info, set_conn_wait_info, set_run_wait_info,
  set_conn_wait_state, set_run_wait_state, set_requires_pw, set_connection_status, set_run_status,
  inc_proxy_count, set_auth_pass, set_ssh_config, set_host_info, set_conn_info, get_host_info,
  delete_host_info, clear_host_info, get_conn_info, delete_conn_info, silent, host, connection,
}
use metassh.Store.Serializer.{
  serve, abort_waiters, in_world, handle, with_connection, with_run, with_state, with_pw,
  with_proxy, deref,
}

pub record IsValid (s : State) : Type 0 where
  pub targets : Keyed (λ (hi : HostInfo). hi.host_name) s.targets
  pub conn : Keyed (λ (ci : ConnInfo). ci.host_name) s.conn
  pub conn_waiters : Keyed (λ (wi : WaitInfo). wi.host_name) s.conn_waiters
  pub run_waiters : Keyed (λ (wi : WaitInfo). wi.host_name) s.run_waiters

pub new_state-IsValid : IsValid new_state
new_state-IsValid = record { targets = tt; conn = tt; conn_waiters = tt; run_waiters = tt }

-- What holds of the state after a round, if the round ends.
abbrev After : (State → Type 0) → Outcome (State × Reply) → Type 0
After P (ok (s, r)) = P s
After P panic = Unit
After P blocked = Unit

After-deref :
    {A : Type 0} (P : State → Type 0) (o : Option A) (k : A → State × Reply)
    → ((a : A) → P (k a).0)
    → After P (deref o >>= λ a. ok (k a))
After-deref P none k h = tt
After-deref P (some a) k h = h a

with_waiters :
    (s : State) (m : Dict WaitInfo)
    → IsValid s
    → Keyed (λ (wi : WaitInfo). wi.host_name) m
    → IsValid (record s { conn_waiters = m }) × IsValid (record s { run_waiters = m })
with_waiters s m v k = (
  record { targets = v.targets; conn = v.conn; conn_waiters = k; run_waiters = v.run_waiters },
  record { targets = v.targets; conn = v.conn; conn_waiters = v.conn_waiters; run_waiters = k },
)

with_targets :
    (s : State) (m : Dict HostInfo)
    → IsValid s
    → Keyed (λ (hi : HostInfo). hi.host_name) m
    → IsValid (record s { targets = m })
with_targets s m v k = record {
  targets = k;
  conn = v.conn;
  conn_waiters = v.conn_waiters;
  run_waiters = v.run_waiters;
}

with_conn :
    (s : State) (m : Dict ConnInfo)
    → IsValid s
    → Keyed (λ (ci : ConnInfo). ci.host_name) m
    → IsValid (record s { conn = m })
with_conn s m v k = record {
  targets = v.targets;
  conn = k;
  conn_waiters = v.conn_waiters;
  run_waiters = v.run_waiters;
}

serve-IsValid : (req : Request) (s : State) → IsValid s → After IsValid (serve req s)
unfolding serve
serve-IsValid (delete_conn_wait_info h) s v =
    (with_waiters s _ v (Keyed-delete _ h s.conn_waiters v.conn_waiters)).0
serve-IsValid (delete_run_wait_info h) s v =
    (with_waiters s _ v (Keyed-delete _ h s.run_waiters v.run_waiters)).1
serve-IsValid (set_conn_wait_info wi) s v =
    (with_waiters s _ v (Keyed-insert _ wi.host_name wi s.conn_waiters refl v.conn_waiters)).0
serve-IsValid (set_run_wait_info wi) s v =
    (with_waiters s _ v (Keyed-insert _ wi.host_name wi s.run_waiters refl v.run_waiters)).1
serve-IsValid (set_conn_wait_state h st) s v =
    if_both IsValid _ _ s
      (with_waiters s _ v
        (Keyed-modify _ h (with_state st) s.conn_waiters (λ w. refl) v.conn_waiters)).0
      v
serve-IsValid (set_run_wait_state h st) s v =
    if_both IsValid _ _ s
      (with_waiters s _ v
        (Keyed-modify _ h (with_state st) s.run_waiters (λ w. refl) v.run_waiters)).1
      v
serve-IsValid (set_requires_pw h) s v =
    After-deref IsValid (lookup h s.targets)
      (λ _. (record s { targets = modify h with_pw s.targets }, silent))
      (λ _. with_targets s _ v (Keyed-modify _ h with_pw s.targets (λ w. refl) v.targets))
serve-IsValid (set_connection_status scs) s v =
    if_both IsValid _ _ s
      (with_targets s _ v
        (Keyed-modify _ scs.host_name (with_connection scs) s.targets (λ w. refl) v.targets))
      v
serve-IsValid (set_run_status srs) s v =
    if_both IsValid _ _ s
      (with_targets s _ v
        (Keyed-modify _ srs.host_name (with_run srs) s.targets (λ w. refl) v.targets))
      v
serve-IsValid (inc_proxy_count h) s v =
    After-deref IsValid (lookup h s.conn)
      (λ _. (record s { conn = modify h with_proxy s.conn }, silent))
      (λ _. with_conn s _ v (Keyed-modify _ h with_proxy s.conn (λ w. refl) v.conn))
serve-IsValid (set_host_info hi) s v = record {
  targets = Keyed-insert _ hi.host_name hi s.targets refl v.targets;
  conn = v.conn;
  conn_waiters = v.conn_waiters;
  run_waiters = v.run_waiters;
}
serve-IsValid (set_conn_info ci) s v =
    if_both IsValid _ s _ v (with_conn s _ v (Keyed-insert _ ci.host_name ci s.conn refl v.conn))
serve-IsValid (get_host_info h) s v =
    After-deref IsValid (lookup h s.targets) (λ hi. (s, host hi)) (λ _. v)
serve-IsValid (delete_host_info h) s v = with_targets s _ v (Keyed-delete _ h s.targets v.targets)
serve-IsValid clear_host_info s v = with_targets s _ v tt
serve-IsValid (get_conn_info h) s v =
    After-deref IsValid (lookup h s.conn) (λ ci. (s, connection ci)) (λ _. v)
serve-IsValid (delete_conn_info h) s v = with_conn s _ v (Keyed-delete _ h s.conn v.conn)
serve-IsValid (set_auth_pass p) s v = record {
  targets = v.targets;
  conn = v.conn;
  conn_waiters = v.conn_waiters;
  run_waiters = v.run_waiters;
}
serve-IsValid (set_ssh_config c) s v = record {
  targets = v.targets;
  conn = v.conn;
  conn_waiters = v.conn_waiters;
  run_waiters = v.run_waiters;
}
serve-IsValid _ s v = v

in_world-After :
    (P : State → Type 0) (w : World) (o : Outcome (State × Reply)) (w' : World) (r : Reply)
    → After P o
    → in_world w o ≡ ok (w', r)
    → P w'.state
in_world-After P w (ok (s, reply)) w' r p h = let e : w'.state ≡ s = ground arith in rw e p
in_world-After P w panic w' r p h = cc
in_world-After P w blocked w' r p h = cc

abort_waiters_state : (w w' : World) (r : Reply) → abort_waiters w ≡ ok (w', r) → w'.state ≡ w.state
unfolding abort_waiters
abort_waiters_state w w' r h = ground arith

-- A request that is served leaves a valid state valid.
pub handle-IsValid :
    (req : Request) (w w' : World) (r : Reply)
    → IsValid w.state
    → handle req w ≡ ok (w', r)
    → IsValid w'.state
unfolding handle
handle-IsValid timeout_waiters w w' r v h = rw (abort_waiters_state w w' r h) v
handle-IsValid req w w' r v h =
    in_world-After IsValid w (serve req w.state) w' r (serve-IsValid req w.state v) h
