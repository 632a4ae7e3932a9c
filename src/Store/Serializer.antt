-- ===== src/Store/Serializer.antt =====
-- state.go: one round of `serializer`, a clause for each case of its `switch`.
use metassh.Base.{
  ℕ, ◌+◌, ◌-◌, ◌/◌, Bool, true, false, Option, none, some, [], ◌∷◌, ltb, ◌==◌, if◌then◌else◌,
  length, Str, str_eq, Dict, is_some, lookup, insert, delete, modify, keys, Outcome, ok, panic,
  blocked, ◌>>=◌,
}
use metassh.Store.Types.{
  HostInfo, ConnInfo, WaitInfo, WaiterInfo, ConnectionStatus, RunStatus, State, Request, Reply,
  Slots, World, timeout_waiters, get_waiter_info, delete_conn_wait_info, delete_run_wait_info,
  set_conn_wait_info, set_run_wait_info, set_conn_wait_state, set_run_wait_state, set_requires_pw,
  get_ptr, set_connection_status, set_run_status, inc_proxy_count, get_auth_pass, set_auth_pass,
  get_ssh_config, set_ssh_config, set_host_info, set_conn_info, get_host_info, delete_host_info,
  clear_host_info, host_exists, get_conn_info, conn_exists, delete_conn_info, get_host_keys,
  get_conn_keys, silent, flag, text, waiters, host, connection, config, names,
}

abbrev pub put : ℕ → Bool → Slots → Slots
put c b slots d = if c == d then some b else slots d

-- `c <- b` on a channel with a buffer of one.
unfoldable pub send : ℕ → Bool → Slots → Outcome Slots
send c b slots = elim (slots c) [ none ↦ ok (put c b slots) | some _ ↦ blocked ]

-- `for k := range m { m[k].timeoutChan <- false }`
unfoldable pub timeout_all : Dict WaitInfo → Slots → Outcome Slots
timeout_all [] slots = ok slots
timeout_all ((k, wi) ∷ m) slots = send wi.timeout_chan false slots >>= timeout_all m

-- `m[k]++`
unfoldable pub bump : Str → Dict ℕ → Dict ℕ
bump k [] = (k, 1) ∷ []
bump k ((j, n) ∷ m) = if str_eq j k then (j, n + 1) ∷ m else (j, n) ∷ bump k m

-- The states of the waiters, counted, and their waits, added up.
unfoldable pub tally : ℕ → Dict WaitInfo → Dict ℕ → ℕ → Dict ℕ × ℕ
tally now [] states total = (states, total)
tally now ((k, wi) ∷ m) states total =
    tally now m (bump wi.state states) (total + (now - wi.start_time))

unfoldable pub average : ℕ → ℕ → ℕ
average total n = if ltb 0 n then total / n else 0

unfoldable pub waiter_info : ℕ → State → WaiterInfo
unfolding tally average
waiter_info now s =
    let (conn_states, conn_total) = tally now s.conn_waiters [] 0 in
    let (run_states, run_total) = tally now s.run_waiters [] 0 in
    record {
      conn_waiters = length s.conn_waiters;
      run_waiters = length s.run_waiters;
      avg_conn_wait = average conn_total (length s.conn_waiters);
      avg_run_wait = average run_total (length s.run_waiters);
      conn_states = conn_states;
      run_states = run_states;
    }

abbrev pub with_connection : ConnectionStatus → HostInfo → HostInfo
with_connection scs hi = record hi {
  connected_ok = scs.connected_ok;
  connect_time = scs.connect_time;
  last_error = scs.last_error;
}

abbrev pub with_run : RunStatus → HostInfo → HostInfo
with_run srs hi = record hi {
  run_ok = srs.run_ok;
  run_once = srs.run_once;
  run_time = srs.run_time;
  last_error = srs.last_error;
}

abbrev pub with_state : Str → WaitInfo → WaitInfo
with_state state wi = record wi { state = state }

abbrev pub with_pw : HostInfo → HostInfo
with_pw hi = record hi { requires_pw = true }

abbrev pub with_proxy : ConnInfo → ConnInfo
with_proxy ci = record ci { proxy_count = ci.proxy_count + 1 }

-- A dereference of `m[k]`, which is nil where the key is missing.
abbrev pub deref {ℓ} : {A : Type ℓ} → Option A → Outcome A
deref none = panic
deref (some a) = ok a

abbrev pub or_else {ℓ} : {A : Type ℓ} → Option A → A → A
or_else none a = a
or_else (some b) a = b

-- What a case does to the state, and its reply; `timeoutWaiters` also sends (`abort_waiters`).
unfoldable pub serve : Request → State → Outcome (State × Reply)
serve timeout_waiters s = ok (s, flag true)
serve (get_waiter_info now) s = ok (s, waiters (waiter_info now s))
serve (delete_conn_wait_info h) s = ok (record s { conn_waiters = delete h s.conn_waiters }, silent)
serve (delete_run_wait_info h) s = ok (record s { run_waiters = delete h s.run_waiters }, silent)
serve (set_conn_wait_info wi) s =
    ok (record s { conn_waiters = insert wi.host_name wi s.conn_waiters }, silent)
serve (set_run_wait_info wi) s =
    ok (record s { run_waiters = insert wi.host_name wi s.run_waiters }, silent)
serve (set_conn_wait_state h st) s = ok (
  if is_some (lookup h s.conn_waiters)
      then record s { conn_waiters = modify h (with_state st) s.conn_waiters }
      else s,
  silent,
)
serve (set_run_wait_state h st) s = ok (
  if is_some (lookup h s.run_waiters)
      then record s { run_waiters = modify h (with_state st) s.run_waiters }
      else s,
  silent,
)
serve (set_requires_pw h) s = do
  _ ← deref (lookup h s.targets)
  ok (record s { targets = modify h with_pw s.targets }, silent)
serve (get_ptr h) s = ok (s, text (or_else (lookup h s.ptr) h))
serve (set_connection_status scs) s = ok (
  if is_some (lookup scs.host_name s.targets)
      then record s { targets = modify scs.host_name (with_connection scs) s.targets }
      else s,
  silent,
)
serve (set_run_status srs) s = ok (
  if is_some (lookup srs.host_name s.targets)
      then record s { targets = modify srs.host_name (with_run srs) s.targets }
      else s,
  silent,
)
serve (inc_proxy_count h) s = do
  _ ← deref (lookup h s.conn)
  ok (record s { conn = modify h with_proxy s.conn }, silent)
serve get_auth_pass s = ok (s, text s.ssh_auth_pass)
serve (set_auth_pass p) s = ok (record s { ssh_auth_pass = p }, silent)
serve get_ssh_config s = ok (s, config s.ssh_config)
serve (set_ssh_config c) s = ok (record s { ssh_config = c }, silent)
serve (set_host_info hi) s = ok (
  record s {
    targets = insert hi.host_name hi s.targets;
    ptr = insert hi.ip_address hi.host_name s.ptr;
  },
  silent,
)
serve (set_conn_info ci) s = ok (
  if is_some (lookup ci.host_name s.conn)
      then s
      else record s { conn = insert ci.host_name ci s.conn },
  silent,
)
serve (get_host_info h) s = do hi ← deref (lookup h s.targets); ok (s, host hi)
serve (delete_host_info h) s = ok (record s { targets = delete h s.targets }, flag true)
serve clear_host_info s = ok (record s { targets = [] }, flag true)
serve (host_exists h) s = ok (s, flag (is_some (lookup h s.targets)))
serve (get_conn_info h) s = do ci ← deref (lookup h s.conn); ok (s, connection ci)
serve (conn_exists h) s = ok (s, flag (is_some (lookup h s.conn)))
serve (delete_conn_info h) s = ok (record s { conn = delete h s.conn }, flag true)
serve get_host_keys s = ok (s, names (keys s.targets))
serve get_conn_keys s = ok (s, names (keys s.conn))

abbrev pub in_world : World → Outcome (State × Reply) → Outcome (World × Reply)
in_world w (ok (s, reply)) = ok (record w { state = s }, reply)
in_world w panic = panic
in_world w blocked = blocked

-- The case `timeoutWaiters`: the sends, then the reply.
unfoldable pub abort_waiters : World → Outcome (World × Reply)
unfolding serve
abort_waiters w = do
  slots ← timeout_all w.state.conn_waiters w.slots
  slots' ← timeout_all w.state.run_waiters slots
  in_world (record w { slots = slots' }) (serve timeout_waiters w.state)

unfoldable pub handle : Request → World → Outcome (World × Reply)
unfolding serve abort_waiters
handle timeout_waiters w = abort_waiters w
handle req w = in_world w (serve req w.state)
