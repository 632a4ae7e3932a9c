-- ===== src/Store/View.antt =====
-- state.go: what the serializer promises, on maps that are functions. A map's range order, and with
-- it the lists of keys and the statistics of the waiters, is left out of the view.
use metassh.Base.{
  ℕ, true, Option, none, some, if◌then◌else◌, Str, str_eq, is_some, lookup, Outcome, ok, panic,
  blocked,
}
use mathlib.Core.Option
use metassh.Store.Types.{
  HostInfo, ConnInfo, WaitInfo, State, Request, Reply, timeout_waiters, get_waiter_info,
  delete_conn_wait_info, delete_run_wait_info, set_conn_wait_info, set_run_wait_info,
  set_conn_wait_state, set_run_wait_state, set_requires_pw, get_ptr, set_connection_status,
  set_run_status, inc_proxy_count, get_auth_pass, set_auth_pass, get_ssh_config, set_ssh_config,
  set_host_info, set_conn_info, get_host_info, delete_host_info, clear_host_info, host_exists,
  get_conn_info, conn_exists, delete_conn_info, get_host_keys, get_conn_keys, silent, flag, text,
  waiters, host, connection, config, names,
}
use metassh.Store.Serializer.{with_connection, with_run, with_state, with_pw, with_proxy, or_else}

abbrev pub Finite {ℓ} : Type ℓ → Type ℓ
Finite V = Str → Option V

pub record View : Type 0 where
  pub targets : Finite HostInfo
  pub conn : Finite ConnInfo
  pub ptr : Finite Str
  pub conn_waiters : Finite WaitInfo
  pub run_waiters : Finite WaitInfo
  pub ssh_config : Option ℕ
  pub ssh_auth_pass : Str

abbrev pub view : State → View
view s = record {
  targets = λ k. lookup k s.targets;
  conn = λ k. lookup k s.conn;
  ptr = λ k. lookup k s.ptr;
  conn_waiters = λ k. lookup k s.conn_waiters;
  run_waiters = λ k. lookup k s.run_waiters;
  ssh_config = s.ssh_config;
  ssh_auth_pass = s.ssh_auth_pass;
}

-- The map `m` with `o` at `k`.
abbrev pub at {ℓ} : {V : Type ℓ} → Str → Option V → Finite V → Finite V
at k o m j = if str_eq k j then o else m j

abbrev pub needs {ℓ} :
    {V : Type ℓ} → Option V → (V → View × Option Reply) → Outcome (View × Option Reply)
needs none k = panic
needs (some a) k = ok (k a)

-- A request on the view: the new view, and the reply if the range order has no part in it.
abbrev pub promise : Request → View → Outcome (View × Option Reply)
promise timeout_waiters v = ok (v, some (flag true))
promise (get_waiter_info now) v = ok (v, none)
promise (delete_conn_wait_info h) v =
    ok (record v { conn_waiters = at h none v.conn_waiters }, some silent)
promise (delete_run_wait_info h) v =
    ok (record v { run_waiters = at h none v.run_waiters }, some silent)
promise (set_conn_wait_info wi) v =
    ok (record v { conn_waiters = at wi.host_name (some wi) v.conn_waiters }, some silent)
promise (set_run_wait_info wi) v =
    ok (record v { run_waiters = at wi.host_name (some wi) v.run_waiters }, some silent)
promise (set_conn_wait_state h st) v = ok (
  record v { conn_waiters = at h (Option.map (with_state st) (v.conn_waiters h)) v.conn_waiters },
  some silent,
)
promise (set_run_wait_state h st) v = ok (
  record v { run_waiters = at h (Option.map (with_state st) (v.run_waiters h)) v.run_waiters },
  some silent,
)
promise (set_requires_pw h) v =
    needs (v.targets h)
      λ hi. (record v { targets = at h (some (with_pw hi)) v.targets }, some silent)
promise (get_ptr h) v = ok (v, some (text (or_else (v.ptr h) h)))
promise (set_connection_status scs) v = ok (
  record v {
    targets =
        at scs.host_name (Option.map (with_connection scs) (v.targets scs.host_name)) v.targets;
  },
  some silent,
)
promise (set_run_status srs) v = ok (
  record v {
    targets = at srs.host_name (Option.map (with_run srs) (v.targets srs.host_name)) v.targets;
  },
  some silent,
)
promise (inc_proxy_count h) v =
    needs (v.conn h) λ ci. (record v { conn = at h (some (with_proxy ci)) v.conn }, some silent)
promise get_auth_pass v = ok (v, some (text v.ssh_auth_pass))
promise (set_auth_pass p) v = ok (record v { ssh_auth_pass = p }, some silent)
promise get_ssh_config v = ok (v, some (config v.ssh_config))
promise (set_ssh_config c) v = ok (record v { ssh_config = c }, some silent)
promise (set_host_info hi) v = ok (
  record v {
    targets = at hi.host_name (some hi) v.targets;
    ptr = at hi.ip_address (some hi.host_name) v.ptr;
  },
  some silent,
)
promise (set_conn_info ci) v = ok (
  record v { conn = at ci.host_name (some (or_else (v.conn ci.host_name) ci)) v.conn },
  some silent,
)
promise (get_host_info h) v = needs (v.targets h) λ hi. (v, some (host hi))
promise (delete_host_info h) v = ok (record v { targets = at h none v.targets }, some (flag true))
promise clear_host_info v = ok (record v { targets = λ k. none }, some (flag true))
promise (host_exists h) v = ok (v, some (flag (is_some (v.targets h))))
promise (get_conn_info h) v = needs (v.conn h) λ ci. (v, some (connection ci))
promise (conn_exists h) v = ok (v, some (flag (is_some (v.conn h))))
promise (delete_conn_info h) v = ok (record v { conn = at h none v.conn }, some (flag true))
promise get_host_keys v = ok (v, none)
promise get_conn_keys v = ok (v, none)

-- The part of a reply that the range order has no part in.
abbrev pub shown : Reply → Option Reply
shown (waiters wi) = none
shown (names ks) = none
shown silent = some silent
shown (flag b) = some (flag b)
shown (text t) = some (text t)
shown (host hi) = some (host hi)
shown (connection ci) = some (connection ci)
shown (config c) = some (config c)

abbrev pub seen : Outcome (State × Reply) → Outcome (View × Option Reply)
seen (ok (s, r)) = ok (view s, shown r)
seen panic = panic
seen blocked = blocked
