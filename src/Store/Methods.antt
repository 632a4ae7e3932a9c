-- ===== src/Store/Methods.antt =====
-- state.go: the methods of `*State`, each a sequence of exchanges with the serializer.
use metassh.Base.{
  ℕ, Bool, Option, List, ◌++◌, if◌then◌else◌, Str, bytes, Outcome, ok, panic, ◌>>=◌, Result, value,
  failure,
}
use metassh.Store.Types.{
  HostInfo, ConnInfo, WaitInfo, WaiterInfo, ConnectionStatus, RunStatus, Request, Reply, World,
}
use metassh.Store.Serializer.{handle}

-- Code that talks to the serializer, with nobody else in between.
abbrev pub Act {ℓ} : Type ℓ → Type ℓ
Act A = World → Outcome (World × A)

-- The same over any state.
abbrev pub Job {ℓ} : Type 0 → Type ℓ → Type ℓ
Job S A = S → Outcome (S × A)

infixl 5 ◌>>>◌
abbrev pub ◌>>>◌ {ℓ κ} : {S : Type 0} {A : Type ℓ} {B : Type κ} → Job S A → (A → Job S B) → Job S B
◌>>>◌ m f w = m w >>= λ r. f r.1 r.0

abbrev pub done {ℓ} : {S : Type 0} {A : Type ℓ} → A → Job S A
done a w = ok (w, a)

-- A request whose reply is not waited for.
abbrev pub post : Request → Act (Unit {0})
post req w = handle req w >>= λ r. ok (r.0, tt)

-- The serializer answers each request with a reply of its own kind, so no other reply comes.
abbrev pub to_text : Reply → Outcome Str
to_text (Reply.text t) = ok t
to_text _ = panic

abbrev pub to_flag : Reply → Outcome Bool
to_flag (Reply.flag b) = ok b
to_flag _ = panic

abbrev pub to_names : Reply → Outcome (List Str)
to_names (Reply.names l) = ok l
to_names _ = panic

abbrev pub to_host : Reply → Outcome HostInfo
to_host (Reply.host hi) = ok hi
to_host _ = panic

abbrev pub to_connection : Reply → Outcome ConnInfo
to_connection (Reply.connection ci) = ok ci
to_connection _ = panic

abbrev pub to_waiters : Reply → Outcome WaiterInfo
to_waiters (Reply.waiters wi) = ok wi
to_waiters _ = panic

abbrev pub to_config : Reply → Outcome (Option ℕ)
to_config (Reply.config c) = ok c
to_config _ = panic

-- A request whose reply is waited for.
abbrev pub ask {ℓ} : {A : Type ℓ} → (Reply → Outcome A) → Request → Act A
ask read req w = handle req w >>= λ r. read r.1 >>= λ a. ok (r.0, a)

unfoldable pub get_ptr : Str → Act Str
get_ptr ip = ask to_text (Request.get_ptr ip)

unfoldable pub set_connection_status : ConnectionStatus → Act (Unit {0})
set_connection_status scs = post (Request.set_connection_status scs)

unfoldable pub set_run_status : RunStatus → Act (Unit {0})
set_run_status srs = post (Request.set_run_status srs)

unfoldable pub inc_proxy_count : Str → Act (Unit {0})
inc_proxy_count h = post (Request.inc_proxy_count h)

unfoldable pub get_auth_pass : Act Str
get_auth_pass = ask to_text Request.get_auth_pass

unfoldable pub set_auth_pass : Str → Act (Unit {0})
set_auth_pass p = post (Request.set_auth_pass p)

unfoldable pub set_requires_pw : Str → Act (Unit {0})
set_requires_pw h = post (Request.set_requires_pw h)

unfoldable pub get_ssh_config : Act (Option ℕ)
get_ssh_config = ask to_config Request.get_ssh_config

unfoldable pub set_ssh_config : Option ℕ → Act (Unit {0})
set_ssh_config c = post (Request.set_ssh_config c)

unfoldable pub host_exists : Str → Act Bool
host_exists h = ask to_flag (Request.host_exists h)

unfoldable pub get_host_info : Str → Act (Result HostInfo)
unfolding host_exists
get_host_info h = host_exists h >>> λ exists.
    if exists
    then ask to_host (Request.get_host_info h) >>> (λ hi. done (value hi))
    else done (failure (bytes "Host '" ++ h ++ bytes "' does not exit."))

unfoldable pub clear_host_info : Act (Unit {0})
clear_host_info = ask to_flag Request.clear_host_info >>> λ _. done tt

unfoldable pub set_host_info : HostInfo → Act (Unit {0})
set_host_info hi = post (Request.set_host_info hi)

unfoldable pub delete_host_info : Str → Act (Unit {0})
delete_host_info h = ask to_flag (Request.delete_host_info h) >>> λ _. done tt

unfoldable pub get_host_keys : Act (List Str)
get_host_keys = ask to_names Request.get_host_keys

unfoldable pub conn_exists : Str → Act Bool
conn_exists h = ask to_flag (Request.conn_exists h)

unfoldable pub get_conn_info : Str → Act (Result ConnInfo)
unfolding conn_exists
get_conn_info h = conn_exists h >>> λ exists.
    if exists
    then ask to_connection (Request.get_conn_info h) >>> (λ ci. done (value ci))
    else done (failure (bytes "Connection '" ++ h ++ bytes "' does not exist."))

unfoldable pub set_conn_info : ConnInfo → Act (Unit {0})
unfolding get_ptr
set_conn_info ci =
    get_ptr ci.host_name >>> λ h. post (Request.set_conn_info (record ci { host_name = h }))

unfoldable pub delete_conn_info : Str → Act (Unit {0})
delete_conn_info h = ask to_flag (Request.delete_conn_info h) >>> λ _. done tt

unfoldable pub get_conn_keys : Act (List Str)
get_conn_keys = ask to_names Request.get_conn_keys

unfoldable pub get_waiter_info : ℕ → Act WaiterInfo
get_waiter_info now = ask to_waiters (Request.get_waiter_info now)

unfoldable pub set_conn_wait_info : WaitInfo → Act (Unit {0})
unfolding get_ptr
set_conn_wait_info wi =
    get_ptr wi.host_name >>> λ h. post (Request.set_conn_wait_info (record wi { host_name = h }))

unfoldable pub set_conn_wait_state : Str → Str → Act (Unit {0})
unfolding get_ptr
set_conn_wait_state h st = get_ptr h >>> λ name. post (Request.set_conn_wait_state name st)

unfoldable pub set_run_wait_state : Str → Str → Act (Unit {0})
unfolding get_ptr
set_run_wait_state h st = get_ptr h >>> λ name. post (Request.set_run_wait_state name st)

unfoldable pub delete_conn_wait_info : Str → Act (Unit {0})
unfolding get_ptr
delete_conn_wait_info h = get_ptr h >>> λ name. post (Request.delete_conn_wait_info name)

unfoldable pub set_run_wait_info : WaitInfo → Act (Unit {0})
unfolding get_ptr
set_run_wait_info wi =
    get_ptr wi.host_name >>> λ h. post (Request.set_run_wait_info (record wi { host_name = h }))

unfoldable pub delete_run_wait_info : Str → Act (Unit {0})
unfolding get_ptr
delete_run_wait_info h = get_ptr h >>> λ name. post (Request.delete_run_wait_info name)

unfoldable pub timeout_waiters : Act (Unit {0})
timeout_waiters = ask to_flag Request.timeout_waiters >>> λ _. done tt
