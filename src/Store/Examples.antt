-- ===== src/Store/Examples.antt =====
-- state.go: the theorems at a small fleet.
use metassh.Base.{
  ℕ, ◌≡◌, refl, ◌≢◌, ◌↔◌, true, false, none, some, List, [], ◌∷◌, ◌++◌, arith, ◌==◌, if◌then◌else◌,
  All, Str, bytes, str_eq, is_some, lookup, delete, modify, ok, panic, failure,
}
use metassh.Store.Types.{
  HostInfo, ConnInfo, WaitInfo, State, World, timeout_waiters, set_requires_pw, inc_proxy_count,
  delete_host_info, silent, flag, new_state, state_dialing,
}
use metassh.Store.Types.{Request, inc_proxy_count, host_exists}
use metassh.Store.Serializer.{with_proxy, serve}
use metassh.Store.View.{view, seen, promise}
use metassh.Store.Refinement.{serve-Refines}
use metassh.Store.History.{Stays, handle_all-Stays}
use metassh.Store.Serializer.{send, timeout_all, handle, with_pw}
use metassh.Store.Methods
use metassh.Store.Invariant.{IsValid, handle-IsValid}
use metassh.Store.Waiters.{Timed, Fresh, timeout_waiters_lem}
use metassh.Store.Races.{
  handle_all, get_host_info_amid, get_host_info_alone, get_host_info_amid_panics,
}

abbrev web : Str
web = bytes "web"

abbrev web_info : HostInfo
web_info = record {
  host_name = web;
  ip_address = bytes "10.0.0.1";
  chain = bytes "bastion" ∷ web ∷ [];
  requires_pw = false;
  connected_ok = false;
  connect_time = 0;
  run_time = 0;
  run_ok = false;
  run_once = false;
  last_error = none;
}

abbrev web_waiter : WaitInfo
web_waiter = record { host_name = web; state = state_dialing; start_time = 3; timeout_chan = 7 }

abbrev run_waiter : WaitInfo
run_waiter = record { host_name = web; state = state_dialing; start_time = 3; timeout_chan = 8 }

abbrev fleet : State
fleet = record new_state {
  targets = (web, web_info) ∷ [];
  ptr = (bytes "10.0.0.1", web) ∷ [];
  conn_waiters = (web, web_waiter) ∷ [];
  run_waiters = (web, run_waiter) ∷ [];
}

abbrev idle : World
idle = record { state = fleet; slots = λ c. none }

abbrev aborted : World
aborted = record {
  state = fleet;
  slots = λ c. if 8 == c then some false else if 7 == c then some false else none;
}

fleet-IsValid : IsValid fleet
unfolding lookup
fleet-IsValid = record {
  targets = (refl, refl, tt);
  conn = tt;
  conn_waiters = (refl, refl, tt);
  run_waiters = (refl, refl, tt);
}

abbrev flagged : World
flagged = record idle { state = record fleet { targets = (web, with_pw web_info) ∷ [] } }

handle-IsValid_example : IsValid flagged.state
unfolding handle modify lookup str_eq
handle-IsValid_example = handle-IsValid (set_requires_pw web) idle flagged silent fleet-IsValid refl

abort_runs : handle timeout_waiters idle ≡ ok (aborted, flag true)
unfolding handle timeout_all send
abort_runs = refl

idle-Fresh : Fresh idle.slots (fleet.conn_waiters ++ fleet.run_waiters)
idle-Fresh = (refl, (omega arith, tt), (refl, tt, tt))

timeout_waiters_lem_example :
    (w : World) × (handle timeout_waiters idle ≡ ok (w, flag true))
    × Timed w.slots fleet.conn_waiters
    × Timed w.slots fleet.run_waiters
    × ((c : ℕ)
        → All (λ e. e.1.timeout_chan ≢ c) fleet.conn_waiters
        → All (λ e. e.1.timeout_chan ≢ c) fleet.run_waiters
        → w.slots c ≡ none)
    × (w.state ≡ fleet)
timeout_waiters_lem_example = timeout_waiters_lem idle idle-Fresh

abbrev emptied : World
emptied = record idle { state = record fleet { targets = [] } }

get_host_info_alone_example :
    Methods.get_host_info web emptied ≡ ok (emptied, failure (bytes "Host 'web' does not exit."))
unfolding lookup
get_host_info_alone_example = get_host_info_alone web emptied

get_host_info_amid_panics_example :
    (get_host_info_amid (delete_host_info web ∷ []) web idle ≡ panic)
    ↔ (is_some (lookup web fleet.targets) ≡ true) × (lookup web emptied.state.targets ≡ none)
unfolding handle_all handle delete str_eq
get_host_info_amid_panics_example =
    get_host_info_amid_panics (delete_host_info web ∷ []) web idle emptied refl

abbrev link : ConnInfo
link = record {
  host_name = bytes "10.0.0.1";
  is_proxy = false;
  is_direct = true;
  proxy_count = 0;
  req_chan = 5;
}

abbrev linked : World
linked = record idle { state = record fleet { conn = (web, record link { host_name = web }) ∷ [] } }

serve-Refines_example :
    seen (serve (delete_host_info web) fleet) ≡ promise (delete_host_info web) (view fleet)
serve-Refines_example = serve-Refines (delete_host_info web) fleet

abbrev errands : List Request
errands = inc_proxy_count web ∷ host_exists web ∷ delete_host_info web ∷ []

abbrev busy : World
busy = record linked {
  state = record (linked.state) {
    targets = [];
    conn = (web, with_proxy (record link { host_name = web })) ∷ [];
  };
}

errands_ran : handle_all errands linked ≡ ok busy
unfolding handle_all handle modify lookup delete str_eq
errands_ran = refl

handle_all-Stays_example : Stays web (record link { host_name = web }) busy.state
unfolding lookup str_eq
handle_all-Stays_example =
    handle_all-Stays errands linked busy web (record link { host_name = web }) refl
      (refl, (refl, (refl, tt))) errands_ran
