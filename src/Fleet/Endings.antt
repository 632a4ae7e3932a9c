-- ===== src/Fleet/Endings.antt =====
-- connect.go, proxy.go and json.go: the theorems that a call returns, at the two hosts.
use metassh.Base.{
  refl, true, arith, str_eq, str_eq_iff, lookup, Ends, value, ℕ, ◌≡◌, ◌↔◌, false, none, some, ok,
  Result,
}
use metassh.Store.Types.{new_state}
use metassh.Fleet.Proxy.{proxy_connect}
use metassh.Fleet.Connect.{connect_one}
use metassh.Fleet.Disconnect.{disconnect_everywhere}
use metassh.Fleet.Json.{load_blob}
use metassh.Fleet.Manned.{Manned, disconnect_everywhere-Ends}
use metassh.Fleet.Returns.{Ready}
use metassh.Fleet.Loading.{Loaded, load_blob_lem}
use metassh.Fleet.Totals.{proxy_connect_lem, connect_one_lem}
use metassh.Fleet.Sweeps.{conns}
use metassh.Fleet.Reported.{targets, any_through}
use metassh.Fleet.Net.{Net}
use metassh.Fleet.Proxy.{response}
use metassh.Store.Races.{ptr_of}
use metassh.Store.Types.{World}
use metassh.Fleet.Examples.{
  web, gate, serving, two, web_host, storm, one_target, servers, smooth, world_of, web_targeted,
  web_chain,
}

load_blob_lem_example :
    (w' : World) × (count : ℕ) × (load_blob (value servers) (world_of new_state)
      ≡ ok (w', value count))
    × Loaded servers 0 count (world_of new_state) w'
load_blob_lem_example = load_blob_lem servers (world_of new_state)

web-Ready : Ready true web one_target.world
unfolding lookup str_eq
web-Ready = (refl, λ q. refl)

proxy_connect_lem_example :
    (w' : World) × (res : Result (Unit {0})) × (proxy_connect true 3 5 web smooth one_target.world
      ≡ ok (w', res))
    × (lookup (ptr_of web w'.state) w'.state.conn_waiters ≡ none)
    × ((res ≡ value tt) ↔ (
        (smooth.dial_error ≡ none) × (smooth.handshake_error ≡ none) × (smooth.arrival ≡ response)))
proxy_connect_lem_example = proxy_connect_lem true 3 5 web smooth one_target.world web-Ready

connect_one_lem_example :
    (net' : Net) × (connect_one serving storm web one_target ≡ ok (net', tt))
    × (lookup web (targets net')
        ≡ some (record web_host { connected_ok = true; connect_time = 9; last_error = none }))
    × (any_through storm web 1 0 ≡ false → conns net' ≡ conns one_target)
connect_one_lem_example =
    connect_one_lem serving storm web web web_host one_target refl refl refl web_targeted web_chain

two-Manned : Manned serving two
unfolding lookup
two-Manned h ci e = (
  ground arith,
  ground arith,
  λ j cj f q.
      ground (arith, str_eq_iff gate j, str_eq_iff web j, str_eq_iff gate h, str_eq_iff web h),
)

disconnect_everywhere-Ends_example : Ends (disconnect_everywhere serving true two)
disconnect_everywhere-Ends_example = disconnect_everywhere-Ends serving true two tt two-Manned
