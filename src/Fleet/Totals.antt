-- ===== src/Fleet/Totals.antt =====
-- proxy.go and connect.go: what a connection attempt comes back with, and that it does.
use metassh.Base.{
  ℕ, ◌≡◌, ◌↔◌, Bool, true, false, none, some, [], ◌∷◌, Str, is_some, lookup, ok, Result, value,
}
use metassh.Store.Types.{HostInfo, World}
use metassh.Store.Races.{ptr_of}
use metassh.Fleet.Net.{Net, Options}
use metassh.Fleet.Proxy.{ProxyEnv, response, proxy_connect}
use metassh.Fleet.Resolve.{Weather}
use metassh.Fleet.Connect.{connect_one}
use metassh.Fleet.Sweeps.{conns}
use metassh.Fleet.Reported.{targets, any_through, direct_host_reported}
use metassh.Fleet.Waits.{proxy_connect_ends}
use metassh.Fleet.Returns.{Ready, proxy_connect-Ends, connect_one-Ends}

-- With a configuration, and if passwords are on with the target among the targets, a proxied
-- connection comes back; it leaves no waiter for its target, and succeeds exactly when the dialling
-- and the handshake do and the response comes first.
pub proxy_connect_lem :
    (password : Bool) (now timeout : ℕ) (target : Str) (env : ProxyEnv) (w : World)
    → Ready password target w
    → (w' : World) × (res : Result (Unit {0})) × (proxy_connect password now timeout target env w
        ≡ ok (w', res))
      × (lookup (ptr_of target w'.state) w'.state.conn_waiters ≡ none)
      × ((res ≡ value tt)
          ↔ ((env.dial_error ≡ none) × (env.handshake_error ≡ none) × (env.arrival ≡ response)))
proxy_connect_lem password now timeout target env w ready =
    let ((w', res), e) = proxy_connect-Ends password now timeout target env w ready in
    let (gone, verdict) = proxy_connect_ends password now timeout target env w w' res e in
    (w', res, e, gone, verdict)

-- Without passwords and without a test command, and with a configuration, the attempt to connect a
-- target whose chain is one link comes back and reports it as connected and without an error,
-- whatever the dials do; if none of them gets through, the connections are those of before.
pub connect_one_lem :
    (opts : Options) (weather : Weather) (me link : Str) (hi : HostInfo) (net : Net)
    → opts.password ≡ false
    → opts.execute ≡ false
    → is_some net.world.state.ssh_config ≡ true
    → lookup me (targets net) ≡ some hi
    → hi.chain ≡ link ∷ []
    → (net' : Net) × (connect_one opts weather me net ≡ ok (net', tt))
      × (lookup me (targets net')
          ≡ some (record hi {
            connected_ok = true;
            connect_time = weather.elapsed me;
            last_error = none;
          }))
      × (any_through weather link opts.bastion_conns 0 ≡ false → conns net' ≡ conns net)
connect_one_lem opts weather me link hi net off quiet config there one =
    let ((net', _), e) = connect_one-Ends opts weather me link hi net off quiet config there one in
    let (told, kept) =
      direct_host_reported opts weather me link hi net net' off quiet there one e in
    (net', e, told, kept)
