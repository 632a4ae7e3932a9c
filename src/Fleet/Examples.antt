-- ===== src/Fleet/Examples.antt =====
-- connect.go, resolve.go, remotehost.go and json.go: the theorems at two hosts.
use metassh.Base.{
  ℕ, ◌≡◌, refl, Bool, true, false, Option, none, some, List, [], ◌∷◌, Str, bytes, str_eq, split_on,
  lookup, insert, delete, modify, ok, value, failure,
}
use metassh.Store.Types.{HostInfo, ConnInfo, World, State, new_state}
use metassh.Store.Serializer.{handle, timeout_all}
use metassh.Store.Methods
use metassh.Fleet.Net.{Net, Options, set_listeners}
use metassh.Fleet.Remote.{start_remote}
use metassh.Fleet.Proxy.{ProxyEnv, response, pw_closure, copy_config, proxy_connect}
use metassh.Fleet.Resolve.{Weather, refused}
use metassh.Fleet.Connect.{connect_one}
use metassh.Fleet.Disconnect.{disconnect_everywhere, no_proxy}
use metassh.Fleet.Json.{Server, host_of, load_blob}
use metassh.Fleet.Sweeps.{conns, survives, disconnect_everywhere-conns}
use metassh.Fleet.Reported.{targets}

abbrev pub web : Str
web = bytes "web"

abbrev pub gate : Str
gate = bytes "gate"

abbrev web_conn : ConnInfo
web_conn = record {
  host_name = web;
  is_proxy = false;
  is_direct = false;
  proxy_count = 0;
  req_chan = 0;
}

abbrev gate_conn : ConnInfo
gate_conn = record {
  host_name = gate;
  is_proxy = true;
  is_direct = true;
  proxy_count = 1;
  req_chan = 1;
}

abbrev pub serving : Options
serving = record { bastion_conns = 1; password = false; server = true; execute = false }

abbrev standalone : Options
standalone = record { bastion_conns = 1; password = false; server = false; execute = false }

abbrev slots : ℕ → Option Bool
slots c = none

abbrev pub world_of : State → World
world_of s = record { state = s; slots = slots }

abbrev pub two : Net
two = record {
  world = world_of (record new_state { conn = (gate, gate_conn) ∷ (web, web_conn) ∷ [] });
  listeners = λ c. 1;
  next_chan = 2;
  cleaned = [];
}

abbrev swept : Net
swept = record {
  world = world_of new_state;
  listeners = set_listeners 1 0 (set_listeners 0 0 λ c. 1);
  next_chan = 2;
  cleaned = 0 ∷ 1 ∷ [];
}

two-swept : disconnect_everywhere serving true two ≡ ok (swept, tt)
unfolding disconnect_everywhere handle Methods.timeout_waiters timeout_all Methods.get_conn_keys
    Methods.get_conn_info lookup str_eq Methods.delete_conn_info delete
two-swept = refl

disconnect_everywhere-conns_example :
    (true ≡ true → conns swept ≡ [])
    × (true ≡ false
        → (j : Str) → lookup j (conns swept) ≡ survives no_proxy true (lookup j (conns two)))
disconnect_everywhere-conns_example = disconnect_everywhere-conns serving true two swept two-swept

web_found : lookup web (conns two) ≡ some web_conn
unfolding lookup str_eq
web_found = refl

web_started :
    start_remote web false false true false two.world
    ≡ ok (
      two.world,
      (record { me = web; is_proxy = false; session = true; mux = false; mux_failed = false }, []),
    )
unfolding start_remote Methods.get_ptr handle str_eq lookup
web_started = refl

abbrev pub web_host : HostInfo
web_host = host_of (record { name = web; chain = web })

abbrev refusal : Str
refusal = bytes "refused"

-- No dial gets through.
abbrev pub storm : Weather
storm = record {
  direct = λ link id. record { asks_password = false; outcome = refused refusal };
  proxied = λ link. record {
    dial_error = none;
    asks_password = false;
    handshake_error = none;
    arrival = response;
  };
  now = 0;
  timer = λ link. 0;
  elapsed = λ link. 9;
  ran = λ link. failure refusal;
  run_time = λ link. 0;
}

abbrev pub one_target : Net
one_target = record {
  world = world_of (record new_state { ssh_config = some 0; targets = (web, web_host) ∷ [] });
  listeners = λ c. 0;
  next_chan = 0;
  cleaned = [];
}

abbrev reported : Net
reported = record {
  world = world_of (record new_state {
    ssh_config = some 0;
    targets =
        (web, record web_host { connected_ok = true; connect_time = 9; last_error = none }) ∷ [];
  });
  listeners = λ c. 0;
  next_chan = 1;
  cleaned = [];
}

one_reported : connect_one serving storm web one_target ≡ ok (reported, tt)
unfolding connect_one handle Methods.get_host_info lookup str_eq split_on Methods.conn_exists
    Methods.set_connection_status modify copy_config Methods.get_ssh_config
one_reported = refl

pub web_targeted : lookup web (targets one_target) ≡ some web_host
unfolding lookup str_eq
web_targeted = refl

pub web_chain : web_host.chain ≡ web ∷ []
unfolding split_on
web_chain = refl

abbrev nobody : Net
nobody = record one_target { world = world_of new_state }

abbrev pub servers : List Server
servers = record { name = web; chain = web } ∷ record { name = web; chain = gate } ∷ []

abbrev loaded : World
loaded = world_of (record new_state { targets = (web, web_host) ∷ []; ptr = ([], web) ∷ [] })

servers-loaded : load_blob (value servers) (world_of new_state) ≡ ok (loaded, value 1)
unfolding load_blob Methods.host_exists Methods.set_host_info handle insert lookup str_eq
servers-loaded = refl

abbrev pub smooth : ProxyEnv
smooth = record {
  dial_error = none;
  asks_password = true;
  handshake_error = none;
  arrival = response;
}

abbrev asked : World
asked = world_of (record new_state {
  ssh_config = some 0;
  targets = (web, record web_host { requires_pw = true }) ∷ [];
})

web_proxied : proxy_connect true 3 5 web smooth one_target.world ≡ ok (asked, value tt)
unfolding proxy_connect pw_closure Methods.get_ptr Methods.set_conn_wait_info
    Methods.set_conn_wait_state Methods.set_requires_pw Methods.get_auth_pass
    Methods.delete_conn_wait_info copy_config Methods.get_ssh_config handle lookup insert modify
    delete str_eq
web_proxied = refl
