-- ===== src/Fleet/Arrivals.antt =====
-- connect.go: what the attempt to connect a target along its chain leaves and reports.
use metassh.Base.{
  ◌≡◌, refl, ap, ◌∙◌, Bool, true, false, ◌&&◌, none, some, List, ◌∷◌, arith, All, Str, str_eq_refl,
  is_some, lookup, modify, lookup-modify, ok, Result, value, failure,
}
use metassh.Store.Types.{HostInfo, ConnectionStatus}
use metassh.Store.Serializer.{handle, with_connection}
use metassh.Store.Methods.{Job, ◌>>>◌, done}
use metassh.Store.Methods
use metassh.Store.Races.{get_host_info_alone}
use metassh.Fleet.Net.{Net, Options, on_world}
use metassh.Fleet.Resolve.{Weather, resolve}
use metassh.Fleet.Connect.{connect_one, error_of, succeeded}
use metassh.Fleet.Reported.{targets}
use metassh.Fleet.Growth.{IsConnected, IsListened}
use metassh.Fleet.Dials.{IsOpen}
use metassh.Fleet.Links.{GetsThrough}
use metassh.Fleet.Chains.{OwnNames, resolve_lem}

abbrev pub reported : ConnectionStatus → Net → Net
reported scs net = record net {
  world = record (net.world) {
    state = record (net.world.state) {
      targets = modify scs.host_name (with_connection scs) (targets net);
    };
  };
}

pub set_status_lem :
    (scs : ConnectionStatus) (hi : HostInfo) (net : Net)
    → lookup scs.host_name (targets net) ≡ some hi
    → (on_world (Methods.set_connection_status scs) net ≡ ok (reported scs net, tt))
      × (lookup scs.host_name (targets (reported scs net)) ≡ some (with_connection scs hi))
unfolding Methods.set_connection_status handle
set_status_lem scs hi net there = (
  rw there refl,
  ground (
    arith,
    lookup-modify scs.host_name scs.host_name (with_connection scs) (targets net),
    str_eq_refl scs.host_name,
  ),
)

pub and_quiet : (a b : Bool) → b ≡ false → a && b ≡ false
and_quiet a b e = ground arith

-- The target with the outcome of `resolve` on record.
abbrev pub arrived : Weather → Str → Result (Unit {0}) → HostInfo → HostInfo
arrived weather me (value u) hi = record hi {
  connected_ok = true;
  connect_time = weather.elapsed me;
  last_error = none;
}
arrived weather me (failure err) hi = record hi {
  connected_ok = false;
  connect_time = weather.elapsed me;
  last_error = some err;
}

-- The status that `connectEverywhere` reports.
abbrev pub tried_as : Weather → Str → Result (Unit {0}) → ConnectionStatus
tried_as weather me res = record {
  host_name = me;
  connected_ok = succeeded res;
  connect_time = weather.elapsed me;
  last_error = error_of res;
}

arrived-with_connection :
    (weather : Weather) (me : Str) (res : Result (Unit {0})) (hi : HostInfo)
    → with_connection (tried_as weather me res) hi ≡ arrived weather me res hi
arrived-with_connection weather me (value u) hi = refl
arrived-with_connection weather me (failure err) hi = refl

-- The report of `res` is what is filed.
pub reported_lem :
    (weather : Weather) (me : Str) (res : Result (Unit {0})) (hi : HostInfo) (net : Net)
    → lookup me (targets net) ≡ some hi
    → lookup me (targets (reported (tried_as weather me res) net))
      ≡ some (arrived weather me res hi)
reported_lem weather me res hi net there =
    (set_status_lem (tried_as weather me res) hi net there).1
    ∙ ap (λ h. some h) (arrived-with_connection weather me res hi)

-- Without passwords and without a test command, with a configuration, with a goroutine listening on
-- each connection, and for a target in whose chain each link but the last is no target's address:
-- the attempt to connect it comes back and files what `resolve` along its chain returns: without an
-- error the target is connected and has no error, and else it is not connected and has that error.
-- Then, if the first link was connected or one of its dials gets through, every link of the
-- chain is connected, and there is no error if every proxied connection gets through in time.
pub connect_one-chain :
    (opts : Options) (weather : Weather) (me link : Str) (rest : List Str) (hi : HostInfo)
    (net : Net)
    → opts.password ≡ false
    → opts.execute ≡ false
    → is_some net.world.state.ssh_config ≡ true
    → IsListened net
    → lookup me (targets net) ≡ some hi
    → hi.chain ≡ link ∷ rest
    → OwnNames (link ∷ rest) net
    → (net' : Net) × (net1 : Net) × (res : Result (Unit {0})) × (connect_one opts weather me net
        ≡ ok (net', tt))
      × (resolve opts weather false (link ∷ rest) net ≡ ok (net1, res))
      × (lookup me (targets net') ≡ some (arrived weather me res hi))
      × (IsOpen opts weather link net
          → res ≡ value tt
          → All (λ l. IsConnected l net') (link ∷ rest))
      × (All (λ l. GetsThrough (weather.proxied l)) rest → res ≡ value tt)
unfolding connect_one
connect_one-chain opts weather me link rest hi net off quiet config listened there chain own =
    let (net1, res, e, g, all_connected, fine) =
      resolve_lem opts weather false link rest net off config listened own in
    let scs = tried_as weather me res in
    let (f, told) = set_status_lem scs hi net1 (ap (lookup me) g.targets ∙ there) in
    (
      reported scs net1,
      net1,
      res,
      rw (get_host_info_alone me net.world, there, chain)
          (rw e (rw f (rw (and_quiet (succeeded res) opts.execute quiet) refl))),
      e,
      reported_lem weather me res hi net1 (ap (lookup me) g.targets ∙ there),
      all_connected,
      fine,
    )
