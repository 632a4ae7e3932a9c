-- ===== src/Fleet/Reported.antt =====
-- connect.go and resolve.go: what is reported of a host that is reached directly, and of no hosts.
use metassh.Base.{
  ℕ, zero, suc, ◌+◌, ◌≡◌, refl, sym, ap, ◌∙◌, inl, inr, Bool, true, false, ◌&&◌, ◌||◌, none, some,
  [], ◌∷◌, arith, if◌then◌else◌, Bool-cases, Option-cases, Str, str_eq_refl, Dict, is_some, lookup,
  lookup-modify, ok, bind-ok, ok_injective, Result, value,
}
use metassh.Store.Types.{HostInfo, ConnInfo, ConnectionStatus, World}
use metassh.Store.Serializer.{handle, with_connection}
use metassh.Store.Methods.{Job, ◌>>>◌, done}
use metassh.Store.Methods
use metassh.Store.Races.{get_host_info_alone}
use metassh.Fleet.Net.{Net, Options, on_world}
use metassh.Fleet.Proxy.{copy_config}
use metassh.Fleet.Resolve.{
  Dial, connected, refused, late, Weather, spawn_remote, make_chan, after_dial, dial_once, dial_all,
  direct_link, resolve_after, resolve, resolve_each, resolve_proxies,
}
use metassh.Fleet.Connect.{
  connect_one, connect_each, connect_everywhere, error_of, succeeded, run_once,
}
use metassh.Fleet.Sweeps.{conns}

abbrev pub targets : Net → Dict HostInfo
targets net = net.world.state.targets

abbrev pub gets_through : Dial → Bool
gets_through connected = true
gets_through (refused err) = false
gets_through late = false

set_conn_info_targets :
    (ci : ConnInfo) (w w' : World)
    → Methods.set_conn_info ci w ≡ ok (w', tt)
    → w'.state.targets ≡ w.state.targets
unfolding Methods.set_conn_info handle
set_conn_info_targets ci w w' e = ground arith

-- What dialling leaves alone.
abbrev Kept : Bool → Net → Net → Type 0
Kept through net net' = (targets net' ≡ targets net) × (through ≡ false → conns net' ≡ conns net)

after_dial-Kept :
    (d : Dial) (ci : ConnInfo) (net net' : Net)
    → after_dial d ci net ≡ ok (net', tt)
    → Kept (gets_through d) net net'
unfolding after_dial spawn_remote
after_dial-Kept connected ci net net' e =
    let ((w, _), p, q) = bind-ok (Methods.set_conn_info ci net.world) _ e in
    (
      ap (λ (r : Net × Unit {0}). targets r.0) (sym (ok_injective q))
          ∙ set_conn_info_targets ci net.world w p,
      λ f. cc,
    )
after_dial-Kept (refused err) ci net net' e =
    let same = ap (λ (r : Net × Unit {0}). r.0) (sym (ok_injective e)) in
    (ap targets same, λ _. ap conns same)
after_dial-Kept late ci net net' e =
    let same = ap (λ (r : Net × Unit {0}). r.0) (sym (ok_injective e)) in
    (ap targets same, λ _. ap conns same)

dial_once-Kept :
    (opts : Options) (weather : Weather) (p : Bool) (link : Str) (c id : ℕ) (net net' : Net)
    → opts.password ≡ false
    → dial_once opts weather p link c id net ≡ ok (net', tt)
    → Kept (gets_through (weather.direct link id).outcome) net net'
unfolding dial_once
dial_once-Kept opts weather p link c id net net' off e =
    after_dial-Kept (weather.direct link id).outcome _ net net' (rw (off, dial_once) at e)

-- Some dial of the numbers `id` to `id + n - 1` gets through.
abbrev pub any_through : Weather → Str → ℕ → ℕ → Bool
any_through weather link zero id = false
any_through weather link (suc n) id =
    gets_through (weather.direct link id).outcome || any_through weather link n (id + 1)

dial_all-Kept :
    (opts : Options) (weather : Weather) (p : Bool) (link : Str) (c n id : ℕ) (net net' : Net)
    → opts.password ≡ false
    → dial_all opts weather p link c n id net ≡ ok (net', tt)
    → Kept (any_through weather link n id) net net'
unfolding dial_all
dial_all-Kept opts weather p link c zero id net net' off e =
    let same = ap (λ (r : Net × Unit {0}). r.0) (sym (ok_injective e)) in
    (ap targets same, λ _. ap conns same)
dial_all-Kept opts weather p link c (suc n) id net net' off e =
    let ((net1, _), q, r) = bind-ok (dial_once opts weather p link c id net) _ e in
    let (t1, c1) = dial_once-Kept opts weather p link c id net net1 off q in
    let (t2, c2) = dial_all-Kept opts weather p link c n (id + 1) net1 net' off r in
    (t2 ∙ t1, λ f. c2 (ground arith) ∙ c1 (ground arith))

copy_config_kept :
    (net net' : Net)
    → on_world copy_config net ≡ ok (net', tt)
    → (targets net' ≡ targets net) × (conns net' ≡ conns net)
unfolding copy_config Methods.get_ssh_config handle
copy_config_kept net net' e = elim (Option-cases net.world.state.ssh_config) [
  | inl missing ↦ ground arith
  | inr (c, there) ↦
      let q = ok_injective (rw there at e) in
      (
        sym (ap (λ (r : Net × Unit {0}). targets r.0) q),
        sym (ap (λ (r : Net × Unit {0}). conns r.0) q),
      )
]

direct_link-Kept :
    (opts : Options) (weather : Weather) (p : Bool) (link : Str) (net net' : Net)
    (res : Result (Unit {0}))
    → opts.password ≡ false
    → direct_link opts weather p link net ≡ ok (net', res)
    → Kept (any_through weather link opts.bastion_conns 0) net net'
unfolding direct_link make_chan Methods.conn_exists handle
direct_link-Kept opts weather p link net net' res off e =
    elim (Bool-cases (is_some (lookup link (conns net)))) [
      | inl there ↦
          let q = ok_injective (rw (there, direct_link) at e) in
          let same = ap (λ (r : Net × Result (Unit {0})). r.0) (sym q) in
          (ap targets same, λ _. ap conns same)
      | inr missing ↦
          let begun = record net { next_chan = net.next_chan + 1 } in
          let ((net0, _), q0, r0) =
            bind-ok (on_world copy_config begun) _ (rw (missing, direct_link) at e) in
          let ((net1, _), q, r) =
            bind-ok (dial_all opts weather p link net.next_chan opts.bastion_conns 0 net0) _ r0 in
          let (t0, c0) = copy_config_kept begun net0 q0 in
          let same = ap (λ (x : Net × Result (Unit {0})). x.0) (sym (ok_injective r)) in
          let (t1, c1) =
            dial_all-Kept opts weather p link net.next_chan opts.bastion_conns 0 net0 net1 off q in
          (ap targets same ∙ t1 ∙ t0, λ f. ap conns same ∙ c1 f ∙ c0)
    ]

resolve_one-Kept :
    (opts : Options) (weather : Weather) (link : Str) (net net' : Net) (res : Result (Unit {0}))
    → opts.password ≡ false
    → resolve opts weather false (link ∷ []) net ≡ ok (net', res)
    → (res ≡ value tt) × Kept (any_through weather link opts.bastion_conns 0) net net'
unfolding resolve resolve_after
resolve_one-Kept opts weather link net net' res off e =
    let ((net1, res1), q, r) = bind-ok (direct_link opts weather false link net) _ e in
    let same = ap (λ (x : Net × Result (Unit {0})). x.0) (sym (ok_injective r)) in
    let (t1, c1) = direct_link-Kept opts weather false link net net1 res1 off q in
    (
      ap (λ (x : Net × Result (Unit {0})). x.1) (sym (ok_injective r)),
      (ap targets same ∙ t1, λ f. ap conns same ∙ c1 f),
    )

set_connection_status_present :
    (scs : ConnectionStatus) (hi : HostInfo) (net net' : Net)
    → lookup scs.host_name (targets net) ≡ some hi
    → on_world (Methods.set_connection_status scs) net ≡ ok (net', tt)
    → (lookup scs.host_name (targets net')
        ≡ some (record hi {
          connected_ok = scs.connected_ok;
          connect_time = scs.connect_time;
          last_error = scs.last_error;
        }))
      × (conns net' ≡ conns net)
unfolding Methods.set_connection_status handle
set_connection_status_present scs hi net net' there e =
    let same = ap (λ (r : Net × Unit {0}). r.0) (sym (ok_injective (rw there at e))) in
    (
      ap (λ n. lookup scs.host_name (targets n)) same
          ∙ lookup-modify scs.host_name scs.host_name (with_connection scs) (targets net)
          ∙ rw (str_eq_refl scs.host_name, there) refl,
      ap conns same,
    )

-- What `connect_one` does after a resolution that succeeds, without a command to run.
filed :
    (opts : Options) (weather : Weather) (me : Str) (hi : HostInfo) (net net' : Net)
    (res : Result (Unit {0}))
    → opts.execute ≡ false
    → res ≡ value tt
    → lookup me (targets net) ≡ some hi
    → (on_world (
            Methods.set_connection_status (record {
              host_name = me;
              connected_ok = succeeded res;
              connect_time = weather.elapsed me;
              last_error = error_of res;
            }))
          >>> λ _. if succeeded res && opts.execute then run_once weather me else done tt)
        net
      ≡ ok (net', tt)
    → (lookup me (targets net')
        ≡ some (record hi {
          connected_ok = true;
          connect_time = weather.elapsed me;
          last_error = none;
        }))
      × (conns net' ≡ conns net)
filed opts weather me hi net net' res quiet fine there e =
    let scs : ConnectionStatus = record {
      host_name = me;
      connected_ok = true;
      connect_time = weather.elapsed me;
      last_error = none;
    } in
    let ((net2, _), p, q) =
      bind-ok (on_world (Methods.set_connection_status scs) net) _ (rw (fine, quiet) at e) in
    let same = ap (λ (r : Net × Unit {0}). r.0) (ok_injective q) in
    set_connection_status_present scs hi net net' there (p ∙ ap (λ (n : Net). ok (n, tt)) same)

-- Without passwords and without a test command, a `connect_one` that returns reports a target whose
-- chain is one link as connected and without an error, whatever the dials do; if none of them gets
-- through, the connections are those of before.
pub direct_host_reported :
    (opts : Options) (weather : Weather) (me link : Str) (hi : HostInfo) (net net' : Net)
    → opts.password ≡ false
    → opts.execute ≡ false
    → lookup me (targets net) ≡ some hi
    → hi.chain ≡ link ∷ []
    → connect_one opts weather me net ≡ ok (net', tt)
    → (lookup me (targets net')
        ≡ some (record hi {
          connected_ok = true;
          connect_time = weather.elapsed me;
          last_error = none;
        }))
      × (any_through weather link opts.bastion_conns 0 ≡ false → conns net' ≡ conns net)
unfolding connect_one
direct_host_reported opts weather me link hi net net' off quiet there one e =
    let e' = rw (get_host_info_alone me net.world, there, one) at e in
    let ((net1, res), p, q) = bind-ok (resolve opts weather false (link ∷ []) net) _ e' in
    let (fine, kept) = resolve_one-Kept opts weather link net net1 res off p in
    let (t1, c1) = kept in
    let (told, c2) =
      filed opts weather me hi net1 net' res quiet fine (ap (lookup me) t1 ∙ there) q in
    (told, λ f. c2 ∙ c1 f)

-- With no target at all, one connected host is reported.
pub connect_everywhere_none :
    (opts : Options) (weather : Weather) (net : Net)
    → targets net ≡ []
    → connect_everywhere opts weather net ≡ ok (net, some 1)
unfolding connect_everywhere resolve_proxies resolve_each connect_each Methods.get_host_keys handle
connect_everywhere_none opts weather net none_yet = rw none_yet refl
