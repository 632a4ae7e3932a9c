-- ===== src/Fleet/Dials.antt =====
-- resolve.go: what the dials of the first link of a chain leave.
use metassh.Base.{
  ℕ, zero, suc, ◌+◌, ◌≡◌, refl, ◌⊎◌, inl, inr, Bool, true, false, ◌||◌, Bool-cases, Str, is_some,
  lookup, ok, value,
}
use metassh.Store.Types.{ConnInfo}
use metassh.Store.Serializer.{handle}
use metassh.Store.Methods.{Job, ◌>>>◌, done}
use metassh.Store.Methods
use metassh.Fleet.Net.{Net, Options}
use metassh.Fleet.Resolve.{
  Dial, connected, refused, late, Weather, spawn_remote, make_chan, after_dial, dial_once, dial_all,
  direct_link,
}
use metassh.Fleet.Sweeps.{conns}
use metassh.Fleet.Reported.{any_through, gets_through}
use metassh.Fleet.Returns.{copy_config_lem}
use metassh.Fleet.Growth.{
  IsConnected, Grows, Grows-refl, Grows-trans, Grows-IsConnected, set_conn_info_lem, joined,
  joined-Grows, joined-IsConnected,
}

abbrev pub dialled : Dial → ConnInfo → Net → Net
dialled connected ci net = joined ci net
dialled (refused err) ci net = net
dialled late ci net = net

pub after_dial_lem :
    (d : Dial) (ci : ConnInfo) (net : Net) → after_dial d ci net ≡ ok (dialled d ci net, tt)
unfolding after_dial spawn_remote
after_dial_lem connected ci net = rw (set_conn_info_lem ci net.world) refl
after_dial_lem (refused err) ci net = refl
after_dial_lem late ci net = refl

dialled_lem :
    (d : Dial) (ci : ConnInfo) (net : Net)
    → Grows net (dialled d ci net)
      × (gets_through d ≡ true → IsConnected ci.host_name (dialled d ci net))
dialled_lem connected ci net = (joined-Grows ci net, λ q. joined-IsConnected ci net)
dialled_lem (refused err) ci net = (Grows-refl net, λ q. cc)
dialled_lem late ci net = (Grows-refl net, λ q. cc)

dial_once_lem :
    (opts : Options) (weather : Weather) (p : Bool) (link : Str) (c id : ℕ) (net : Net)
    → opts.password ≡ false
    → (net' : Net) × (dial_once opts weather p link c id net ≡ ok (net', tt))
      × Grows net net'
      × (gets_through (weather.direct link id).outcome ≡ true → IsConnected link net')
unfolding dial_once
dial_once_lem opts weather p link c id net off =
    let ci : ConnInfo = record {
      host_name = link;
      is_proxy = p;
      is_direct = true;
      proxy_count = 0;
      req_chan = c;
    } in
    let d = (weather.direct link id).outcome in
    let (grows, there) = dialled_lem d ci net in
    (dialled d ci net, rw off (after_dial_lem d ci net), grows, there)

or_else_later : (a b : Bool) → a || b ≡ true → (a ≡ true) ⊎ (b ≡ true)
or_else_later true b e = inl refl
or_else_later false b e = inr e

dial_all_lem :
    (opts : Options) (weather : Weather) (p : Bool) (link : Str) (c n id : ℕ) (net : Net)
    → opts.password ≡ false
    → (net' : Net) × (dial_all opts weather p link c n id net ≡ ok (net', tt))
      × Grows net net'
      × (any_through weather link n id ≡ true → IsConnected link net')
unfolding dial_all
dial_all_lem opts weather p link c zero id net off = (net, refl, Grows-refl net, λ q. cc)
dial_all_lem opts weather p link c (suc n) id net off =
    let (net1, e1, g1, t1) = dial_once_lem opts weather p link c id net off in
    let (net2, e2, g2, t2) = dial_all_lem opts weather p link c n (id + 1) net1 off in
    (
      net2,
      rw e1 e2,
      Grows-trans net net1 net2 g1 g2,
      λ q.
          elim (or_else_later (gets_through (weather.direct link id).outcome)
            (any_through weather link n (id + 1)) q) [
              | inl now ↦ Grows-IsConnected link net1 net2 g2 (t1 now)
              | inr later ↦ t2 later
            ],
    )

-- The first link is connected already, or one of its dials gets through.
abbrev pub IsOpen : Options → Weather → Str → Net → Type 0
IsOpen opts weather link net =
    is_some (lookup link (conns net)) || any_through weather link opts.bastion_conns 0 ≡ true

pub new_chan-Grows : (net : Net) (n : ℕ) → Grows net (record net { next_chan = n })
new_chan-Grows net n = record {
  targets = refl;
  ptr = refl;
  config = refl;
  stays = λ h e. e;
  listened = λ l. l;
}

pub own-IsConnected :
    (link : Str) (net : Net) → is_some (lookup link (conns net)) ≡ true → IsConnected link net
own-IsConnected link net e = rw e refl

pub direct_link_lem :
    (opts : Options) (weather : Weather) (p : Bool) (link : Str) (net : Net)
    → opts.password ≡ false
    → is_some net.world.state.ssh_config ≡ true
    → (net' : Net) × (direct_link opts weather p link net ≡ ok (net', value tt))
      × Grows net net'
      × (IsOpen opts weather link net → IsConnected link net')
unfolding direct_link make_chan Methods.conn_exists handle
direct_link_lem opts weather p link net off config =
    elim (Bool-cases (is_some (lookup link (conns net)))) [
      | inl there ↦ (net, rw there refl, Grows-refl net, λ q. own-IsConnected link net there)
      | inr missing ↦
          let begun = record net { next_chan = net.next_chan + 1 } in
          let (net', e, g, t) =
            dial_all_lem opts weather p link net.next_chan opts.bastion_conns 0 begun off in
          (
            net',
            rw (missing, copy_config_lem net.world config) (rw e refl),
            Grows-trans net begun net' (new_chan-Grows net (net.next_chan + 1)) g,
            λ q. t (rw missing at q),
          )
    ]
