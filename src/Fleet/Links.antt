-- ===== src/Fleet/Links.antt =====
-- resolve.go: what a link of a chain is made of through the one before it.
use metassh.Base.{
  ℕ, ◌+◌, ◌<◌, ◌≡◌, refl, sym, ap, ◌∙◌, ◌≢◌, ◌⊎◌, inl, inr, Bool, true, false, Option, none, some,
  arith, ◌==◌, Bool-cases, Option-cases, Str, is_some, lookup, modify, ok, Result, value, failure,
}
use metassh.Store.Types.{ConnInfo, World}
use metassh.Store.Serializer.{handle, with_proxy}
use metassh.Store.Methods.{Job, ◌>>>◌, done}
use metassh.Store.Methods
use metassh.Store.Races.{get_conn_info_alone}
use metassh.Fleet.Net.{Net, Options}
use metassh.Fleet.Proxy.{ProxyEnv, response, proxy_connect}
use metassh.Fleet.Resolve.{Weather, spawn_remote, make_chan, reach, proxied_link}
use metassh.Fleet.Sweeps.{conns}
use metassh.Fleet.Totals.{proxy_connect_lem}
use metassh.Fleet.Steady.{Same, proxy_connect-Same}
use metassh.Fleet.Growth.{
  IsConnected, IsListened, Grows, Grows-refl, Grows-trans, set_conn_info_lem, inc_proxy_count_lem,
  joined, joined-Grows, joined-IsConnected, tallied, tallied-Grows, Same-Grows, with_conn,
}
use metassh.Fleet.Dials.{own-IsConnected, new_chan-Grows}

-- The proxied connection is made, in time.
abbrev pub GetsThrough : ProxyEnv → Type 0
GetsThrough env = (env.dial_error ≡ none) × (env.handshake_error ≡ none) × (env.arrival ≡ response)

-- What is made of a link through the one before it: a connection if that one is connected under
-- its own name, and no error if the connection is made.
pub record Links (weather : Weather) (before link : Str) (net net' : Net) (res : Result (Unit {0}))
    : Type 0 where
  pub grows : Grows net net'
  pub links : is_some (lookup before (conns net)) ≡ true → res ≡ value tt → IsConnected link net'
  pub fine : GetsThrough (weather.proxied link) → res ≡ value tt

pub result_cases :
    (res : Result (Unit {0})) → (res ≡ value tt) ⊎ ((err : Str) × (res ≡ failure err))
result_cases (value tt) = inl refl
result_cases (failure err) = inr (err, refl)

not_zero : (n : ℕ) → 0 < n → (n == 0) ≡ false
not_zero n h = ground arith

module _ (opts : Options) (weather : Weather) (p : Bool) (off : opts.password ≡ false) where
  -- The connection to file.
  abbrev fresh_conn : Str → ℕ → ConnInfo
  fresh_conn link c = record {
    host_name = link;
    is_proxy = p;
    is_direct = false;
    proxy_count = 0;
    req_chan = c;
  }

  -- What a connection through `before` leaves, before its goroutine and with it.
  abbrev through : Str → Net → World → Net
  through before net w = record (tallied before (record net { world = w })) {
    next_chan = net.next_chan + 1;
  }

  abbrev linked : Str → Str → Net → World → Net
  linked before link net w = joined (fresh_conn link net.next_chan) (through before net w)

  linked-Grows :
      (before link : Str) (net : Net) (w : World)
      → Same net.world w
      → Grows net (linked before link net w)
  linked-Grows before link net w same =
      let there = record net { world = w } in
      let made = through before net w in
      Grows-trans net there (linked before link net w) (Same-Grows net w same) (
        Grows-trans there (tallied before there) (linked before link net w)
          (tallied-Grows before there)
          (Grows-trans (tallied before there) made (linked before link net w)
            (new_chan-Grows (tallied before there) (net.next_chan + 1))
            (joined-Grows (fresh_conn link net.next_chan) made)))

  -- Through a connection that is there.
  through_lem :
      (before link : Str) (ci : ConnInfo) (net : Net)
      → is_some net.world.state.ssh_config ≡ true
      → IsListened net
      → is_some (lookup link (conns net)) ≡ false
      → lookup before (conns net) ≡ some ci
      → (net' : Net) × (res : Result (Unit {0})) × (proxied_link opts weather p before link net
          ≡ ok (net', res))
        × Links weather before link net net' res
  unfolding proxied_link reach make_chan spawn_remote Methods.conn_exists handle
  through_lem before link ci net config listened fresh there =
      let env = weather.proxied link in
      let (w, res, e, _, verdict) =
        proxy_connect_lem false weather.now (weather.timer link) link env net.world
          (config, λ q. cc) in
      let same = proxy_connect-Same weather.now (weather.timer link) link env net.world w res e in
      let answer : proxy_connect opts.password weather.now (weather.timer link) link env net.world
          ≡ ok (w, res) =
        rw off e in
      let heard = not_zero (net.listeners ci.req_chan) (listened before ci there) in
      let still : lookup before w.state.conn ≡ some ci = ap (lookup before) same.conn ∙ there in
      elim (result_cases res) [
        | inl well ↦ (
          linked before link net w,
          value tt,
          rw fresh (
              rw (get_conn_info_alone before net.world, there)
                (rw heard (
                  rw (answer ∙ ap (λ r. ok (w, r)) well) (
                    rw (inc_proxy_count_lem before ci w still) (
                      rw
                        (set_conn_info_lem (fresh_conn link net.next_chan)
                          (with_conn (modify before with_proxy w.state.conn) w))
                        refl))))),
          record {
            grows = linked-Grows before link net w same;
            links =
                λ q r. joined-IsConnected (fresh_conn link net.next_chan) (through before net w);
            fine = λ q. refl;
          },
        )
        | inr (err, ill) ↦ (
          record net { world = w },
          failure err,
          rw fresh (
              rw (get_conn_info_alone before net.world, there)
                (rw heard (rw (answer ∙ ap (λ r. ok (w, r)) ill) refl))),
          record {
            grows = Same-Grows net w same;
            links = λ q r. cc;
            fine = λ q. sym ill ∙ verdict.1 q;
          },
        )
      ]

  pub proxied_link_lem :
      (before link : Str) (net : Net)
      → is_some net.world.state.ssh_config ≡ true
      → IsListened net
      → (net' : Net) × (res : Result (Unit {0})) × (proxied_link opts weather p before link net
          ≡ ok (net', res))
        × Links weather before link net net' res
  unfolding proxied_link Methods.conn_exists handle
  proxied_link_lem before link net config listened =
      elim (Bool-cases (is_some (lookup link (conns net)))) [
        | inl old ↦ (
          net,
          value tt,
          rw old refl,
          record {
            grows = Grows-refl net;
            links = λ q r. own-IsConnected link net old;
            fine = λ q. refl;
          },
        )
        | inr fresh ↦ elim (Option-cases (lookup before (conns net))) [
          | inl gone ↦ (
            net,
            value tt,
            rw fresh (rw (get_conn_info_alone before net.world, gone) refl),
            record {
              grows = Grows-refl net;
              links = λ q r. absurd (none_ne (lookup before (conns net)) gone q);
              fine = λ q. refl;
            },
          )
          | inr (ci, there) ↦ through_lem before link ci net config listened fresh there
        ]
      ]
    where
      none_ne : (o : Option ConnInfo) → o ≡ none → is_some o ≢ true
      none_ne none e q = cc
      none_ne (some ci) e q = cc
