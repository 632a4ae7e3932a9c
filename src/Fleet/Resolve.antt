-- ===== src/Fleet/Resolve.antt =====
-- resolve.go: the way to a host over the links of its chain. Everything here runs with no other
-- goroutine in between; the `BastionConns` dials of a direct link are taken in the order of their
-- numbers.
use metassh.Base.{
  ℕ, zero, suc, ◌+◌, Bool, true, false, ◌&&◌, none, some, List, [], ◌∷◌, ◌==◌, if◌then◌else◌,
  length, Str, split_on, join_on, Dict, lookup, insert, ok, panic, blocked, Result, value, failure,
}
use metassh.Store.Types.{ConnInfo}
use metassh.Store.Methods.{Job, ◌>>>◌, done}
use metassh.Store.Methods
use metassh.Fleet.Net.{Net, Options, on_world, set_listeners}
use metassh.Fleet.Proxy.{ProxyEnv, pw_closure, copy_config, proxy_connect, when}

-- How one direct dial ends, and whether the SSH library asks for the password on the way.
pub data Dial : Type 0 where
  connected : Dial
  refused : Str → Dial
  late : Dial

pub record Dialled : Type 0 where
  pub asks_password : Bool
  pub outcome : Dial

-- What the network and the clock do: the dials of a direct link by their numbers, the proxied
-- ones, the timeout channels, and the test commands with the times that things take.
pub record Weather : Type 0 where
  pub direct : Str → ℕ → Dialled
  pub proxied : Str → ProxyEnv
  pub now : ℕ
  pub timer : Str → ℕ
  pub elapsed : Str → ℕ
  pub ran : Str → Result Str
  pub run_time : Str → ℕ

-- `go remoteHost(link, id, reqChan, …)`
unfoldable pub spawn_remote : ℕ → Job Net (Unit {0})
spawn_remote c net =
    ok (record net { listeners = set_listeners c (net.listeners c + 1) net.listeners }, tt)

-- `make(chan interface{})`
unfoldable pub make_chan : Job Net ℕ
make_chan net = ok (record net { next_chan = net.next_chan + 1 }, net.next_chan)

-- The `select` on the dial: a client starts a goroutine and is filed, the rest is dropped.
unfoldable pub after_dial : Dial → ConnInfo → Job Net (Unit {0})
unfolding spawn_remote
after_dial connected ci = spawn_remote ci.req_chan >>> λ _. on_world (Methods.set_conn_info ci)
after_dial (refused err) ci = done tt
after_dial late ci = done tt

-- A goroutine of the loop over `BastionConns`.
unfoldable pub dial_once : Options → Weather → Bool → Str → ℕ → ℕ → Job Net (Unit {0})
unfolding after_dial
dial_once opts weather is_proxy link c id =
    let d = weather.direct link id in
    on_world (when (opts.password && d.asks_password) (pw_closure link)) >>> λ _.
    after_dial d.outcome (record {
      host_name = link;
      is_proxy = is_proxy;
      is_direct = true;
      proxy_count = 0;
      req_chan = c;
    })

unfoldable pub dial_all : Options → Weather → Bool → Str → ℕ → ℕ → ℕ → Job Net (Unit {0})
unfolding dial_once
dial_all opts weather is_proxy link c zero id = done tt
dial_all opts weather is_proxy link c (suc n) id =
    dial_once opts weather is_proxy link c id >>> λ _.
    dial_all opts weather is_proxy link c n (id + 1)

-- The first link of a chain.
unfoldable pub direct_link : Options → Weather → Bool → Str → Job Net (Result (Unit {0}))
unfolding dial_all make_chan
direct_link opts weather is_proxy link = on_world (Methods.conn_exists link) >>> λ exists.
    if exists
    then done (value tt)
    else (make_chan >>> λ c. on_world copy_config >>> λ _.
        dial_all opts weather is_proxy link c opts.bastion_conns 0 >>> λ _. done (value tt))

-- `ci.reqChan <- req` waits until a goroutine listens.
unfoldable pub reach : ℕ → Job Net (Unit {0})
reach c net = if net.listeners c == 0 then blocked else ok (net, tt)

-- A later link, through the one before it.
unfoldable pub proxied_link : Options → Weather → Bool → Str → Str → Job Net (Result (Unit {0}))
unfolding reach make_chan spawn_remote
proxied_link opts weather is_proxy proxy link = on_world (Methods.conn_exists link) >>> λ exists.
    if exists
    then done (value tt)
    else (on_world (Methods.get_conn_info proxy) >>> λ found. elim found [
      | failure err ↦ done (value tt)
      | value ci ↦ reach ci.req_chan >>> λ _.
          on_world (
            proxy_connect opts.password weather.now (weather.timer link) link
              (weather.proxied link))
          >>> λ resp. elim resp [
            | failure err ↦ done (failure err)
            | value _ ↦ on_world (Methods.inc_proxy_count proxy) >>> λ _. make_chan >>> λ c.
                spawn_remote c >>> λ _.
                on_world (
                  Methods.set_conn_info (record {
                    host_name = link;
                    is_proxy = is_proxy;
                    is_direct = false;
                    proxy_count = 0;
                    req_chan = c;
                  }))
                >>> λ _. done (value tt)
          ]
    ])

-- The links after `before`.
unfoldable pub resolve_after :
    Options → Weather → Bool → Str → List Str → Job Net (Result (Unit {0}))
unfolding proxied_link
resolve_after opts weather is_proxy before [] = done (value tt)
resolve_after opts weather is_proxy before (link ∷ rest) =
    proxied_link opts weather is_proxy before link >>> λ res. elim res [
      | failure err ↦ done (failure err)
      | value _ ↦ resolve_after opts weather is_proxy link rest
    ]

unfoldable pub resolve : Options → Weather → Bool → List Str → Job Net (Result (Unit {0}))
unfolding direct_link resolve_after
resolve opts weather is_proxy [] = done (value tt)
resolve opts weather is_proxy (link ∷ rest) =
    direct_link opts weather is_proxy link >>> λ _. resolve_after opts weather is_proxy link rest

-- `hi.chain[:length-1]`
unfoldable pub all_but_last : List Str → List Str
all_but_last [] = []
all_but_last (w ∷ []) = []
all_but_last (w ∷ v ∷ ws) = w ∷ all_but_last (v ∷ ws)

-- How `resolveProxies` ends; `exits` is `ErrExit`.
pub data Ending : Type 0 where
  finished : Ending
  returned : Str → Ending
  exits : Str → Ending

-- The loop of `resolveProxies`, with the chains that were seen and how often.
unfoldable pub resolve_each : Options → Weather → List Str → Dict ℕ → Job Net Ending
unfolding resolve all_but_last
resolve_each opts weather [] seen = done finished
resolve_each opts weather (h ∷ hs) seen = on_world (Methods.get_host_info h) >>> λ found.
    elim found [
      | failure err ↦ done (returned err)
      | value hi ↦
          if length hi.chain == 1
          then resolve_each opts weather hs seen
          else if length hi.chain == 0
          then (λ net. panic)
          else (let chain = join_on 32 (all_but_last hi.chain) in
              elim (lookup chain seen) [
                | some val ↦ resolve_each opts weather hs (insert chain (val + 1) seen)
                | none ↦ resolve opts weather true (split_on 32 chain) >>> λ res. elim res [
                  | failure err ↦ done (exits err)
                  | value _ ↦ resolve_each opts weather hs (insert chain 1 seen)
                ]
              ])
    ]

unfoldable pub resolve_proxies : Options → Weather → Job Net Ending
unfolding resolve_each
resolve_proxies opts weather =
    on_world Methods.get_host_keys >>> λ hk. resolve_each opts weather hk []
