-- ===== src/Fleet/Standalone.antt =====
-- connect.go with remotehost.go: disconnecting when the program is not in server mode.
use metassh.Base.{
  ℕ, suc, ◌≡◌, sym, ap, ◌∙◌, ◌≢◌, ◌↔◌, inl, inr, Bool, true, false, not, ◌&&◌, some, List, [], ◌∷◌,
  arith, Bool-cases, Option-cases, Str, str_eq_cases, lookup, keys, lookup-delete, ok, panic,
  bind-ok, ok_injective,
}
use metassh.Store.Types.{World, ConnInfo}
use metassh.Store.Serializer.{handle}
use metassh.Store.Methods.{Job, Act, ◌>>>◌, done}
use metassh.Store.Methods
use metassh.Fleet.Net.{Net, Options, on_world}
use metassh.Fleet.Remote.{Remote, RemoteAction, start_remote, remote_step, cleanup_request}
use metassh.Fleet.Disconnect.{
  safe_close, clean_one, clean_many, sweep, sweep_all, no_proxy, disconnect_everywhere,
}
use metassh.Fleet.Sweeps.{
  conns, drop_conn, listed, listed-keys, sweep-none, sweep_skip, sweep_take, clean_many_world,
  timeout_waiters-conns,
}

start_remote_fields :
    (link : Str) (is_proxy server session_ok mux_ok : Bool) (w w' : World) (r : Remote)
    (acts : List RemoteAction)
    → start_remote link is_proxy server session_ok mux_ok w ≡ ok (w', (r, acts))
    → (r.is_proxy ≡ is_proxy)
      × (r.mux ≡ (not is_proxy && server) && mux_ok)
      × (r.mux_failed ≡ (not is_proxy && server) && not mux_ok)
unfolding start_remote
start_remote_fields link is_proxy server session_ok mux_ok w w' r acts e =
    let ((w1, host), p, q) = bind-ok (Methods.get_ptr link w) _ e in
    let same = ap (λ (x : World × (Remote × List RemoteAction)). x.1.0) (sym (ok_injective q)) in
    (
      ap (λ (x : Remote). x.is_proxy) same,
      ap (λ (x : Remote). x.mux) same,
      ap (λ (x : Remote). x.mux_failed) same,
    )

-- A clean-up takes the program down exactly when the connection is no proxy and the program is not
-- in server mode; this is the test that `clean_one` makes.
pub cleanup-eq-panic :
    (link : Str) (is_proxy server session_ok mux_ok close_ok : Bool) (w w' : World) (r : Remote)
    (acts : List RemoteAction)
    → start_remote link is_proxy server session_ok mux_ok w ≡ ok (w', (r, acts))
    → (remote_step r (cleanup_request close_ok) ≡ panic) ↔ ((is_proxy ≡ false) × (server ≡ false))
unfolding remote_step
cleanup-eq-panic link is_proxy server session_ok mux_ok close_ok w w' r acts e =
    let (p, m, f) = start_remote_fields link is_proxy server session_ok mux_ok w w' r acts e in
    (λ q. ground arith, λ q. ground arith)

clean_one_safe :
    (opts : Options) (ci : ConnInfo) (net net' : Net)
    → clean_one opts ci net ≡ ok (net', tt)
    → safe_close opts ci ≡ true
unfolding clean_one
clean_one_safe opts ci net net' e = ground arith

clean_many_safe :
    (opts : Options) (ci : ConnInfo) (n : ℕ) (net net' : Net)
    → clean_many opts ci (suc n) net ≡ ok (net', tt)
    → safe_close opts ci ≡ true
unfolding clean_many
clean_many_safe opts ci n net net' e =
    let ((net1, _), p, _) = bind-ok (clean_one opts ci net) _ e in clean_one_safe opts ci net net1 p

sweep_safe :
    (opts : Options) (takes : ConnInfo → Bool) (n : ℕ) (hs : List Str) (net net' : Net) (j : Str)
    (ci : ConnInfo)
    → sweep opts takes (suc n) hs net ≡ ok (net', tt)
    → lookup j (conns net) ≡ some ci
    → listed j hs ≡ true
    → takes ci ≡ true
    → safe_close opts ci ≡ true
sweep_safe opts takes n [] net net' j ci e found here taken = cc
sweep_safe opts takes n (h ∷ hs) net net' j ci e found here taken = elim (str_eq_cases h j) [
  | inl (_, same) ↦
      let found_h : lookup h (conns net) ≡ some ci = rw same found in
      let ((net1, _), p, q) =
        bind-ok (clean_many opts ci (suc n) net) _
          (sym (sweep_take opts takes (suc n) h hs net ci found_h taken) ∙ e) in
      clean_many_safe opts ci n net net1 p
  | inr (other, _) ↦ elim (Option-cases (lookup h (conns net))) [
    | inl absent ↦
        sweep_safe opts takes n hs net net' j ci
          (sym (sweep-none opts takes (suc n) h hs net absent) ∙ e) found (ground arith) taken
    | inr (ci', found') ↦ elim (Bool-cases (takes ci')) [
      | inl taken' ↦
          let ((net1, _), p, q) =
            bind-ok (clean_many opts ci' (suc n) net) _
              (sym (sweep_take opts takes (suc n) h hs net ci' found' taken') ∙ e) in
          sweep_safe opts takes n hs (drop_conn h net1) net' j ci q
            (ground
              (arith, lookup-delete h j (conns net1), clean_many_world opts ci' (suc n) net net1 p))
            (ground arith) taken
      | inr skipped ↦
          sweep_safe opts takes n hs net net' j ci
            (sym (sweep_skip opts takes (suc n) h hs net ci' found' skipped) ∙ e) found
            (ground arith) taken
    ]
  ]
]

-- Outside server mode `disconnectEverywhere` never returns while a host that is no proxy is
-- connected.
pub disconnect_everywhere_standalone :
    (opts : Options) (proxies : Bool) (net net' : Net) (h : Str) (ci : ConnInfo)
    → opts.server ≡ false
    → lookup h (conns net) ≡ some ci
    → ci.is_proxy ≡ false
    → disconnect_everywhere opts proxies net ≢ ok (net', tt)
unfolding disconnect_everywhere sweep_all Methods.get_conn_keys handle
disconnect_everywhere_standalone opts proxies net net' h ci off found direct e =
    let ((net1, _), p1, e1) = bind-ok (on_world Methods.timeout_waiters net) _ e in
    let ((net2, _), p2, e2) = bind-ok (sweep_all opts no_proxy 1 net1) _ e1 in
    let still : lookup h (conns net1) ≡ some ci = rw (timeout_waiters-conns net net1 p1) found in
    ground (
      arith,
      sweep_safe opts no_proxy 0 (keys (conns net1)) net1 net2 h ci p2 still
          (listed-keys h (conns net1) ci still),
    )
