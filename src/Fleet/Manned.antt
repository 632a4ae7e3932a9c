-- ===== src/Fleet/Manned.antt =====
-- connect.go: `disconnectEverywhere` returns when every connection has the goroutines that it asks.
use metassh.Base.{
  ℕ, zero, suc, ◌-◌, ◌≤◌, ◌≡◌, refl, sym, ap, ◌∙◌, ◌≢◌, inl, inr, Bool, true, false, some, List, [],
  ◌∷◌, ◌++◌, arith, if◌then◌else◌, Bool-cases, Option-cases, Str, str_eq_iff, lookup, delete, keys,
  lookup-delete, ok, Ends,
}
use metassh.Store.Types.{ConnInfo, World}
use metassh.Store.Serializer.{handle}
use metassh.Store.Methods
use metassh.Fleet.Net.{Net, Options, on_world, set_listeners}
use metassh.Fleet.Disconnect.{
  clean_one, clean_many, sweep, sweep_all, safe_close, no_proxy, indirect_proxy, direct_proxy,
  disconnect_everywhere,
}
use metassh.Store.Waiters.{Fresh, timeout_waiters_ends}
use metassh.Fleet.Sweeps.{
  conns, drop_conn, sweep-none, sweep_skip, sweep_take, timeout_waiters-conns,
}

-- The clean-ups that a connection will be sent.
abbrev pub need : Options → ConnInfo → ℕ
need opts ci = if direct_proxy ci then opts.bastion_conns else 1

-- Each connection has its own channel, goroutines enough on it, and closes without a panic.
abbrev pub Manned : Options → Net → Type 0
Manned opts net =
    (h : Str) (ci : ConnInfo)
    → lookup h (conns net) ≡ some ci
    → (safe_close opts ci ≡ true)
      × (need opts ci ≤ net.listeners ci.req_chan)
      × ((j : Str) (cj : ConnInfo)
          → lookup j (conns net) ≡ some cj
          → ci.req_chan ≡ cj.req_chan
          → j ≡ h)

clean_one_lem :
    (opts : Options) (ci : ConnInfo) (n : ℕ) (net : Net)
    → safe_close opts ci ≡ true
    → suc n ≤ net.listeners ci.req_chan
    → clean_one opts ci net
      ≡ ok (
        record net {
          listeners = set_listeners ci.req_chan (net.listeners ci.req_chan - 1) net.listeners;
          cleaned = net.cleaned ++ (ci.req_chan ∷ []);
        },
        tt,
      )
unfolding clean_one
clean_one_lem opts ci n net safe enough = ground arith

clean_many_ends :
    (opts : Options) (ci : ConnInfo) (n : ℕ) (net : Net)
    → safe_close opts ci ≡ true
    → n ≤ net.listeners ci.req_chan
    → (net' : Net) × (clean_many opts ci n net ≡ ok (net', tt))
      × (net'.world ≡ net.world)
      × ((c : ℕ) → c ≢ ci.req_chan → net'.listeners c ≡ net.listeners c)
unfolding clean_many
clean_many_ends opts ci zero net safe enough = (net, refl, refl, λ c d. refl)
clean_many_ends opts ci (suc n) net safe enough =
    let one = record net {
      listeners = set_listeners ci.req_chan (net.listeners ci.req_chan - 1) net.listeners;
      cleaned = net.cleaned ++ (ci.req_chan ∷ []);
    } in
    let (net', e, w, l) = clean_many_ends opts ci n one safe (ground arith) in
    (net', rw (clean_one_lem opts ci n net safe enough) e, w, λ c d. l c d ∙ ground arith)

drop_conn-Manned :
    (opts : Options) (h : Str) (ci : ConnInfo) (net net1 : Net)
    → Manned opts net
    → lookup h (conns net) ≡ some ci
    → net1.world ≡ net.world
    → ((c : ℕ) → c ≢ ci.req_chan → net1.listeners c ≡ net.listeners c)
    → Manned opts (drop_conn h net1)
drop_conn-Manned opts h ci net net1 manned there same frame j cj e =
    let (there', apart) = left j cj e in
    let (safe, many, own) = manned j cj there' in
    let (safe0, many0, own0) = manned h ci there in
    (
      safe,
      rw (frame cj.req_chan λ q. apart (own0 j cj there' (sym q))) many,
      λ j' cj' e' q. own j' cj' (left j' cj' e').0 q,
    )
  where
    left :
        (j : Str) (cj : ConnInfo)
        → lookup j (delete h (conns net1)) ≡ some cj
        → (lookup j (conns net) ≡ some cj) × (j ≢ h)
    left j cj e =
        let kept = ap (λ (w : World). w.state.conn) same in
        let found = sym (lookup-delete h j (conns net1)) ∙ e in
        (ground (arith, str_eq_iff h j), λ q. ground (arith, str_eq_iff h j))

-- A loop over some of the connections returns, and leaves the rest manned.
sweep_ends :
    (opts : Options) (takes : ConnInfo → Bool) (n : ℕ) (hs : List Str) (net : Net)
    → ((ci : ConnInfo) → takes ci ≡ true → n ≤ need opts ci)
    → Manned opts net
    → (net' : Net) × (sweep opts takes n hs net ≡ ok (net', tt)) × Manned opts net'
unfolding sweep
sweep_ends opts takes n [] net enough manned = (net, refl, manned)
sweep_ends opts takes n (h ∷ hs) net enough manned = elim (Option-cases (lookup h (conns net))) [
  | inl gone ↦
      let (net', e, m) = sweep_ends opts takes n hs net enough manned in
      (net', sweep-none opts takes n h hs net gone ∙ e, m)
  | inr (ci, there) ↦ elim (Bool-cases (takes ci)) [
    | inr skipped ↦
        let (net', e, m) = sweep_ends opts takes n hs net enough manned in
        (net', sweep_skip opts takes n h hs net ci there skipped ∙ e, m)
    | inl taken ↦
        let (safe, many, own) = manned h ci there in
        let (net1, e1, same, frame) =
          clean_many_ends opts ci n net safe (omega (arith, enough ci taken)) in
        let left = drop_conn-Manned opts h ci net net1 manned there same frame in
        let (net', e, m) = sweep_ends opts takes n hs (drop_conn h net1) enough left in
        (net', sweep_take opts takes n h hs net ci there taken ∙ rw e1 e, m)
  ]
]

sweep_all_ends :
    (opts : Options) (takes : ConnInfo → Bool) (n : ℕ) (net : Net)
    → ((ci : ConnInfo) → takes ci ≡ true → n ≤ need opts ci)
    → Manned opts net
    → (net' : Net) × (sweep_all opts takes n net ≡ ok (net', tt)) × Manned opts net'
unfolding sweep_all Methods.get_conn_keys handle
sweep_all_ends opts takes n net enough manned =
    sweep_ends opts takes n (keys (conns net)) net enough manned

abort_ends :
    (opts : Options) (net : Net)
    → Fresh net.world.slots (net.world.state.conn_waiters ++ net.world.state.run_waiters)
    → Manned opts net
    → (net' : Net) × (on_world Methods.timeout_waiters net ≡ ok (net', tt)) × Manned opts net'
unfolding Methods.timeout_waiters
abort_ends opts net fresh manned =
    let (w, e) = timeout_waiters_ends net.world fresh in
    let net0 = record net { world = w } in
    let q : on_world Methods.timeout_waiters net ≡ ok (net0, tt) = rw e refl in
    (net0, q, rw (timeout_waiters-conns net net0 q) manned)

-- If the waiters' channels are distinct and empty, and every connection is manned,
-- `disconnectEverywhere` returns.
pub disconnect_everywhere-Ends :
    (opts : Options) (proxies : Bool) (net : Net)
    → Fresh net.world.slots (net.world.state.conn_waiters ++ net.world.state.run_waiters)
    → Manned opts net
    → Ends (disconnect_everywhere opts proxies net)
unfolding disconnect_everywhere
disconnect_everywhere-Ends opts true net fresh manned =
    let (net0, q0, m0) = abort_ends opts net fresh manned in
    let (net1, q1, m1) = sweep_all_ends opts no_proxy 1 net0 (λ ci t. ground arith) m0 in
    let (net2, q2, m2) = sweep_all_ends opts indirect_proxy 1 net1 (λ ci t. ground arith) m1 in
    let (net3, q3, m3) =
      sweep_all_ends opts direct_proxy opts.bastion_conns net2 (λ ci t. ground arith) m2 in
    ((net3, tt), rw (q0, q1, q2, q3) refl)
disconnect_everywhere-Ends opts false net fresh manned =
    let (net0, q0, m0) = abort_ends opts net fresh manned in
    let (net1, q1, m1) = sweep_all_ends opts no_proxy 1 net0 (λ ci t. ground arith) m0 in
    ((net1, tt), rw (q0, q1) refl)
