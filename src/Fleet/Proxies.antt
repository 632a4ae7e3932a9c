-- ===== src/Fleet/Proxies.antt =====
-- resolve.go: when `resolveProxies` comes back.
use metassh.Base.{
  ℕ, ◌+◌, ◌<◌, ◌≡◌, refl, sym, ap, ◌∙◌, inl, inr, true, false, some, List, [], ◌∷◌, ◌++◌, arith,
  ◌==◌, Bool-cases, Option-cases, length, All, Str, bytes, str_eq_refl, split_on, join_on, Dict,
  is_some, lookup, insert, keys, ok, Result, value, failure,
}
use metassh.Store.Types.{HostInfo}
use metassh.Store.Serializer.{handle}
use metassh.Store.Methods.{Job, ◌>>>◌, done}
use metassh.Store.Methods
use metassh.Store.Races.{get_host_info_alone}
use metassh.Fleet.Net.{Net, Options}
use metassh.Fleet.Resolve.{
  Weather, all_but_last, Ending, finished, returned, exits, resolve_each, resolve_proxies,
}
use metassh.Fleet.Reported.{targets}
use metassh.Fleet.Growth.{IsListened, Grows, Grows-refl, Grows-trans}
use metassh.Fleet.Links.{result_cases}
use metassh.Fleet.Chains.{Fair, resolve-Grows}

-- Every target has a link in its chain, as `strings.Split` gives it.
abbrev pub IsChained : Net → Type 0
IsChained net = (h : Str) (hi : HostInfo) → lookup h (targets net) ≡ some hi → 0 < length hi.chain

not_empty : (n : ℕ) → 0 < n → (n == 0) ≡ false
not_empty n h = ground arith

result_apart : (err : Str) (res : Result (Unit {0})) → res ≡ failure err → ¬ (res ≡ value tt)
result_apart err res e q = cc

all_there_in :
    (hs : List Str) (m n : Dict HostInfo)
    → m ≡ n
    → All (λ h. is_some (lookup h m) ≡ true) hs
    → All (λ h. is_some (lookup h n) ≡ true) hs
all_there_in hs m n e q = rw⁻¹ e q

also_after :
    (k : Str) (hi : HostInfo) (m : Dict HostInfo) (hs : List Str)
    → All (λ h. is_some (lookup h m) ≡ true) hs
    → All (λ h. is_some (lookup h ((k, hi) ∷ m)) ≡ true) hs
unfolding lookup
also_after k hi m [] q = tt
also_after k hi m (h ∷ hs) q = (ground arith, also_after k hi m hs q.1)

keys-there : (m : Dict HostInfo) → All (λ h. is_some (lookup h m) ≡ true) (keys m)
unfolding lookup
keys-there [] = tt
keys-there ((k, hi) ∷ m) =
    (ground (arith, str_eq_refl k), also_after k hi m (keys m) (keys-there m))

module _ (opts : Options) (weather : Weather) (off : opts.password ≡ false) where
  resolve_each-Grows :
      (hs : List Str) (seen : Dict ℕ) (net : Net)
      → is_some net.world.state.ssh_config ≡ true
      → IsListened net
      → IsChained net
      → (net' : Net) × (end : Ending) × (resolve_each opts weather hs seen net ≡ ok (net', end))
        × Grows net net'
        × (Fair weather → All (λ h. is_some (lookup h (targets net)) ≡ true) hs → end ≡ finished)
  unfolding resolve_each
  resolve_each-Grows [] seen net config listened chained =
      (net, finished, refl, Grows-refl net, λ f q. refl)
  resolve_each-Grows (h ∷ hs) seen net config listened chained =
      elim (Option-cases (lookup h (targets net))) [
        | inl gone ↦ (
          net,
          returned (bytes "Host '" ++ h ++ bytes "' does not exit."),
          rw (get_host_info_alone h net.world, gone) refl,
          Grows-refl net,
          λ f q. absurd (ground arith),
        )
        | inr (hi, there) ↦ elim (Bool-cases (length hi.chain == 1)) [
          | inl one ↦
              let (net', end, e, g, done) =
                resolve_each-Grows hs seen net config listened chained in
              (
                net',
                end,
                rw (get_host_info_alone h net.world, there) (rw one e),
                g,
                λ f q. done f q.1,
              )
          | inr more ↦
              let chain = join_on 32 (all_but_last hi.chain) in
              let full = not_empty (length hi.chain) (chained h hi there) in
              elim (Option-cases (lookup chain seen)) [
                | inr (val, known) ↦
                    let (net', end, e, g, done) =
                      resolve_each-Grows hs (insert chain (val + 1) seen) net config listened
                        chained in
                    (
                      net',
                      end,
                      rw (get_host_info_alone h net.world, there) (rw more (rw full (rw known e))),
                      g,
                      λ f q. done f q.1,
                    )
                | inl new ↦
                    let (net1, res, e1, g1, fine) =
                      resolve-Grows opts weather true (split_on 32 chain) net off config listened in
                    let (net2, end, e2, g2, done) =
                      resolve_each-Grows hs (insert chain 1 seen) net1
                        (ap is_some g1.config ∙ config) (g1.listened listened)
                        (λ j hj q. chained j hj (ap (lookup j) (sym g1.targets) ∙ q)) in
                    elim (result_cases res) [
                      | inl well ↦ (
                        net2,
                        end,
                        rw (get_host_info_alone h net.world, there)
                            (rw more (rw full (rw new (rw (e1 ∙ ap (λ r. ok (net1, r)) well) e2)))),
                        Grows-trans net net1 net2 g1 g2,
                        λ f q.
                            done f
                              (all_there_in hs (targets net) (targets net1) (sym g1.targets) q.1),
                      )
                      | inr (err, ill) ↦ (
                        net1,
                        exits err,
                        rw (get_host_info_alone h net.world, there)
                            (rw more
                              (rw full (rw new (rw (e1 ∙ ap (λ r. ok (net1, r)) ill) refl)))),
                        g1,
                        λ f q. absurd (result_apart err res ill (fine f)),
                      )
                    ]
              ]
        ]
      ]

  pub resolve_proxies-Grows :
      (net : Net)
      → is_some net.world.state.ssh_config ≡ true
      → IsListened net
      → IsChained net
      → (net' : Net) × (end : Ending) × (resolve_proxies opts weather net ≡ ok (net', end))
        × Grows net net'
        × (Fair weather → end ≡ finished)
  unfolding resolve_proxies Methods.get_host_keys handle
  resolve_proxies-Grows net config listened chained =
      let (net', end, e, g, done) =
        resolve_each-Grows (keys (targets net)) [] net config listened chained in
      (net', end, e, g, λ f. done f (keys-there (targets net)))
