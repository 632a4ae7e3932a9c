-- ===== src/Fleet/Chains.antt =====
-- resolve.go: what `resolve` leaves along a whole chain.
use metassh.Base.{
  ◌≡◌, refl, sym, ap, ◌∙◌, inl, inr, Bool, true, false, ◌||◌, none, List, [], ◌∷◌, All, Str,
  is_some, lookup, ok, Result, value, failure,
}
use metassh.Store.Serializer.{or_else}
use metassh.Store.Races.{ptr_of}
use metassh.Fleet.Net.{Net, Options}
use metassh.Fleet.Resolve.{Weather, resolve_after, resolve}
use metassh.Fleet.Sweeps.{conns}
use metassh.Fleet.Growth.{
  IsConnected, IsListened, Grows, Grows-refl, Grows-trans, Grows-IsConnected,
}
use metassh.Fleet.Dials.{IsOpen, direct_link_lem}
use metassh.Fleet.Links.{GetsThrough, result_cases, proxied_link_lem}

-- Each link but the last is no target's address.
abbrev pub OwnNames : List Str → Net → Type 0
OwnNames [] net = Unit {0}
OwnNames (l ∷ []) net = Unit {0}
OwnNames (l ∷ m ∷ rest) net = (lookup l net.world.state.ptr ≡ none) × OwnNames (m ∷ rest) net

OwnNames-Grows :
    (link : Str) (rest : List Str) (net net' : Net)
    → Grows net net'
    → OwnNames (link ∷ rest) net
    → OwnNames (link ∷ rest) net'
OwnNames-Grows link [] net net' g own = tt
OwnNames-Grows link (m ∷ rest) net net' g (o, own) =
    (ap (lookup link) g.ptr ∙ o, OwnNames-Grows m rest net net' g own)

IsConnected-own :
    (link : Str) (net : Net)
    → lookup link net.world.state.ptr ≡ none
    → IsConnected link net
    → is_some (lookup link (conns net)) ≡ true
IsConnected-own link net o q =
    let name : ptr_of link net.world.state ≡ link = ap (λ n. or_else n link) o in
    same_twice (is_some (lookup link (conns net)))
      (ap (λ n. is_some (lookup link (conns net)) || is_some (lookup n (conns net))) (sym name) ∙ q)
  where
    same_twice : (b : Bool) → b || b ≡ true → b ≡ true
    same_twice true e = refl
    same_twice false e = e

module _ (opts : Options) (weather : Weather) (p : Bool) (off : opts.password ≡ false) where
  -- The links after `before`; they are connected if none but the last is the address of a target.
  resolve_after_lem :
      (before : Str) (rest : List Str) (net : Net)
      → is_some net.world.state.ssh_config ≡ true
      → IsListened net
      → (net' : Net) × (res : Result (Unit {0})) × (resolve_after opts weather p before rest net
          ≡ ok (net', res))
        × Grows net net'
        × (OwnNames (before ∷ rest) net
            → IsConnected before net
            → res ≡ value tt
            → All (λ l. IsConnected l net') rest)
        × (All (λ l. GetsThrough (weather.proxied l)) rest → res ≡ value tt)
  unfolding resolve_after
  resolve_after_lem before [] net config listened =
      (net, value tt, refl, Grows-refl net, (λ own q r. tt), λ q. refl)
  resolve_after_lem before (link ∷ rest) net config listened =
      let (net1, res1, e1, l1) =
        proxied_link_lem opts weather p off before link net config listened in
      let g1 = l1.grows in
      let (net2, res2, e2, g2, t2, f2) =
        resolve_after_lem link rest net1 (ap is_some g1.config ∙ config) (g1.listened listened) in
      elim (result_cases res1) [
        | inl well ↦ (
          net2,
          res2,
          rw (e1 ∙ ap (λ r. ok (net1, r)) well) e2,
          Grows-trans net net1 net2 g1 g2,
          (λ own q r.
              let own_before = IsConnected-own before net own.0 q in
              let now = l1.links own_before well in
              (
                Grows-IsConnected link net1 net2 g2 now,
                t2 (OwnNames-Grows link rest net net1 g1 own.1) now r,
              )),
          λ q. f2 q.1,
        )
        | inr (err, ill) ↦ (
          net1,
          failure err,
          rw (e1 ∙ ap (λ r. ok (net1, r)) ill) refl,
          g1,
          (λ own q r. cc),
          λ q. sym ill ∙ l1.fine q.0,
        )
      ]

-- Each proxied connection gets through in time.
abbrev pub Fair : Weather → Type 0
Fair weather = (l : Str) → GetsThrough (weather.proxied l)

all-Fair :
    (weather : Weather) (ls : List Str)
    → Fair weather
    → All (λ l. GetsThrough (weather.proxied l)) ls
all-Fair weather [] f = tt
all-Fair weather (l ∷ ls) f = (f l, all-Fair weather ls f)

-- Without passwords, with a configuration, and with a goroutine listening on each connection, the
-- way to the end of any chain is tried and comes back, without an error if each proxied connection
-- gets through, and connections are only added.
pub resolve-Grows :
    (opts : Options) (weather : Weather) (p : Bool) (chain : List Str) (net : Net)
    → opts.password ≡ false
    → is_some net.world.state.ssh_config ≡ true
    → IsListened net
    → (net' : Net) × (res : Result (Unit {0})) × (resolve opts weather p chain net ≡ ok (net', res))
      × Grows net net'
      × (Fair weather → res ≡ value tt)
unfolding resolve
resolve-Grows opts weather p [] net off config listened =
    (net, value tt, refl, Grows-refl net, λ f. refl)
resolve-Grows opts weather p (link ∷ rest) net off config listened =
    let (net1, e1, g1, _) = direct_link_lem opts weather p link net off config in
    let (net2, res, e2, g2, _, fine) =
      resolve_after_lem opts weather p off link rest net1 (ap is_some g1.config ∙ config)
        (g1.listened listened) in
    (net2, res, rw e1 e2, Grows-trans net net1 net2 g1 g2, λ f. fine (all-Fair weather rest f))

-- Without passwords, with a configuration, with a goroutine listening on each connection, and for a
-- chain of which each link but the last is no target's address: `resolve` comes back. It only adds
-- connections, each with a goroutine on it. If the first link is connected or one of its dials gets
-- through and there is no error, every link of the chain is connected then; and there is no error
-- if every proxied connection gets through in time.
pub resolve_lem :
    (opts : Options) (weather : Weather) (p : Bool) (link : Str) (rest : List Str) (net : Net)
    → opts.password ≡ false
    → is_some net.world.state.ssh_config ≡ true
    → IsListened net
    → OwnNames (link ∷ rest) net
    → (net' : Net) × (res : Result (Unit {0})) × (resolve opts weather p (link ∷ rest) net
        ≡ ok (net', res))
      × Grows net net'
      × (IsOpen opts weather link net
          → res ≡ value tt
          → All (λ l. IsConnected l net') (link ∷ rest))
      × (All (λ l. GetsThrough (weather.proxied l)) rest → res ≡ value tt)
unfolding resolve
resolve_lem opts weather p link rest net off config listened own =
    let (net1, e1, g1, t1) = direct_link_lem opts weather p link net off config in
    let (net2, res, e2, g2, t2, f2) =
      resolve_after_lem opts weather p off link rest net1 (ap is_some g1.config ∙ config)
        (g1.listened listened) in
    (
      net2,
      res,
      rw e1 e2,
      Grows-trans net net1 net2 g1 g2,
      (λ q r.
          let first = t1 q in
          let named = OwnNames-Grows link rest net net1 g1 own in
          (Grows-IsConnected link net1 net2 g2 first, t2 named first r)),
      f2,
    )
