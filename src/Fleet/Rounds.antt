-- ===== src/Fleet/Rounds.antt =====
-- connect.go: what a whole pass of `connectEverywhere` leaves.
use metassh.Base.{
  ℕ, ◌<◌, ◌≡◌, refl, ap, ◌∙◌, ◌⊎◌, inl, inr, true, false, Option, none, some, List, [], ◌∷◌, arith,
  Bool-cases, Option-cases, length, All, Str, str_eq_cases, is_some, lookup, keys, lookup-modify,
  ok, Result, value,
}
use mathlib.Core.Path.{subst}
use metassh.Store.Types.{HostInfo}
use metassh.Store.Serializer.{handle, with_connection}
use metassh.Store.Methods.{Job, ◌>>>◌, done}
use metassh.Store.Methods
use metassh.Store.Races.{get_host_info_alone}
use metassh.Fleet.Net.{Net, Options}
use metassh.Fleet.Resolve.{Weather, Ending, finished, returned, exits, resolve_proxies}
use metassh.Fleet.Connect.{connect_one, connect_each, connect_everywhere, counted, succeeded}
use metassh.Fleet.Sweeps.{conns}
use metassh.Fleet.Reported.{targets}
use metassh.Fleet.Growth.{IsListened, Grows-refl}
use metassh.Fleet.Chains.{Fair, resolve-Grows}
use metassh.Fleet.Attempts.{
  Advances, Grows-Advances, Advances-trans, IsSettled, IsSettled-later, all_earlier,
}
use metassh.Fleet.Proxies.{IsChained, resolve_proxies-Grows}
use metassh.Fleet.Arrivals.{tried_as, reported_lem, reported, set_status_lem, and_quiet}

reported-Advances :
    (weather : Weather) (me : Str) (res : Result (Unit {0})) (hi : HostInfo) (net : Net)
    → lookup me (targets net) ≡ some hi
    → (Fair weather → res ≡ value tt)
    → Advances weather net (reported (tried_as weather me res) net)
reported-Advances weather me res hi net there fine = record {
  config = refl;
  stays = λ h e. e;
  listened = λ l. l;
  entries = λ h hj e. elim (str_eq_cases me h) [
    | inl same ↦ inr (
      res,
      rw⁻¹ same.1
          (reported_lem weather me res hj net (ap (λ k. lookup k (targets net)) same.1 ∙ e)),
      fine,
    )
    | inr other ↦ inl (
        lookup-modify me h (with_connection (tried_as weather me res)) (targets net)
        ∙ rw (other.0, e) refl)
  ];
}

module _ (opts : Options) (weather : Weather) (off : opts.password ≡ false) where
  connect_one-Advances :
      (me : Str) (net : Net)
      → opts.execute ≡ false
      → is_some net.world.state.ssh_config ≡ true
      → IsListened net
      → (net' : Net) × (connect_one opts weather me net ≡ ok (net', tt))
        × Advances weather net net'
        × IsSettled weather net net' me
  unfolding connect_one
  connect_one-Advances me net quiet config listened =
      elim (Option-cases (lookup me (targets net))) [
        | inl gone ↦ (
          net,
          rw (get_host_info_alone me net.world, gone) refl,
          Grows-Advances weather net net (Grows-refl net),
          λ hi e. absurd (ground arith),
        )
        | inr (hi, there) ↦
            let (net1, res, e, g, fine) =
              resolve-Grows opts weather false hi.chain net off config listened in
            let scs = tried_as weather me res in
            let there1 = ap (lookup me) g.targets ∙ there in
            let (f, told) = set_status_lem scs hi net1 there1 in
            let g1 = Grows-Advances weather net net1 g in
            let g2 = reported-Advances weather me res hi net1 there1 fine in
            (
              reported scs net1,
              rw (get_host_info_alone me net.world, there)
                  (rw e (rw f (rw (and_quiet (succeeded res) opts.execute quiet) refl))),
              Advances-trans weather net net1 (reported scs net1) g1 g2,
              λ hj e.
                  inr
                    (res, reported_lem weather me res hj net1 (ap (lookup me) g.targets ∙ e), fine),
            )
      ]

  connect_each-Advances :
      (hs : List Str) (net : Net)
      → opts.execute ≡ false
      → is_some net.world.state.ssh_config ≡ true
      → IsListened net
      → (net' : Net) × (connect_each opts weather hs net ≡ ok (net', tt))
        × Advances weather net net'
        × All (IsSettled weather net net') hs
  unfolding connect_each Methods.conn_exists handle
  connect_each-Advances [] net quiet config listened =
      (net, refl, Grows-Advances weather net net (Grows-refl net), tt)
  connect_each-Advances (h ∷ hs) net quiet config listened =
      elim (Bool-cases (is_some (lookup h (conns net)))) [
        | inl there ↦
            let (net', e, g, q) = connect_each-Advances hs net quiet config listened in
            (net', rw there e, g, (λ hi _. inl (g.stays h there), q))
        | inr missing ↦
            let (net1, e1, g1, s1) = connect_one-Advances h net quiet config listened in
            let (net2, e2, g2, q2) =
              connect_each-Advances hs net1 quiet (ap is_some g1.config ∙ config)
                (g1.listened listened) in
            (
              net2,
              rw missing (rw e1 e2),
              Advances-trans weather net net1 net2 g1 g2,
              (
                IsSettled-later weather net net1 net2 h s1 g2,
                all_earlier weather net net1 net2 hs g1 q2,
              ),
            )
      ]

-- The number of targets, but 1 if there is none.
abbrev pub Counts : List Str → ℕ → Type 0
Counts hs n = (length hs ≡ 0 → n ≡ 1) × (0 < length hs → n ≡ length hs)

counted-Counts : (hs : List Str) → Counts hs (counted hs)
counted-Counts [] = (λ e. refl, λ h. ground arith)
counted-Counts (h ∷ hs) = (λ e. ground arith, λ e. refl)

-- A pass that reports `n` targets, or that is cut short.
abbrev pub Passed : Weather → Net → Net → Option ℕ → Type 0
Passed weather net net' (some n) =
    Counts (keys (targets net)) n × All (IsSettled weather net net') (keys (targets net))
Passed weather net net' none = ¬ Fair weather

ending_cases : (end : Ending) → (end ≡ finished) ⊎ ¬ (end ≡ finished)
ending_cases finished = inl refl
ending_cases (returned err) = inr (λ e. cc)
ending_cases (exits err) = inr (λ e. cc)

cut_short :
    (opts : Options) (weather : Weather) (net net' : Net) (end : Ending)
    → resolve_proxies opts weather net ≡ ok (net', end)
    → ¬ (end ≡ finished)
    → connect_everywhere opts weather net ≡ ok (net', none)
unfolding connect_everywhere
cut_short opts weather net net' finished e cut = absurd (cut refl)
cut_short opts weather net net' (returned err) e cut = rw e refl
cut_short opts weather net net' (exits err) e cut = rw e refl

-- Without passwords and without a test command, with a configuration, with a goroutine listening on
-- each connection, and if no target's chain is empty: `connectEverywhere` comes back. It only adds
-- connections, and it changes targets only by the attempts that it has on record. If it is not cut
-- short, it reports the number of targets, or 1 if there is none, and each target is connected or
-- the attempt to connect it is on record, without an error if every proxied connection gets
-- through; if it is cut short, not every proxied connection would get through.
pub connect_everywhere_lem :
    (opts : Options) (weather : Weather) (net : Net)
    → opts.password ≡ false
    → opts.execute ≡ false
    → is_some net.world.state.ssh_config ≡ true
    → IsListened net
    → IsChained net
    → (net' : Net) × (n : Option ℕ) × (connect_everywhere opts weather net ≡ ok (net', n))
      × Advances weather net net'
      × Passed weather net net' n
unfolding connect_everywhere Methods.get_host_keys handle
connect_everywhere_lem opts weather net off quiet config listened chained =
    let (net1, end, e1, g1, done1) =
      resolve_proxies-Grows opts weather off net config listened chained in
    let a1 = Grows-Advances weather net net1 g1 in
    elim (ending_cases end) [
      | inl fin ↦
          let (net2, e2, a2, q2) =
            connect_each-Advances opts weather off (keys (targets net1)) net1 quiet
              (ap is_some g1.config ∙ config) (g1.listened listened) in
          let same = ap keys g1.targets in
          (
            net2,
            some (counted (keys (targets net1))),
            rw (e1 ∙ ap (λ n. ok (net1, n)) fin) (rw e2 refl),
            Advances-trans weather net net1 net2 a1 a2,
            (
              subst (λ ks. Counts ks (counted (keys (targets net1)))) same
                  (counted-Counts (keys (targets net1))),
              subst (All (IsSettled weather net net2)) same
                  (all_earlier weather net net1 net2 (keys (targets net1)) a1 q2),
            ),
          )
      | inr cut ↦ (net1, none, cut_short opts weather net net1 end e1 cut, a1, λ f. cut (done1 f))
    ]
