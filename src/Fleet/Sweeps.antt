-- ===== src/Fleet/Sweeps.antt =====
-- connect.go: what is left of the connections when `disconnectEverywhere` returns.
use metassh.Base.{
  ℕ, zero, suc, ◌≡◌, refl, sym, ap, ◌∙◌, inl, inr, Bool, true, false, ◌&&◌, ◌||◌, Option, none,
  some, List, [], ◌∷◌, arith, if◌then◌else◌, Bool-cases, Option-cases, Str, str_eq, str_eq_iff,
  Dict, lookup, delete, keys, lookup-delete, Outcome, ok, ◌>>=◌, bind-ok, ok_injective,
}
use metassh.Store.Types.{ConnInfo, State}
use metassh.Store.Serializer.{handle}
use mathlib.Core.Path.{fun_ext}
use metassh.Store.Races.{get_conn_info_alone, delete_conn_info_alone, timeout_waiters_state}
use metassh.Store.Methods.{Job, ◌>>>◌, done}
use metassh.Store.Methods
use metassh.Fleet.Net.{Net, Options, on_world}
use metassh.Fleet.Disconnect.{
  clean_one, clean_many, sweep, sweep_all, no_proxy, indirect_proxy, direct_proxy,
  disconnect_everywhere,
}

abbrev pub conns : Net → Dict ConnInfo
conns net = net.world.state.conn

abbrev pub drop_conn : Str → Net → Net
drop_conn h net = record net {
  world = record (net.world) {
    state = record (net.world.state) { conn = delete h net.world.state.conn };
  };
}

abbrev pub listed : Str → List Str → Bool
listed j [] = false
listed j (h ∷ hs) = str_eq h j || listed j hs

pub sweep-none :
    (opts : Options) (takes : ConnInfo → Bool) (n : ℕ) (h : Str) (hs : List Str) (net : Net)
    → lookup h (conns net) ≡ none
    → sweep opts takes n (h ∷ hs) net ≡ sweep opts takes n hs net
unfolding sweep
sweep-none opts takes n h hs net e = rw (get_conn_info_alone h net.world, e)

pub sweep_skip :
    (opts : Options) (takes : ConnInfo → Bool) (n : ℕ) (h : Str) (hs : List Str) (net : Net)
    (ci : ConnInfo)
    → lookup h (conns net) ≡ some ci
    → takes ci ≡ false
    → sweep opts takes n (h ∷ hs) net ≡ sweep opts takes n hs net
unfolding sweep
sweep_skip opts takes n h hs net ci e f = rw (get_conn_info_alone h net.world, e, f)

pub sweep_take :
    (opts : Options) (takes : ConnInfo → Bool) (n : ℕ) (h : Str) (hs : List Str) (net : Net)
    (ci : ConnInfo)
    → lookup h (conns net) ≡ some ci
    → takes ci ≡ true
    → sweep opts takes n (h ∷ hs) net
      ≡ (clean_many opts ci n net >>= λ r. sweep opts takes n hs (drop_conn h r.0))
unfolding sweep
sweep_take opts takes n h hs net ci e f =
    rw (get_conn_info_alone h net.world, e, f)
      (ap {B = Outcome (Net × Unit {0})} (λ k. clean_many opts ci n net >>= k)
        (fun_ext (λ r. rw (delete_conn_info_alone h r.0.world))))

clean_one_world :
    (opts : Options) (ci : ConnInfo) (net net' : Net)
    → clean_one opts ci net ≡ ok (net', tt)
    → net'.world ≡ net.world
unfolding clean_one
clean_one_world opts ci net net' e = ground arith

pub clean_many_world :
    (opts : Options) (ci : ConnInfo) (n : ℕ) (net net' : Net)
    → clean_many opts ci n net ≡ ok (net', tt)
    → net'.world ≡ net.world
unfolding clean_many
clean_many_world opts ci zero net net' e = ground arith
clean_many_world opts ci (suc n) net net' e =
    let ((net1, _), p, q) = bind-ok (clean_one opts ci net) _ e in
    clean_many_world opts ci n net1 net' q ∙ clean_one_world opts ci net net1 p

-- What a loop over `hs` leaves of an entry.
abbrev pub survives : (ConnInfo → Bool) → Bool → Option ConnInfo → Option ConnInfo
survives takes here none = none
survives takes here (some ci) = if here && takes ci then none else some ci

survives_none : (takes : ConnInfo → Bool) (o : Option ConnInfo) → o ≡ survives takes false o
survives_none takes none = refl
survives_none takes (some ci) = refl

sweep-conns :
    (opts : Options) (takes : ConnInfo → Bool) (n : ℕ) (hs : List Str) (net net' : Net) (j : Str)
    → sweep opts takes n hs net ≡ ok (net', tt)
    → lookup j (conns net') ≡ survives takes (listed j hs) (lookup j (conns net))
sweep-conns opts takes n [] net net' j e =
    let p : net' ≡ net = unfold sweep in ap (λ (r : Net × Unit {0}). r.0) (sym (ok_injective e)) in
    rw p (survives_none takes (lookup j (conns net)))
sweep-conns opts takes n (h ∷ hs) net net' j e = elim (Option-cases (lookup h (conns net))) [
  | inl absent ↦ ground (
    arith,
    str_eq_iff h j,
    sweep-none opts takes n h hs net absent,
    sweep-conns opts takes n hs net net' j,
  )
  | inr (ci, found) ↦ elim (Bool-cases (takes ci)) [
    | inl taken ↦
        let ((net1, _), p, q) =
          bind-ok (clean_many opts ci n net) _
            (sym (sweep_take opts takes n h hs net ci found taken) ∙ e) in
        ground (
          arith,
          str_eq_iff h j,
          clean_many_world opts ci n net net1 p,
          lookup-delete h j (conns net1),
          sweep-conns opts takes n hs (drop_conn h net1) net' j q,
        )
    | inr skipped ↦ ground (
      arith,
      str_eq_iff h j,
      sweep_skip opts takes n h hs net ci found skipped,
      sweep-conns opts takes n hs net net' j,
    )
  ]
]

pub listed-keys :
    (j : Str) (m : Dict ConnInfo) (ci : ConnInfo) → lookup j m ≡ some ci → listed j (keys m) ≡ true
unfolding lookup
listed-keys j [] ci e = cc
listed-keys j ((k, v) ∷ m) ci e = ground (arith, listed-keys j m ci)

sweep_all-conns :
    (opts : Options) (takes : ConnInfo → Bool) (n : ℕ) (net net' : Net) (j : Str)
    → sweep_all opts takes n net ≡ ok (net', tt)
    → lookup j (conns net') ≡ survives takes true (lookup j (conns net))
unfolding sweep_all Methods.get_conn_keys handle
sweep_all-conns opts takes n net net' j e = elim (Option-cases (lookup j (conns net))) [
  | inl absent ↦ sweep-conns opts takes n (keys (conns net)) net net' j e ∙ rw absent
  | inr (ci, found) ↦ ground (
    arith,
    listed-keys j (conns net) ci found,
    sweep-conns opts takes n (keys (conns net)) net net' j,
  )
]

all_absent : (m : Dict ConnInfo) → ((j : Str) → lookup j m ≡ none) → m ≡ []
unfolding lookup
all_absent [] h = refl
all_absent ((k, v) ∷ m) h = ground (arith, h k, str_eq_iff k k)

pub timeout_waiters-conns :
    (net net' : Net) → on_world Methods.timeout_waiters net ≡ ok (net', tt) → conns net' ≡ conns net
timeout_waiters-conns net net' e =
    let ((w, _), p, q) = bind-ok (Methods.timeout_waiters net.world) _ e in
    let same : record net { world = w } ≡ net' =
      ap (λ (r : Net × Unit {0}). r.0) (ok_injective q) in
    rw (← same) (ap (λ (s : State). s.conn) (timeout_waiters_state net.world w p))

three_sweeps :
    (a b c : Option ConnInfo) (o : Option ConnInfo)
    → a ≡ survives no_proxy true o
    → b ≡ survives indirect_proxy true a
    → c ≡ survives direct_proxy true b
    → c ≡ none
three_sweeps a b c none p q r = ground arith
three_sweeps a b c (some ci) p q r = ground arith

-- A `disconnectEverywhere` that returns, with nobody else at work, leaves no connection if it is to
-- take the proxies too, and otherwise leaves the proxies and nothing else.
pub disconnect_everywhere-conns :
    (opts : Options) (proxies : Bool) (net net' : Net)
    → disconnect_everywhere opts proxies net ≡ ok (net', tt)
    → (proxies ≡ true → conns net' ≡ [])
      × (proxies ≡ false
          → (j : Str) → lookup j (conns net') ≡ survives no_proxy true (lookup j (conns net)))
unfolding disconnect_everywhere
disconnect_everywhere-conns opts true net net' e =
    let ((net1, _), p1, e1) = bind-ok (on_world Methods.timeout_waiters net) _ e in
    let ((net2, _), p2, e2) = bind-ok (sweep_all opts no_proxy 1 net1) _ e1 in
    let ((net3, _), p3, e3) = bind-ok (sweep_all opts indirect_proxy 1 net2) _ e2 in
    let ((net4, _), p4, e4) = bind-ok (sweep_all opts direct_proxy opts.bastion_conns net3) _ e3 in
    let same : net4 ≡ net' = ap (λ (r : Net × Unit {0}). r.0) (ok_injective e4) in
    (
      λ _. rw (← same) (
          all_absent (conns net4) λ j.
            three_sweeps _ _ _ (lookup j (conns net1))
              (sweep_all-conns opts no_proxy 1 net1 net2 j p2)
              (sweep_all-conns opts indirect_proxy 1 net2 net3 j p3)
              (sweep_all-conns opts direct_proxy opts.bastion_conns net3 net4 j p4)),
      λ f. cc,
    )
disconnect_everywhere-conns opts false net net' e =
    let ((net1, _), p1, e1) = bind-ok (on_world Methods.timeout_waiters net) _ e in
    let ((net2, _), p2, e2) = bind-ok (sweep_all opts no_proxy 1 net1) _ e1 in
    let same : net2 ≡ net' = ap (λ (r : Net × Unit {0}). r.0) (ok_injective e2) in
    (
      λ f. cc,
      λ _ j.
          rw (← same, ← timeout_waiters-conns net net1 p1)
            (sweep_all-conns opts no_proxy 1 net1 net2 j p2),
    )
