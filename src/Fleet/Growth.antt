-- ===== src/Fleet/Growth.antt =====
-- resolve.go: connections are only added while a chain is resolved, and each is listened to.
use metassh.Base.{
  ℕ, ◌+◌, ◌<◌, ◌≡◌, refl, sym, ap, ◌∙◌, ◌⊎◌, inl, inr, Bool, true, false, ◌||◌, some, arith,
  if◌then◌else◌, Bool-cases, Option-cases, Str, str_eq, Dict, is_some, lookup, insert, modify,
  lookup-insert, lookup-modify, lookup-insert_self, ok,
}
use mathlib.Core.Path.{subst}
use metassh.Store.Types.{ConnInfo, State, World}
use metassh.Store.Serializer.{handle, with_proxy, or_else}
use metassh.Store.Methods.{Act, Job, ◌>>>◌, done}
use metassh.Store.Methods
use metassh.Store.Races.{ptr_of}
use metassh.Fleet.Net.{Net, set_listeners}
use metassh.Fleet.Sweeps.{conns}
use metassh.Fleet.Steady.{Same}

-- A link is connected, under its own name or that of the target which has it as its address.
abbrev pub IsConnected : Str → Net → Type 0
IsConnected link net =
    is_some (lookup link (conns net)) || is_some (lookup (ptr_of link net.world.state) (conns net))
    ≡ true

-- Each connection is listened to.
abbrev pub IsListened : Net → Type 0
IsListened net =
    (h : Str) (ci : ConnInfo) → lookup h (conns net) ≡ some ci → 0 < net.listeners ci.req_chan

-- From one state to a later one.
pub record Grows (net net' : Net) : Type 0 where
  pub targets : net'.world.state.targets ≡ net.world.state.targets
  pub ptr : net'.world.state.ptr ≡ net.world.state.ptr
  pub config : net'.world.state.ssh_config ≡ net.world.state.ssh_config
  pub stays :
      (h : Str) → is_some (lookup h (conns net)) ≡ true → is_some (lookup h (conns net')) ≡ true
  pub listened : IsListened net → IsListened net'

pub Grows-refl : (net : Net) → Grows net net
Grows-refl net = record {
  targets = refl;
  ptr = refl;
  config = refl;
  stays = λ h e. e;
  listened = λ l. l;
}

pub Grows-trans : (a b c : Net) → Grows a b → Grows b c → Grows a c
Grows-trans a b c g h = record {
  targets = h.targets ∙ g.targets;
  ptr = h.ptr ∙ g.ptr;
  config = h.config ∙ g.config;
  stays = λ k e. h.stays k (g.stays k e);
  listened = λ l. h.listened (g.listened l);
}

or_cases : (a b : Bool) → a || b ≡ true → (a ≡ true) ⊎ (b ≡ true)
or_cases true b e = inl refl
or_cases false b e = inr e

or_true : (a : Bool) → a || true ≡ true
or_true true = refl
or_true false = refl

pub Grows-IsConnected :
    (link : Str) (net net' : Net) → Grows net net' → IsConnected link net → IsConnected link net'
Grows-IsConnected link net net' g e =
    let named : ptr_of link net'.world.state ≡ ptr_of link net.world.state =
      ap (λ m. or_else (lookup link m) link) g.ptr in
    elim (or_cases (is_some (lookup link (conns net)))
      (is_some (lookup (ptr_of link net.world.state) (conns net))) e) [
        | inl own ↦ rw (g.stays link own) refl
        | inr other ↦ rw named (
            rw (g.stays (ptr_of link net.world.state) other)
              (or_true (is_some (lookup link (conns net')))))
      ]

-- What `SetConnInfo` files.
abbrev pub filed : ConnInfo → Dict ConnInfo → Dict ConnInfo
filed ci m = if is_some (lookup ci.host_name m) then m else insert ci.host_name ci m

abbrev pub with_conn : Dict ConnInfo → World → World
with_conn m w = record w { state = record (w.state) { conn = m } }

abbrev pub named : ConnInfo → World → ConnInfo
named ci w = record ci { host_name = ptr_of ci.host_name w.state }

if_conn :
    (b : Bool) (m : Dict ConnInfo) (s : State)
    → (if b then s else record s { conn = m }) ≡ record s { conn = if b then s.conn else m }
if_conn true m s = refl
if_conn false m s = refl

pub set_conn_info_lem :
    (ci : ConnInfo) (w : World)
    → Methods.set_conn_info ci w ≡ ok (with_conn (filed (named ci w) w.state.conn) w, tt)
unfolding Methods.set_conn_info handle
set_conn_info_lem ci w =
    ap (λ (s : State). ok (record w { state = s }, tt))
      (if_conn (is_some (lookup (ptr_of ci.host_name w.state) w.state.conn))
        (insert (ptr_of ci.host_name w.state) (named ci w) w.state.conn) w.state)

pub inc_proxy_count_lem :
    (h : Str) (ci : ConnInfo) (w : World)
    → lookup h w.state.conn ≡ some ci
    → Methods.inc_proxy_count h w ≡ ok (with_conn (modify h with_proxy w.state.conn) w, tt)
unfolding Methods.inc_proxy_count handle
inc_proxy_count_lem h ci w e = rw e refl

filed_there :
    (ci : ConnInfo) (m : Dict ConnInfo) → is_some (lookup ci.host_name (filed ci m)) ≡ true
filed_there ci m = ground (arith, lookup-insert_self ci.host_name ci m)

filed_stays :
    (ci : ConnInfo) (m : Dict ConnInfo) (h : Str)
    → is_some (lookup h m) ≡ true
    → is_some (lookup h (filed ci m)) ≡ true
filed_stays ci m h e = ground (arith, lookup-insert ci.host_name h ci m)

filed_from :
    (ci cj : ConnInfo) (m : Dict ConnInfo) (h : Str)
    → lookup h (filed ci m) ≡ some cj
    → (lookup h m ≡ some cj) ⊎ (cj ≡ ci)
filed_from ci cj m h e = elim (Bool-cases (is_some (lookup ci.host_name m))) [
  | inl old ↦ inl (rw old at e)
  | inr new ↦ elim (Bool-cases (str_eq ci.host_name h)) [
    | inl hit ↦ inr (ground (arith, lookup-insert ci.host_name h ci m))
    | inr miss ↦ inl (ground (arith, lookup-insert ci.host_name h ci m))
  ]
]

modify_stays :
    (p : Str) (m : Dict ConnInfo) (h : Str)
    → is_some (lookup h m) ≡ true
    → is_some (lookup h (modify p with_proxy m)) ≡ true
modify_stays p m h e = elim (Option-cases (lookup h m)) [
  | inl gone ↦ ground arith
  | inr (ci, there) ↦ ground (arith, lookup-modify p h with_proxy m)
]

modify_from :
    (p : Str) (cj : ConnInfo) (m : Dict ConnInfo) (h : Str)
    → lookup h (modify p with_proxy m) ≡ some cj
    → (ci : ConnInfo) × (lookup h m ≡ some ci) × (cj.req_chan ≡ ci.req_chan)
modify_from p cj m h e = elim (Option-cases (lookup h m)) [
  | inl gone ↦ absurd (ground (arith, lookup-modify p h with_proxy m))
  | inr (ci, there) ↦ (ci, there, ground (arith, lookup-modify p h with_proxy m))
]

-- `go remoteHost` on the channel of a connection, which is then filed.
abbrev pub joined : ConnInfo → Net → Net
joined ci net = record net {
  listeners = set_listeners ci.req_chan (net.listeners ci.req_chan + 1) net.listeners;
  world = with_conn (filed (named ci net.world) (conns net)) net.world;
}

more_listeners : (c d : ℕ) (f : ℕ → ℕ) → 0 < f d → 0 < set_listeners c (f c + 1) f d
more_listeners c d f h = ground arith

own_listener : (c : ℕ) (f : ℕ → ℕ) → 0 < set_listeners c (f c + 1) f c
own_listener c f = ground arith

pub joined-Grows : (ci : ConnInfo) (net : Net) → Grows net (joined ci net)
joined-Grows ci net = record {
  targets = refl;
  ptr = refl;
  config = refl;
  stays = λ h e. filed_stays (named ci net.world) (conns net) h e;
  listened = λ l h cj e. elim (filed_from (named ci net.world) cj (conns net) h e) [
    | inl old ↦ more_listeners ci.req_chan cj.req_chan net.listeners (l h cj old)
    | inr new ↦
        subst (λ (c : ConnInfo). 0 < (joined ci net).listeners c.req_chan) (sym new)
          (own_listener ci.req_chan net.listeners)
  ];
}

pub joined-IsConnected : (ci : ConnInfo) (net : Net) → IsConnected ci.host_name (joined ci net)
joined-IsConnected ci net =
    rw (filed_there (named ci net.world) (conns net))
      (or_true (is_some (lookup ci.host_name (conns (joined ci net)))))

abbrev pub tallied : Str → Net → Net
tallied proxy net = record net { world = with_conn (modify proxy with_proxy (conns net)) net.world }

pub tallied-Grows : (proxy : Str) (net : Net) → Grows net (tallied proxy net)
tallied-Grows proxy net = record {
  targets = refl;
  ptr = refl;
  config = refl;
  stays = λ h e. modify_stays proxy (conns net) h e;
  listened = λ l h cj e.
      let (ci, there, same) = modify_from proxy cj (conns net) h e in
      subst (λ c. 0 < net.listeners c) (sym same) (l h ci there);
}

pub Same-Grows : (net : Net) (w : World) → Same net.world w → Grows net (record net { world = w })
Same-Grows net w s = record {
  targets = s.targets;
  ptr = s.ptr;
  config = s.config;
  stays = λ h e. ap (λ m. is_some (lookup h m)) s.conn ∙ e;
  listened = λ l h ci e. l h ci (ap (lookup h) (sym s.conn) ∙ e);
}
