-- ===== src/Fleet/Attempts.antt =====
-- connect.go: the attempts to connect that are on record, from one state to a later one.
use metassh.Base.{
  ◌≡◌, ap, ◌∙◌, ◌⊎◌, inl, inr, true, some, List, [], ◌∷◌, All, Str, is_some, lookup, Result, value,
  failure,
}
use metassh.Store.Types.{HostInfo}
use metassh.Fleet.Net.{Net}
use metassh.Fleet.Resolve.{Weather}
use metassh.Fleet.Sweeps.{conns}
use metassh.Fleet.Reported.{targets}
use metassh.Fleet.Growth.{IsListened, Grows}
use metassh.Fleet.Chains.{Fair}
use metassh.Fleet.Arrivals.{arrived}

-- The attempt to connect a target is on record, without an error if each proxied connection gets
-- through.
abbrev pub Attempted : Weather → Str → HostInfo → Net → Type 0
Attempted weather h hi net =
    (res : Result (Unit {0})) × (lookup h (targets net) ≡ some (arrived weather h res hi))
    × (Fair weather → res ≡ value tt)

-- From one state to a later one: connections are only added, and targets keep their entries but for
-- attempts on record.
pub record Advances (weather : Weather) (net net' : Net) : Type 0 where
  pub config : net'.world.state.ssh_config ≡ net.world.state.ssh_config
  pub stays :
      (h : Str) → is_some (lookup h (conns net)) ≡ true → is_some (lookup h (conns net')) ≡ true
  pub listened : IsListened net → IsListened net'
  pub entries :
      (h : Str) (hi : HostInfo)
      → lookup h (targets net) ≡ some hi
      → (lookup h (targets net') ≡ some hi) ⊎ Attempted weather h hi net'

-- The last attempt is what is on record.
Attempted-again :
    (weather : Weather) (h : Str) (res : Result (Unit {0})) (hi : HostInfo) (net : Net)
    → Attempted weather h (arrived weather h res hi) net
    → Attempted weather h hi net
Attempted-again weather h (value u) hi net (value v, told, fine) = (value v, told, fine)
Attempted-again weather h (value u) hi net (failure err, told, fine) = (failure err, told, fine)
Attempted-again weather h (failure was) hi net (value v, told, fine) = (value v, told, fine)
Attempted-again weather h (failure was) hi net (failure err, told, fine) = (failure err, told, fine)

pub Grows-Advances :
    (weather : Weather) (net net' : Net) → Grows net net' → Advances weather net net'
Grows-Advances weather net net' g = record {
  config = g.config;
  stays = g.stays;
  listened = g.listened;
  entries = λ h hi e. inl (ap (lookup h) g.targets ∙ e);
}

pub Advances-trans :
    (weather : Weather) (a b c : Net)
    → Advances weather a b
    → Advances weather b c
    → Advances weather a c
Advances-trans weather a b c g k = record {
  config = k.config ∙ g.config;
  stays = λ h e. k.stays h (g.stays h e);
  listened = λ l. k.listened (g.listened l);
  entries = λ h hi e. elim (g.entries h hi e) [
    | inl same ↦ k.entries h hi same
    | inr (res, told, fine) ↦ elim (k.entries h (arrived weather h res hi) told) [
      | inl same ↦ inr (res, same, fine)
      | inr again ↦ inr (Attempted-again weather h res hi c again)
    ]
  ];
}

-- A target of the earlier state is connected in the later one, or the attempt to connect it is on
-- record there.
abbrev pub IsSettled : Weather → Net → Net → Str → Type 0
IsSettled weather net net' h =
    (hi : HostInfo)
    → lookup h (targets net) ≡ some hi
    → (is_some (lookup h (conns net')) ≡ true) ⊎ Attempted weather h hi net'

pub IsSettled-later :
    (weather : Weather) (a b c : Net) (h : Str)
    → IsSettled weather a b h
    → Advances weather b c
    → IsSettled weather a c h
IsSettled-later weather a b c h s g hi e = elim (s hi e) [
  | inl there ↦ inl (g.stays h there)
  | inr (res, told, fine) ↦ elim (g.entries h (arrived weather h res hi) told) [
    | inl same ↦ inr (res, same, fine)
    | inr again ↦ inr (Attempted-again weather h res hi c again)
  ]
]

IsSettled-earlier :
    (weather : Weather) (a b c : Net) (h : Str)
    → Advances weather a b
    → IsSettled weather b c h
    → IsSettled weather a c h
IsSettled-earlier weather a b c h g s hi e = elim (g.entries h hi e) [
  | inl same ↦ s hi same
  | inr (res, told, fine) ↦ elim (s (arrived weather h res hi) told) [
    | inl there ↦ inl there
    | inr again ↦ inr (Attempted-again weather h res hi c again)
  ]
]

pub all_earlier :
    (weather : Weather) (a b c : Net) (hs : List Str)
    → Advances weather a b
    → All (IsSettled weather b c) hs
    → All (IsSettled weather a c) hs
all_earlier weather a b c [] g q = tt
all_earlier weather a b c (h ∷ hs) g q =
    (IsSettled-earlier weather a b c h g q.0, all_earlier weather a b c hs g q.1)
