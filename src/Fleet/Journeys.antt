-- ===== src/Fleet/Journeys.antt =====
-- resolve.go: the theorems at a chain of two links.
use metassh.Base.{
  ℕ, ◌<◌, ◌≡◌, refl, ◌⊎◌, inl, inr, true, false, Option, none, some, [], ◌∷◌, ◌++◌, arith,
  Bool-cases, length, All, Str, bytes, str_eq, split_on, lookup, ok, Result, value,
}
use metassh.Store.Types.{HostInfo, ConnInfo, new_state}
use metassh.Fleet.Net.{Net}
use metassh.Fleet.Resolve.{connected, late, Weather, resolve}
use metassh.Fleet.Sweeps.{conns}
use metassh.Fleet.Growth.{IsConnected, Grows}
use metassh.Fleet.Dials.{IsOpen}
use metassh.Fleet.Links.{GetsThrough}
use metassh.Fleet.Chains.{resolve_lem}
use metassh.Fleet.Arrivals.{arrived, connect_one-chain}
use metassh.Fleet.Connect.{connect_one, connect_everywhere}
use metassh.Fleet.Attempts.{Advances}
use metassh.Fleet.Rounds.{Passed, connect_everywhere_lem}
use metassh.Fleet.Reported.{targets}
use metassh.Fleet.Race.{
  gone, took, drained, Dialling, Move, dials, wakes, take_timer, drain_dial, Reach, here, next,
  dial_begun,
}
use metassh.Fleet.Tokens.{bit, is_connected, is_late}
use metassh.Fleet.Stragglers.{left, IsOver, Reach-ends}
use metassh.Fleet.Json.{host_of}
use metassh.Fleet.Examples.{web, gate, serving, world_of, storm}

-- Every dial gets through.
abbrev fair : Weather
fair = record storm { direct = λ link id. record { asks_password = false; outcome = connected } }

abbrev unconnected : Net
unconnected = record {
  world = world_of (record new_state { ssh_config = some 0 });
  listeners = λ c. 0;
  next_chan = 0;
  cleaned = [];
}

lookup_nil : (h : Str) → none ≡ lookup {V = ConnInfo} h []
unfolding lookup
lookup_nil h = refl

resolve_lem_example :
    (net' : Net) × (res : Result (Unit {0})) × (resolve serving fair true
        (gate ∷ web ∷ [])
        unconnected
      ≡ ok (net', res))
    × Grows unconnected net'
    × (IsOpen serving fair gate unconnected
        → res ≡ value tt
        → All (λ l. IsConnected l net') (gate ∷ web ∷ []))
    × (All (λ l. GetsThrough (fair.proxied l)) (web ∷ []) → res ≡ value tt)
unfolding lookup
resolve_lem_example =
    resolve_lem serving fair true gate (web ∷ []) unconnected refl refl nothing (refl, tt)
  where
    nothing : (h : Str) (ci : ConnInfo) → lookup h (conns unconnected) ≡ some ci → 0 < 0
    nothing h ci e = cc (lookup_nil h)

-- The address of the gate is also that of a target, `gw`.
abbrev addressed : Net
addressed = record unconnected {
  world = world_of (record new_state { ssh_config = some 0; ptr = (gate, bytes "gw") ∷ [] });
}

abbrev web_host : HostInfo
web_host = host_of (record { name = web; chain = gate ++ (32 ∷ web) })

abbrev targeted : Net
targeted = record unconnected {
  world = world_of (record new_state { ssh_config = some 0; targets = (web, web_host) ∷ [] });
}

connect_one-chain_example :
    (net' : Net) × (net1 : Net) × (res : Result (Unit {0})) × (connect_one serving fair web targeted
      ≡ ok (net', tt))
    × (resolve serving fair false (gate ∷ web ∷ []) targeted ≡ ok (net1, res))
    × (lookup web (targets net') ≡ some (arrived fair web res web_host))
    × (IsOpen serving fair gate targeted
        → res ≡ value tt
        → All (λ l. IsConnected l net') (gate ∷ web ∷ []))
    × (All (λ l. GetsThrough (fair.proxied l)) (web ∷ []) → res ≡ value tt)
unfolding lookup split_on str_eq
connect_one-chain_example =
    connect_one-chain serving fair web gate (web ∷ []) web_host targeted refl refl refl
      (λ h ci e. cc (lookup_nil h)) refl refl (refl, tt)

two_links : length web_host.chain ≡ 2
unfolding split_on
two_links = refl

targeted-IsChained :
    (h : Str) (hi : HostInfo) → lookup h (targets targeted) ≡ some hi → 0 < length hi.chain
unfolding lookup
targeted-IsChained h hi e = elim (Bool-cases (str_eq web h)) [
  | inl same ↦ let found : web_host ≡ hi = cc (rw same at e) in ground (arith, two_links, found)
  | inr other ↦ absurd (ground arith)
]

connect_everywhere_lem_example :
    (net' : Net) × (n : Option ℕ) × (connect_everywhere serving fair targeted ≡ ok (net', n))
    × Advances fair targeted net'
    × Passed fair targeted net' n
unfolding lookup split_on str_eq
connect_everywhere_lem_example =
    connect_everywhere_lem serving fair targeted refl refl refl (λ h ci e. cc (lookup_nil h))
      targeted-IsChained

-- The timer is taken first, and the client that comes after it is not closed.
abbrev straggled : Dialling
straggled = record {
  dialer = gone;
  asleep = false;
  timer = false;
  selected = took late;
  drainer = drained;
  clients = 1;
  served = 0;
}

straggle : Reach dial_begun straggled
straggle =
    next
      (next (next (next here (wakes refl refl refl)) (take_timer refl refl refl)) (dials refl refl))
      (drain_dial none refl refl refl)

Reach-ends_example :
    ((IsOver straggled
        × (straggled.served ≡ bit (is_connected straggled.selected))
        × (is_late straggled.selected ≡ false → straggled.clients ≡ straggled.served))
      ⊎ ((t : Dialling) × Move straggled t))
    × ((t : Dialling) → Move straggled t → left t < left straggled)
Reach-ends_example = Reach-ends straggle
