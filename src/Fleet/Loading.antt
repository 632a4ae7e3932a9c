-- ===== src/Fleet/Loading.antt =====
-- json.go: what a load changes.
use metassh.Base.{
  ℕ, ◌+◌, ◌≡◌, refl, ap, inl, inr, Option, none, some, List, [], ◌∷◌, arith, if◌then◌else◌,
  Bool-cases, Option-cases, length, Str, str_eq, str_eq_iff, Dict, is_some, lookup, insert,
  lookup-insert, ok, ok_injective, Ends, if-Ends, value,
}
use metassh.Store.Types.{HostInfo, World}
use metassh.Store.Serializer.{handle}
use metassh.Store.Methods.{Act, ◌>>>◌, done}
use metassh.Store.Methods
use metassh.Fleet.Json.{Server, host_of, load_servers, load_blob}

-- The first of the servers that bears the name.
abbrev pub first_named : Str → List Server → Option HostInfo
first_named j [] = none
first_named j (srv ∷ srvs) = if str_eq srv.name j then some (host_of srv) else first_named j srvs

abbrev pub or_first : Option HostInfo → Option HostInfo → Option HostInfo
or_first none o = o
or_first (some hi) o = some hi

length-insert_new :
    (k : Str) (v : HostInfo) (m : Dict HostInfo)
    → lookup k m ≡ none
    → length (insert k v m) ≡ length m + 1
unfolding lookup insert
length-insert_new k v [] e = omega arith
length-insert_new k v ((j, old) ∷ m) e = ground (arith, length-insert_new k v m)

load_step :
    (srv : Server) (srvs : List Server) (n : ℕ) (w : World)
    → load_servers (srv ∷ srvs) n w ≡ (
        if is_some (lookup srv.name w.state.targets)
        then load_servers srvs n w
        else load_servers srvs (n + 1) (record w {
          state = record (w.state) {
            targets = insert srv.name (host_of srv) w.state.targets;
            ptr = insert [] srv.name w.state.ptr;
          };
        }))
unfolding load_servers Methods.host_exists Methods.set_host_info handle
load_step srv srvs n w = elim (Bool-cases (is_some (lookup srv.name w.state.targets))) [
  | inl e ↦ rw e refl
  | inr e ↦ rw e refl
]

abbrev added : Server → World → World
added srv w = record w {
  state = record (w.state) {
    targets = insert srv.name (host_of srv) w.state.targets;
    ptr = insert [] srv.name w.state.ptr;
  };
}

-- The new targets, looked up and counted.
abbrev pub Loaded : List Server → ℕ → ℕ → World → World → Type 0
Loaded srvs n count w w' =
    ((j : Str)
      → lookup j w'.state.targets ≡ or_first (lookup j w.state.targets) (first_named j srvs))
    × (length w'.state.targets + n ≡ length w.state.targets + count)

or_first-none : (o : Option HostInfo) → or_first o none ≡ o
or_first-none none = refl
or_first-none (some hi) = refl

load_servers-Loaded :
    (srvs : List Server) (n count : ℕ) (w w' : World)
    → load_servers srvs n w ≡ ok (w', count)
    → Loaded srvs n count w w'
load_servers-Loaded [] n count w w' e =
    let p : ◌≡◌ {A = World × ℕ} (w, n) (w', count) = unfold load_servers in ok_injective e in
    let same : w ≡ w' = ap (λ (x : World × ℕ). x.0) p in
    let number : n ≡ count = ap (λ (x : World × ℕ). x.1) p in
    (λ j. rw (← same, or_first-none (lookup j w.state.targets)), rw (← same, number))
load_servers-Loaded (srv ∷ srvs) n count w w' e =
    elim (Option-cases (lookup srv.name w.state.targets)) [
      | inl absent ↦
          let (found, number) =
            load_servers-Loaded srvs (n + 1) count (added srv w) w'
              (ground (arith, load_step srv srvs n w)) in
          (
            λ j. ground (
              arith,
              found j,
              str_eq_iff srv.name j,
              lookup-insert srv.name j (host_of srv) w.state.targets,
            ),
            omega (arith, length-insert_new srv.name (host_of srv) w.state.targets absent),
          )
      | inr (hi, there) ↦
          let (found, number) =
            load_servers-Loaded srvs n count w w' (ground (arith, load_step srv srvs n w)) in
          (λ j. ground (arith, found j, str_eq_iff srv.name j), number)
    ]

load_servers-Ends : (srvs : List Server) (n : ℕ) (w : World) → Ends (load_servers srvs n w)
unfolding load_servers
load_servers-Ends [] n w = (_, refl)
load_servers-Ends (srv ∷ srvs) n w = rw (load_step srv srvs n w) (
    if-Ends (is_some (lookup srv.name w.state.targets)) _ _ (load_servers-Ends srvs n w)
      (load_servers-Ends srvs (n + 1) (added srv w)))

-- A load of servers ends with a count: it adds, for each name that is no target yet, the first
-- server of that name, keeps every target as it is, and counts how many targets there are more.
pub load_blob_lem :
    (srvs : List Server) (w : World)
    → (w' : World) × (count : ℕ) × (load_blob (value srvs) w ≡ ok (w', value count))
      × Loaded srvs 0 count w w'
unfolding load_blob
load_blob_lem srvs w =
    let ((w', count), e) = load_servers-Ends srvs 0 w in
    (w', count, rw e refl, load_servers-Loaded srvs 0 count w w' e)
