-- ===== src/Run/Reported.antt =====
-- run.go: the targets after a run on all connections.
use metassh.Base.{
  ℕ, ◌<◌, ◌≡◌, refl, sym, ap, ◌∙◌, ◌≢◌, ◌⊎◌, inl, inr, Bool, true, false, not, ◌&&◌, ◌||◌, none,
  some, List, [], ◌∷◌, arith, Bool-cases, Option-cases, Str, str_eq, str_eq_cases, Dict, lookup,
  keys, ok,
}
use mathlib.Core.Path.{subst}
use metassh.Store.Types.{HostInfo, ConnInfo}
use metassh.Store.Serializer.{handle}
use metassh.Store.Methods.{Job, ◌>>>◌, done}
use metassh.Store.Methods
use metassh.Store.Races.{get_conn_info_alone}
use metassh.Run.Program.{Program}
use metassh.Run.Everywhere.{Runs, run_each, run_everywhere}
use metassh.Run.Statuses.{IsReported, IsListened, Reports, run_one-Reports}

-- A host is sent the command: it is connected, and not as a proxy.
abbrev pub is_sent : Dict ConnInfo → Str → Bool
is_sent conn h = elim (lookup h conn) [ none ↦ false | some ci ↦ not ci.is_proxy ]

abbrev pub is_among : Str → List Str → Bool
is_among j [] = false
is_among j (h ∷ hs) = str_eq h j || is_among j hs

-- Among the hosts `hs`, those that are sent the command are reported, and all else stays.
pub record Swept (runs : Runs) (hs : List Str) (p p' : Program) : Type 0 where
  pub told :
      (j : Str) (hi : HostInfo)
      → lookup j p.net.world.state.targets ≡ some hi
      → is_sent p.net.world.state.conn j && is_among j hs ≡ true
      → (hi' : HostInfo) × (lookup j p'.net.world.state.targets ≡ some hi')
        × IsReported runs j hi hi'
  pub kept :
      (j : Str)
      → is_sent p.net.world.state.conn j && is_among j hs ≡ false
      → lookup j p'.net.world.state.targets ≡ lookup j p.net.world.state.targets

-- A host that is not sent the command makes no difference.
skip_lem :
    (conn : Dict ConnInfo) (h j : Str) (hs : List Str)
    → is_sent conn h ≡ false
    → is_sent conn j && is_among j (h ∷ hs) ≡ is_sent conn j && is_among j hs
skip_lem conn h j hs off = elim (str_eq_cases h j) [
  | inl (hit, same) ↦ rw hit (rw (← same) (rw off refl))
  | inr (miss, _) ↦ rw miss refl
]

skip-Swept :
    (runs : Runs) (h : Str) (hs : List Str) (p p' : Program)
    → is_sent p.net.world.state.conn h ≡ false
    → Swept runs hs p p'
    → Swept runs (h ∷ hs) p p'
skip-Swept runs h hs p p' off s =
    let conn = p.net.world.state.conn in
    record {
      told = λ j hi e q. s.told j hi e (sym (skip_lem conn h j hs off) ∙ q);
      kept = λ j q. s.kept j (sym (skip_lem conn h j hs off) ∙ q);
    }

true_ne_false : true ≢ false
true_ne_false e = cc

-- After the first host's run, one of its target or another.
first_told :
    (runs : Runs) (h j : Str) (hi : HostInfo) (p p1 : Program)
    → Reports runs h p p1
    → lookup j p.net.world.state.targets ≡ some hi
    → (hi1 : HostInfo) × (lookup j p1.net.world.state.targets ≡ some hi1)
      × (hi1.connected_ok ≡ hi.connected_ok)
      × (str_eq h j ≡ true → IsReported runs j hi hi1)
first_told runs h j hi p p1 (_, _, _, report, stay) e = elim (str_eq_cases h j) [
  | inl (hit, same) ↦
      let (hi1, e1, r1) = report hi (ap (λ k. lookup k p.net.world.state.targets) same ∙ e) in
      (
        hi1,
        ap (λ k. lookup k p1.net.world.state.targets) (sym same) ∙ e1,
        r1.3,
        λ _. subst (λ k. IsReported runs k hi hi1) same r1,
      )
  | inr (miss, _) ↦ (hi, stay j miss ∙ e, refl, λ hit. cc)
]

now_or_later :
    (sent first later : Bool)
    → sent && (first || later) ≡ true
    → (sent && later ≡ true) ⊎ ((sent && later ≡ false) × (first ≡ true))
now_or_later true first true e = inl refl
now_or_later true true false e = inr (refl, refl)
now_or_later true false false e = cc
now_or_later false first later e = cc

neither :
    (sent first later : Bool)
    → sent && (first || later) ≡ false
    → (sent && later ≡ false) × (first ≡ true → sent ≡ false)
neither true first later e = ground arith
neither false first later e = ground arith

send-Swept :
    (runs : Runs) (h : Str) (hs : List Str) (p p1 p' : Program)
    → is_sent p.net.world.state.conn h ≡ true
    → Reports runs h p p1
    → Swept runs hs p1 p'
    → Swept runs (h ∷ hs) p p'
send-Swept runs h hs p p1 p' on rep s =
    let conn = p.net.world.state.conn in
    let sent1 : (j : Str) → is_sent p1.net.world.state.conn j ≡ is_sent conn j =
      λ j. ap (λ c. is_sent c j) rep.0 in
    record {
      told = λ j hi e q.
          let (hi1, e1, same, first) = first_told runs h j hi p p1 rep e in
          elim (now_or_later (is_sent conn j) (str_eq h j) (is_among j hs) q) [
            | inl later ↦
                let (hi2, e2, (once, time, well, up)) =
                  s.told j hi1 e1 (ap (λ b. b && is_among j hs) (sent1 j) ∙ later) in
                (hi2, e2, (once, time, well, up ∙ same))
            | inr (over, hit) ↦
                (hi1, s.kept j (ap (λ b. b && is_among j hs) (sent1 j) ∙ over) ∙ e1, first hit)
          ];
      kept = λ j q.
          let (over, apart) = neither (is_sent conn j) (str_eq h j) (is_among j hs) q in
          s.kept j (ap (λ b. b && is_among j hs) (sent1 j) ∙ over) ∙ elim (str_eq_cases h j) [
            | inl (hit, same) ↦
                let off = apart hit in
                absurd (true_ne_false (sym on ∙ ap (is_sent conn) same ∙ off))
            | inr (miss, _) ↦ rep.4 j miss
          ];
    }

none-Swept : (runs : Runs) (p : Program) → Swept runs [] p p
none-Swept runs p = record {
  told = λ j hi e q. absurd (never (is_sent p.net.world.state.conn j) q);
  kept = λ j q. refl;
}
  where
    never : (b : Bool) → b && false ≢ true
    never true e = cc
    never false e = cc

pub run_one-IsListened :
    (runs : Runs) (h : Str) (p p1 : Program) → Reports runs h p p1 → IsListened p → IsListened p1
run_one-IsListened runs h p p1 rep listened j cj q =
    subst (λ (f : ℕ → ℕ). 0 < f cj.req_chan) (sym rep.1)
      (listened j cj (ap (lookup j) (sym rep.0) ∙ q))

run_each-Swept :
    (runs : Runs) (hs : List Str) (p : Program)
    → p.spool ≡ false
    → IsListened p
    → (p' : Program) × (run_each runs false hs p ≡ ok (p', tt)) × Swept runs hs p p'
unfolding run_each
run_each-Swept runs [] p off listened = (p, refl, none-Swept runs p)
run_each-Swept runs (h ∷ hs) p off listened =
    elim (Option-cases (lookup h p.net.world.state.conn)) [
      | inl gone ↦
          let (p', e, s) = run_each-Swept runs hs p off listened in
          (
            p',
            rw (get_conn_info_alone h p.net.world, gone) e,
            skip-Swept runs h hs p p' (rw (gone, is_sent) refl) s,
          )
      | inr (ci, there) ↦ elim (Bool-cases ci.is_proxy) [
        | inl proxy ↦
            let (p', e, s) = run_each-Swept runs hs p off listened in
            (
              p',
              rw (get_conn_info_alone h p.net.world, there, proxy) e,
              skip-Swept runs h hs p p' (rw (there, is_sent) (ap not proxy)) s,
            )
        | inr host ↦
            let (p1, e1, rep) = run_one-Reports runs h ci p there (listened h ci there) off in
            let (p', e, s) =
              run_each-Swept runs hs p1 rep.2 (run_one-IsListened runs h p p1 rep listened) in
            (
              p',
              rw (get_conn_info_alone h p.net.world, there, host) (rw e1 e),
              send-Swept runs h hs p p1 p' (rw (there, is_sent) (ap not host)) rep s,
            )
      ]
    ]

pub is_among-keys :
    {V : Type 0} (h : Str) (v : V) (m : Dict V) → lookup h m ≡ some v → is_among h (keys m) ≡ true
unfolding lookup
is_among-keys h v [] e = cc
is_among-keys h v ((k, u) ∷ m) e = elim (str_eq_cases k h) [
  | inl (hit, _) ↦ rw hit refl
  | inr (miss, _) ↦ rw miss (is_among-keys h v m (rw miss at e))
]

and_true : (b : Bool) → b && true ≡ b
and_true true = refl
and_true false = refl

all_sent :
    (conn : Dict ConnInfo) (h : Str) → is_sent conn h && is_among h (keys conn) ≡ is_sent conn h
all_sent conn h = elim (Option-cases (lookup h conn)) [
  | inl gone ↦ let off : is_sent conn h ≡ false = rw (gone, is_sent) refl in rw off refl
  | inr (ci, there) ↦ rw (is_among-keys h ci conn there) (and_true (is_sent conn h))
]

-- With an output that is not muted, without spooling, and with a listener on every connection, a
-- run comes to an end. Every target that is connected, not as a proxy, is then on record with its
-- run, which is OK exactly if the session, the start and the command went well and in time; every
-- other target is as before.
pub run_everywhere_lem :
    (runs : Runs) (p : Program)
    → p.spool ≡ false
    → IsListened p
    → (p' : Program) × (run_everywhere runs false p ≡ ok (p', tt))
      × ((h : Str) (hi : HostInfo)
          → lookup h p.net.world.state.targets ≡ some hi
          → is_sent p.net.world.state.conn h ≡ true
          → (hi' : HostInfo) × (lookup h p'.net.world.state.targets ≡ some hi')
            × IsReported runs h hi hi')
      × ((h : Str)
          → is_sent p.net.world.state.conn h ≡ false
          → lookup h p'.net.world.state.targets ≡ lookup h p.net.world.state.targets)
unfolding run_everywhere Methods.get_conn_keys handle
run_everywhere_lem runs p off listened =
    let conn = p.net.world.state.conn in
    let (p', e, s) = run_each-Swept runs (keys conn) p off listened in
    (
      p',
      e,
      λ h hi there sent. s.told h hi there (all_sent conn h ∙ sent),
      λ h unsent. s.kept h (all_sent conn h ∙ unsent),
    )
