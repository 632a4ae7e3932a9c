-- ===== src/Summary/Weights.antt =====
-- summary.go: what each target adds to the counts.
use metassh.Base.{
  ℕ, ◌+◌, ◌≡◌, refl, ap, ◌∙◌, inl, inr, Bool, true, false, not, Option, none, some, List, [], ◌∷◌,
  ◌++◌, arith, ◌==◌, if◌then◌else◌, Option-cases, Str, str_eq, str_eq_iff, to_lower, Dict, lookup,
  ok, ok_injective,
}
use mathlib.Core.Logic.{∥∥₁_elim}
use mathlib.Core.List.{Perm, Permᴰ}
use native.Mathlib.Nat.{ℕ_set}
use metassh.Store.Types.{HostInfo}
use metassh.Store.Serializer.{bump, or_else}
use metassh.Store.Races.{get_host_info_alone}
use metassh.Run.Program.{Program}
use metassh.Summary.SortMap.{at_key}
use metassh.Summary.Hosts.{
  unknown_error, known_errors, first_match, Stats, note_error, note_last_error, note_counts,
  note_host,
}
use metassh.Summary.Report.{note_each}

abbrev pub summed : (Str → ℕ) → List Str → ℕ
summed g [] = 0
summed g (h ∷ hs) = g h + summed g hs

summed_permᴰ : (g : Str → ℕ) {hs hs' : List Str} → Permᴰ hs hs' → summed g hs ≡ summed g hs'
summed_permᴰ g Permᴰ.nil = refl
summed_permᴰ g (Permᴰ.cons e p) = omega (arith, ap g e, summed_permᴰ g p)
summed_permᴰ g (Permᴰ.swap e f) = omega (arith, ap g e, ap g f)
summed_permᴰ g (Permᴰ.trans p q) = summed_permᴰ g p ∙ summed_permᴰ g q

pub summed_perm : (g : Str → ℕ) {hs hs' : List Str} → Perm hs hs' → summed g hs ≡ summed g hs'
summed_perm g p = ∥∥₁_elim p (ℕ_set _ _) (λ q. summed_permᴰ g q)

-- How often a number, or a text, stands in a list.
abbrev pub occurrences : ℕ → List ℕ → ℕ
occurrences t [] = 0
occurrences t (u ∷ us) = (if u == t then 1 else 0) + occurrences t us

abbrev pub mentions : Str → List Str → ℕ
mentions h [] = 0
mentions h (j ∷ js) = (if str_eq j h then 1 else 0) + mentions h js

pub occurrences-snoc :
    (t u : ℕ) (l : List ℕ)
    → occurrences t (l ++ (u ∷ [])) ≡ occurrences t l + (if u == t then 1 else 0)
occurrences-snoc t u [] = omega arith
occurrences-snoc t u (v ∷ l) = omega (arith, occurrences-snoc t u l)

pub mentions-append : (h : Str) (l m : List Str) → mentions h (l ++ m) ≡ mentions h l + mentions h m
mentions-append h [] m = omega arith
mentions-append h (j ∷ l) m = omega (arith, mentions-append h l m)

at_key-bump :
    (j k : Str) (m : Dict ℕ) → at_key (bump j m) k ≡ at_key m k + (if str_eq j k then 1 else 0)
unfolding bump lookup
at_key-bump j k [] = ground arith
at_key-bump j k ((i, n) ∷ m) =
    ground (arith, str_eq_iff i j, str_eq_iff i k, str_eq_iff j k, at_key-bump j k m)

-- A measure of the statistics to which each target adds its weight.
abbrev pub Adds : (Stats → ℕ) → (Str → HostInfo → ℕ) → Type 0
Adds μ weight = (h : Str) (hi : HostInfo) (st : Stats) → μ (note_host h hi st) ≡ μ st + weight h hi

abbrev pub weighed : (Str → HostInfo → ℕ) → Dict HostInfo → Str → ℕ
weighed weight m h = elim (lookup h m) [ none ↦ 0 | some hi ↦ weight h hi ]

pub note_each-measure :
    (μ : Stats → ℕ) (weight : Str → HostInfo → ℕ)
    → Adds μ weight
    → (hs : List Str) (st st' : Stats) (p : Program) → note_each hs st p ≡ ok (p, st')
    → μ st' ≡ μ st + summed (weighed weight p.net.world.state.targets) hs
unfolding note_each
note_each-measure μ weight adds [] st st' p e =
    omega (arith, ap (λ (r : Program × Stats). μ r.1) (ok_injective e))
note_each-measure μ weight adds (h ∷ hs) st st' p e =
    elim (Option-cases (lookup h p.net.world.state.targets)) [
      | inl gone ↦
          let rest =
            note_each-measure μ weight adds hs st st' p
              (rw (get_host_info_alone h p.net.world, gone, note_each) at e) in
          rw (gone, weighed) (omega (arith, rest))
      | inr (hi, there) ↦
          let rest =
            note_each-measure μ weight adds hs (note_host h hi st) st' p
              (rw (get_host_info_alone h p.net.world, there, note_each) at e) in
          rw (there, weighed) (omega (arith, rest, adds h hi st))
    ]

-- The error under which a last error is counted.
abbrev pub error_name : Str → Str
error_name err = or_else (first_match (to_lower err) known_errors) unknown_error

abbrev pub error_weight : Bool → Str → Str → HostInfo → ℕ
error_weight connected k h hi = elim hi.last_error [
  | none ↦ 0
  | some err ↦ if connected then (if str_eq (error_name err) k then 1 else 0) else 0
]

abbrev pub connect_weight : Str → Str → HostInfo → ℕ
connect_weight k h hi = error_weight (not hi.connected_ok) k h hi

abbrev pub run_weight : Str → Str → HostInfo → ℕ
run_weight k h hi = error_weight hi.connected_ok k h hi

-- What the notes of an error leave alone.
abbrev pub Counts : Stats → Stats → Type 0
Counts st st' =
    (st'.runs_ok ≡ st.runs_ok)
    × (st'.runs_once ≡ st.runs_once)
    × (st'.connections_ok ≡ st.connections_ok)
    × (st'.with_password ≡ st.with_password)
    × (st'.requires_pw_hosts ≡ st.requires_pw_hosts)
    × (st'.connect_samples ≡ st.connect_samples)
    × (st'.run_samples ≡ st.run_samples)

note_error-Counts :
    (h : Str) (c : Bool) (o : Option Str) (st : Stats) → Counts st (note_error h c o st)
unfolding note_error
note_error-Counts h true none st = (refl, refl, refl, refl, refl, refl, refl)
note_error-Counts h false none st = (refl, refl, refl, refl, refl, refl, refl)
note_error-Counts h true (some e) st = (refl, refl, refl, refl, refl, refl, refl)
note_error-Counts h false (some e) st = (refl, refl, refl, refl, refl, refl, refl)

pub note_last_error-Counts :
    (h : Str) (hi : HostInfo) (st : Stats) → Counts st (note_last_error h hi st)
unfolding note_last_error
note_last_error-Counts h hi st = go hi.last_error
  where
    go :
        (o : Option Str)
        → Counts st (elim o as (λ _. Stats) [
          | none ↦ st
          | some err ↦ note_error h hi.connected_ok (first_match (to_lower err) known_errors) st
        ])
    go none = (refl, refl, refl, refl, refl, refl, refl)
    go (some err) = note_error-Counts h hi.connected_ok (first_match (to_lower err) known_errors) st

note_error_counts :
    (k h : Str) (c : Bool) (o : Option Str) (st : Stats)
    → (at_key (note_error h c o st).connect_error_counts k
        ≡ at_key st.connect_error_counts k
          + (if not c then (if str_eq (or_else o unknown_error) k then 1 else 0) else 0))
      × (at_key (note_error h c o st).run_error_counts k
          ≡ at_key st.run_error_counts k
            + (if c then (if str_eq (or_else o unknown_error) k then 1 else 0) else 0))
unfolding note_error
note_error_counts k h true none st = (omega arith, at_key-bump unknown_error k st.run_error_counts)
note_error_counts k h false none st =
    (at_key-bump unknown_error k st.connect_error_counts, omega arith)
note_error_counts k h true (some e) st = (omega arith, at_key-bump e k st.run_error_counts)
note_error_counts k h false (some e) st = (at_key-bump e k st.connect_error_counts, omega arith)

pub error_counts-Adds :
    (k : Str)
    → Adds (λ st. at_key st.connect_error_counts k) (connect_weight k)
      × Adds (λ st. at_key st.run_error_counts k) (run_weight k)
unfolding note_host note_last_error
error_counts-Adds k = (
  (λ h hi st. (go h hi hi.last_error (note_counts h hi st)).0),
  λ h hi st. (go h hi hi.last_error (note_counts h hi st)).1,
)
  where
    go :
        (h : Str) (hi : HostInfo) (o : Option Str) (st : Stats)
        → let st' : Stats = elim o as (λ _. Stats) [
          | none ↦ st
          | some err ↦ note_error h hi.connected_ok (first_match (to_lower err) known_errors) st
        ] in
          let weight : Bool → ℕ = λ c. elim o as (λ _. ℕ) [
            | none ↦ 0
            | some err ↦ if c then (if str_eq (error_name err) k then 1 else 0) else 0
          ] in
          (at_key st'.connect_error_counts k
            ≡ at_key st.connect_error_counts k + weight (not hi.connected_ok))
          × (at_key st'.run_error_counts k ≡ at_key st.run_error_counts k + weight hi.connected_ok)
    go h hi none st = (omega arith, omega arith)
    go h hi (some err) st =
        note_error_counts k h hi.connected_ok (first_match (to_lower err) known_errors) st
