-- ===== src/Summary/Balance.antt =====
-- summary.go: every target is counted once in the statistics.
use metassh.Base.{
  ℕ, ◌+◌, ◌≡◌, refl, inl, inr, Bool, true, false, not, ◌&&◌, Option, none, some, List, [], ◌∷◌,
  arith, if◌then◌else◌, Option-cases, length, length-append, Str, to_lower, Dict, is_some, lookup,
  ok,
}
use metassh.Store.Types.{HostInfo}
use metassh.Store.Serializer.{bump}
use metassh.Store.Races.{get_host_info_alone}
use metassh.Run.Program.{Program}
use metassh.Summary.Hosts.{
  unknown_error, known_errors, first_match, Stats, note_error, note_last_error, note_counts,
  note_host,
}
use metassh.Summary.Report.{note_each}

abbrev pub total_of : Dict ℕ → ℕ
total_of [] = 0
total_of ((k, n) ∷ m) = n + total_of m

total_of-bump : (k : Str) (m : Dict ℕ) → total_of (bump k m) ≡ total_of m + 1
unfolding bump
total_of-bump k [] = refl
total_of-bump k ((j, n) ∷ m) = ground (arith, total_of-bump k m)

-- The targets that the names stand for.
abbrev pub found : List Str → Dict HostInfo → List HostInfo
found [] m = []
found (h ∷ hs) m = elim (lookup h m) [ none ↦ found hs m | some hi ↦ hi ∷ found hs m ]

abbrev pub number_of : (HostInfo → Bool) → List HostInfo → ℕ
number_of p [] = 0
number_of p (hi ∷ l) = (if p hi then 1 else 0) + number_of p l

abbrev pub not_connected : HostInfo → Bool
not_connected hi = not hi.connected_ok && is_some hi.last_error

abbrev pub not_run : HostInfo → Bool
not_run hi = hi.connected_ok && is_some hi.last_error

abbrev pub up : HostInfo → Bool
up hi = hi.connected_ok

-- How the statistics grow with a list of targets.
abbrev pub Grows : List HostInfo → Stats → Stats → Type 0
Grows l st st' =
    (total_of st'.connect_error_counts
      ≡ total_of st.connect_error_counts + number_of not_connected l)
    × (total_of st'.run_error_counts ≡ total_of st.run_error_counts + number_of not_run l)
    × (st'.connections_ok ≡ st.connections_ok + number_of up l)
    × (length st'.connect_samples ≡ length st.connect_samples + number_of up l)

note_error-Grows :
    (host : Str) (c : Bool) (o : Option Str) (st : Stats)
    → let st' = note_error host c o st in
      (total_of st'.connect_error_counts ≡ total_of st.connect_error_counts + (if c then 0 else 1))
      × (total_of st'.run_error_counts ≡ total_of st.run_error_counts + (if c then 1 else 0))
      × (st'.connections_ok ≡ st.connections_ok)
      × (st'.connect_samples ≡ st.connect_samples)
unfolding note_error
note_error-Grows host true none st =
    (omega (arith), omega (arith, total_of-bump unknown_error st.run_error_counts), refl, refl)
note_error-Grows host true (some e) st =
    (omega (arith), omega (arith, total_of-bump e st.run_error_counts), refl, refl)
note_error-Grows host false none st =
    (omega (arith, total_of-bump unknown_error st.connect_error_counts), omega (arith), refl, refl)
note_error-Grows host false (some e) st =
    (omega (arith, total_of-bump e st.connect_error_counts), omega (arith), refl, refl)

note_host-Grows :
    (host : Str) (hi : HostInfo) (st : Stats) → Grows (hi ∷ []) st (note_host host hi st)
unfolding note_host note_last_error
note_host-Grows host hi st =
    let st0 = note_counts host hi st in
    let sampled = length-append st.connect_samples (hi.connect_time ∷ []) in
    elim (Option-cases hi.last_error) [
      | inl none_yet ↦ (ground arith, ground arith, ground arith, ground (arith, sampled))
      | inr (err, there) ↦
          let (a, b, c, d) =
            note_error-Grows host hi.connected_ok (first_match (to_lower err) known_errors) st0 in
          (ground arith, ground arith, ground arith, ground (arith, sampled))
    ]

-- The loop comes through, changes nothing, and counts each target once: with the connection
-- errors if it is not connected and has an error, with the run errors if it is connected and has
-- one, and with the connections, and a sample of the time, if it is connected.
pub note_each-Grows :
    (hs : List Str) (st : Stats) (p : Program)
    → (st' : Stats) × (note_each hs st p ≡ ok (p, st'))
      × Grows (found hs p.net.world.state.targets) st st'
unfolding note_each
note_each-Grows [] st p = (st, refl, (omega arith, omega arith, omega arith, omega arith))
note_each-Grows (h ∷ hs) st p = elim (Option-cases (lookup h p.net.world.state.targets)) [
  | inl gone ↦
      let (st', e, g) = note_each-Grows hs st p in
      (st', rw (get_host_info_alone h p.net.world, gone) e, rw (gone, found) g)
  | inr (hi, there) ↦
      let (st', e, g) = note_each-Grows hs (note_host h hi st) p in
      let g0 = note_host-Grows h hi st in
      (
        st',
        rw (get_host_info_alone h p.net.world, there) e,
        rw (there, found)
            (
              omega (arith, g, g0),
              omega (arith, g, g0),
              omega (arith, g, g0),
              omega (arith, g, g0),
            ),
      )
]
