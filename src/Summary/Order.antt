-- ===== src/Summary/Order.antt =====
-- summary.go: what `printSummary` counts does not depend on the order in which Go ranges over the
-- targets.
use metassh.Base.{
  ℕ, ◌+◌, ◌≡◌, ap, ◌∙◌, Bool, true, false, ◌&&◌, List, [], ◌∷◌, arith, ◌==◌, if◌then◌else◌, Str, ok,
}
use mathlib.Core.List.{Perm}
use metassh.Store.Types.{HostInfo}
use metassh.Run.Program.{Program}
use metassh.Summary.SortMap.{at_key}
use metassh.Summary.Hosts.{Stats, note_counts, note_host, one_if, if_sample}
use metassh.Summary.Report.{note_each}
use metassh.Summary.Balance.{note_each-Grows}
use metassh.Summary.Weights.{
  summed_perm, occurrences, mentions, occurrences-snoc, mentions-append, Adds, weighed,
  note_each-measure, note_last_error-Counts, error_counts-Adds,
}

-- The same counts, the same errors as often, the same hosts with a password, and the same times.
pub record Agrees (st st' : Stats) : Type 0 where
  pub runs_ok : st.runs_ok ≡ st'.runs_ok
  pub runs_once : st.runs_once ≡ st'.runs_once
  pub connections_ok : st.connections_ok ≡ st'.connections_ok
  pub with_password : st.with_password ≡ st'.with_password
  pub connect_errors :
      (k : Str) → at_key st.connect_error_counts k ≡ at_key st'.connect_error_counts k
  pub run_errors : (k : Str) → at_key st.run_error_counts k ≡ at_key st'.run_error_counts k
  pub asked : (h : Str) → mentions h st.requires_pw_hosts ≡ mentions h st'.requires_pw_hosts
  pub connected : (t : ℕ) → occurrences t st.connect_samples ≡ occurrences t st'.connect_samples
  pub ran : (t : ℕ) → occurrences t st.run_samples ≡ occurrences t st'.run_samples

-- A measure to which each target adds its weight comes out the same in any order.
measure_perm :
    (μ : Stats → ℕ) (weight : Str → HostInfo → ℕ)
    → Adds μ weight
    → {hs hs' : List Str} (st0 st st' : Stats) (p : Program) → Perm hs hs'
    → note_each hs st0 p ≡ ok (p, st)
    → note_each hs' st0 p ≡ ok (p, st')
    → μ st ≡ μ st'
measure_perm μ weight adds {hs} {hs'} st0 st st' p q e f = omega (
  arith,
  note_each-measure μ weight adds hs st0 st p e,
  note_each-measure μ weight adds hs' st0 st' p f,
  summed_perm (weighed weight p.net.world.state.targets) q,
)

-- What the counters and samples of one target add, whatever the note of its error does.
runs_ok-Adds : Adds (λ st. st.runs_ok) (λ h hi. one_if hi.run_ok)
unfolding note_host
runs_ok-Adds h hi st = (note_last_error-Counts h hi (note_counts h hi st)).0

runs_once-Adds : Adds (λ st. st.runs_once) (λ h hi. one_if hi.run_once)
unfolding note_host
runs_once-Adds h hi st = (note_last_error-Counts h hi (note_counts h hi st)).1

connections_ok-Adds : Adds (λ st. st.connections_ok) (λ h hi. one_if hi.connected_ok)
unfolding note_host
connections_ok-Adds h hi st = (note_last_error-Counts h hi (note_counts h hi st)).2

with_password-Adds :
    Adds (λ st. st.with_password) (λ h hi. one_if (hi.connected_ok && hi.requires_pw))
unfolding note_host
with_password-Adds h hi st = (note_last_error-Counts h hi (note_counts h hi st)).3

asked-Adds :
    (j : Str)
    → Adds
        (λ st. mentions j st.requires_pw_hosts)
        (λ h hi. mentions j (if hi.connected_ok && hi.requires_pw then h ∷ [] else []))
unfolding note_host
asked-Adds j h hi st =
    ap (mentions j) (note_last_error-Counts h hi (note_counts h hi st)).4
    ∙ mentions-append j st.requires_pw_hosts _

if_sample_lem :
    (t u : ℕ) (b : Bool) (l : List ℕ)
    → occurrences t (if_sample b u l)
      ≡ occurrences t l + (if b then (if u == t then 1 else 0) else 0)
if_sample_lem t u true l = occurrences-snoc t u l
if_sample_lem t u false l = omega arith

connected-Adds :
    (t : ℕ)
    → Adds
        (λ st. occurrences t st.connect_samples)
        (λ h hi. if hi.connected_ok then (if hi.connect_time == t then 1 else 0) else 0)
unfolding note_host
connected-Adds t h hi st =
    ap (occurrences t) (note_last_error-Counts h hi (note_counts h hi st)).5
    ∙ if_sample_lem t hi.connect_time hi.connected_ok st.connect_samples

ran-Adds :
    (t : ℕ)
    → Adds
        (λ st. occurrences t st.run_samples)
        (λ h hi. if hi.run_ok && hi.run_once then (if hi.run_time == t then 1 else 0) else 0)
unfolding note_host
ran-Adds t h hi st =
    ap (occurrences t) (note_last_error-Counts h hi (note_counts h hi st)).6
    ∙ if_sample_lem t hi.run_time (hi.run_ok && hi.run_once) st.run_samples

-- The loop of `printSummary` over the same targets in two orders comes through both times, and the
-- counts, the errors, the hosts with a password and the samples are the same, each as often.
pub note_each_perm :
    {hs hs' : List Str} (st0 : Stats) (p : Program)
    → Perm hs hs'
    → (st : Stats) × (st' : Stats) × (note_each hs st0 p ≡ ok (p, st))
      × (note_each hs' st0 p ≡ ok (p, st'))
      × Agrees st st'
note_each_perm {hs} {hs'} st0 p q =
    let (st, e, _) = note_each-Grows hs st0 p in
    let (st', f, _) = note_each-Grows hs' st0 p in
    (
      st,
      st',
      e,
      f,
      record {
        runs_ok = measure_perm _ _ runs_ok-Adds st0 st st' p q e f;
        runs_once = measure_perm _ _ runs_once-Adds st0 st st' p q e f;
        connections_ok = measure_perm _ _ connections_ok-Adds st0 st st' p q e f;
        with_password = measure_perm _ _ with_password-Adds st0 st st' p q e f;
        connect_errors = λ k. measure_perm _ _ (error_counts-Adds k).0 st0 st st' p q e f;
        run_errors = λ k. measure_perm _ _ (error_counts-Adds k).1 st0 st st' p q e f;
        asked = λ j. measure_perm _ _ (asked-Adds j) st0 st st' p q e f;
        connected = λ t. measure_perm _ _ (connected-Adds t) st0 st st' p q e f;
        ran = λ t. measure_perm _ _ (ran-Adds t) st0 st st' p q e f;
      },
    )
