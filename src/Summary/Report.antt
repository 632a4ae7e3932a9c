-- ===== src/Summary/Report.antt =====
-- summary.go: the loop of `printSummary`, and what it prints. The samples that the quantile package
-- gives back, in order, are an argument.
use metassh.Base.{
  ℕ, Bool, List, [], ◌∷◌, ◌++◌, ◌==◌, if◌then◌else◌, length, Str, bytes, Dict, lookup, value,
  failure,
}
use metassh.Store.Methods.{Job, ◌>>>◌, done}
use metassh.Store.Methods
use metassh.Store.Serializer.{or_else}
use metassh.Output.Screen.{pos, minus}
use metassh.Run.Program.{Program, line, number, named, quantiles, on_state, say}
use metassh.Summary.SortMap.{at_key, sorted_int_keys}
use metassh.Summary.Hosts.{TimeMap, host_at, Stats, no_stats, note_host}

unfoldable pub note_each : List Str → Stats → Job Program Stats
unfolding note_host
note_each [] st = done st
note_each (h ∷ hs) st = on_state (Methods.get_host_info h) >>> λ found. elim found [
  | failure err ↦ note_each hs st
  | value hi ↦ note_each hs (note_host h hi st)
]

unfoldable pub say_hosts : Str → List Str → Job Program (Unit {0})
say_hosts indent [] = done tt
say_hosts indent (h ∷ hs) = say (line (indent ++ h ++ bytes "\n")) >>> λ _. say_hosts indent hs

unfoldable pub say_errors : Bool → Dict ℕ → Dict (List Str) → List Str → Job Program (Unit {0})
unfolding say_hosts
say_errors verbose m hosts [] = done tt
say_errors verbose m hosts (e ∷ es) =
    say (number (bytes "\t\t" ++ e ++ bytes "(%d)\n") (pos (at_key m e))) >>> λ _.
    (if verbose then say_hosts (bytes "\t\t\t") (or_else (lookup e hosts) []) else done tt) >>> λ _.
    say_errors verbose m hosts es

unfoldable pub output_errors : Bool → Dict ℕ → Dict (List Str) → Job Program (Unit {0})
unfolding sorted_int_keys say_errors
output_errors verbose m hosts = say_errors verbose m hosts (sorted_int_keys m)

abbrev pub last_of : ℕ → List ℕ → ℕ
last_of s [] = s
last_of s (t ∷ ts) = last_of t ts

-- Nothing is printed of no samples.
unfoldable pub fast_slow : Str → List ℕ → TimeMap → Job Program (Unit {0})
unfolding host_at
fast_slow what [] tm = done tt
fast_slow what (fast ∷ rest) tm =
    let slow = last_of fast rest in
    say (named (bytes "Fastest " ++ what) (host_at tm fast) fast) >>> λ _.
    say (named (bytes "Slowest " ++ what) (host_at tm slow) slow)

-- What follows the loop; `entries` is the number of targets.
unfoldable pub report : (List ℕ → List ℕ) → Bool → Bool → ℕ → Stats → Job Program (Unit {0})
unfolding output_errors fast_slow say_hosts
report samples password verbose entries st =
    say (line (bytes "Quantile:    1%%     25%%     50%%     90%%    99%%\n")) >>> λ _.
    say (line (bytes "         +-------+-------+-------+-------+------+\n")) >>> λ _.
    say (quantiles (bytes "Connect") st.connect_samples) >>> λ _.
    (if 0 == length st.run_samples then done tt else say (quantiles (bytes "Run") st.run_samples))
    >>> λ _.
        say (number (bytes "\n\t%d connection failures\n") (minus entries st.connections_ok))
        >>> λ _. output_errors verbose st.connect_error_counts st.connect_error_hosts >>> λ _.
            (if password
              then (say (number (bytes "\trequired a password(%d)\n") (pos st.with_password))
                  >>> λ _.
                      (if verbose then say_hosts (bytes "\t\t") st.requires_pw_hosts else done tt))
              else done tt)
            >>> λ _.
                (if 0 == length st.run_samples
                  then done tt
                  else say (number (bytes "\t%d run failures\n") (minus st.runs_once st.runs_ok)))
                >>> λ _. output_errors verbose st.run_error_counts st.run_error_hosts >>> λ _.
                    say (line (bytes "\n")) >>> λ _.
                    fast_slow (bytes "Con") (samples st.connect_samples) st.con_time_to_host
                    >>> λ _. fast_slow (bytes "Run") (samples st.run_samples) st.run_time_to_host

unfoldable pub print_summary : (List ℕ → List ℕ) → Bool → Bool → Job Program (Unit {0})
unfolding note_each report
print_summary samples password verbose = on_state Methods.get_host_keys >>> λ hk.
    note_each hk no_stats >>> λ st. report samples password verbose (length hk) st
