-- ===== src/Summary/Hosts.antt =====
-- summary.go: what `printSummary` gathers from the targets.
use metassh.Base.{
  ℕ, ◌+◌, Bool, ◌&&◌, Option, none, some, List, [], ◌∷◌, ◌++◌, ◌==◌, if◌then◌else◌, Str, bytes,
  contains, to_lower, Dict, lookup, insert,
}
use metassh.Store.Types.{HostInfo}
use metassh.Store.Serializer.{bump, or_else}

-- `errs`
abbrev pub known_errors : List Str
known_errors =
    bytes "connection refused"
    ∷ bytes "too many open files"
    ∷ bytes "connection reset by peer"
    ∷ bytes "no supported methods remain"
    ∷ bytes "administratively prohibited"
    ∷ bytes "no route to host"
    ∷ bytes "connection timed out"
    ∷ bytes "connection aborted"
    ∷ bytes "unexpected packet"
    ∷ bytes "run timed out"
    ∷ bytes "run aborted"
    ∷ bytes "eof"
    ∷ bytes "no common algorithm"
    ∷ bytes "process exited with status"
    ∷ []

abbrev pub unknown_error : Str
unknown_error = bytes "unknown error"

-- The first of the errors that the text contains.
unfoldable pub first_match : Str → List Str → Option Str
first_match text [] = none
first_match text (e ∷ es) =
    let later = first_match text es in if contains text e then some e else later

-- A map from times to hosts, the latest entry first.
abbrev pub TimeMap : Type 0
TimeMap = List (ℕ × Str)

unfoldable pub host_at : TimeMap → ℕ → Str
host_at [] t = []
host_at ((u, host) ∷ m) t = let later = host_at m t in if u == t then host else later

pub record Stats : Type 0 where
  pub runs_ok : ℕ
  pub runs_once : ℕ
  pub connections_ok : ℕ
  pub with_password : ℕ
  pub requires_pw_hosts : List Str
  pub connect_error_counts : Dict ℕ
  pub connect_error_hosts : Dict (List Str)
  pub run_error_counts : Dict ℕ
  pub run_error_hosts : Dict (List Str)
  pub connect_samples : List ℕ
  pub run_samples : List ℕ
  pub con_time_to_host : TimeMap
  pub run_time_to_host : TimeMap

abbrev pub no_stats : Stats
no_stats = record {
  runs_ok = 0;
  runs_once = 0;
  connections_ok = 0;
  with_password = 0;
  requires_pw_hosts = [];
  connect_error_counts = [];
  connect_error_hosts = [];
  run_error_counts = [];
  run_error_hosts = [];
  connect_samples = [];
  run_samples = [];
  con_time_to_host = [];
  run_time_to_host = [];
}

-- `m[k] = append(m[k], host)`
abbrev pub append_host : Str → Str → Dict (List Str) → Dict (List Str)
append_host k host m = insert k (or_else (lookup k m) [] ++ (host ∷ [])) m

-- An error that is known counts under its name, with the host; another one without.
unfoldable pub note_error : Str → Bool → Option Str → Stats → Stats
note_error host connected none st =
    if connected
    then record st { run_error_counts = bump unknown_error st.run_error_counts }
    else record st { connect_error_counts = bump unknown_error st.connect_error_counts }
note_error host connected (some e) st =
    if connected
    then record st {
      run_error_counts = bump e st.run_error_counts;
      run_error_hosts = append_host e host st.run_error_hosts;
    }
    else record st {
      connect_error_counts = bump e st.connect_error_counts;
      connect_error_hosts = append_host e host st.connect_error_hosts;
    }

unfoldable pub note_last_error : Str → HostInfo → Stats → Stats
unfolding note_error first_match
note_last_error host hi st = elim hi.last_error [
  | none ↦ st
  | some err ↦ note_error host hi.connected_ok (first_match (to_lower err) known_errors) st
]

abbrev pub one_if : Bool → ℕ
one_if b = if b then 1 else 0

abbrev pub if_sample : Bool → ℕ → List ℕ → List ℕ
if_sample b t ts = if b then ts ++ (t ∷ []) else ts

abbrev pub if_timed : Bool → ℕ → Str → TimeMap → TimeMap
if_timed b t host m = if b then (t, host) ∷ m else m

-- The counters and samples of one target.
abbrev pub note_counts : Str → HostInfo → Stats → Stats
note_counts host hi st =
    let ran = hi.run_ok && hi.run_once in
    let pw = hi.connected_ok && hi.requires_pw in
    record st {
      runs_ok = st.runs_ok + one_if hi.run_ok;
      runs_once = st.runs_once + one_if hi.run_once;
      connections_ok = st.connections_ok + one_if hi.connected_ok;
      with_password = st.with_password + one_if pw;
      requires_pw_hosts = st.requires_pw_hosts ++ (if pw then host ∷ [] else []);
      connect_samples = if_sample hi.connected_ok hi.connect_time st.connect_samples;
      run_samples = if_sample ran hi.run_time st.run_samples;
      con_time_to_host = if_timed hi.connected_ok hi.connect_time host st.con_time_to_host;
      run_time_to_host = if_timed ran hi.run_time host st.run_time_to_host;
    }

-- The body of the loop.
unfoldable pub note_host : Str → HostInfo → Stats → Stats
unfolding note_last_error
note_host host hi st = note_last_error host hi (note_counts host hi st)
