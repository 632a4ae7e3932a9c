-- ===== src/Summary/Examples.antt =====
-- summary.go and sortmap.go: the theorems at a fleet of two.
use metassh.Base.{
  ℕ, ◌≡◌, refl, true, false, none, some, [], ◌∷◌, bytes, str_eq, has_prefix, contains, to_lower,
  Dict, lookup, ok, sort_by,
}
use mathlib.Core.List.{Perm, Permᴰ}
use metassh.Summary.Order.{Agrees, note_each_perm}
use metassh.Store.Types.{HostInfo, new_state}
use metassh.Run.Program.{Program}
use metassh.Summary.SortMap.{sorted_int_keys}
use metassh.Summary.Hosts.{Stats, no_stats, first_match, known_errors}
use metassh.Summary.Report.{note_each}
use metassh.Summary.Balance.{Grows, found, note_each-Grows}

abbrev up_info : HostInfo
up_info = record {
  host_name = bytes "web";
  ip_address = [];
  chain = bytes "web" ∷ [];
  requires_pw = false;
  connected_ok = true;
  connect_time = 4;
  run_time = 0;
  run_ok = false;
  run_once = true;
  last_error = some (bytes "Remote run timed out.");
}

abbrev down_info : HostInfo
down_info = record up_info {
  host_name = bytes "db";
  connected_ok = false;
  run_once = false;
  last_error = some (bytes "dial tcp: No route to host");
}

abbrev program : Program
program = record {
  net = record {
    world = record {
      state = record new_state { targets = (bytes "web", up_info) ∷ (bytes "db", down_info) ∷ [] };
      slots = λ c. none;
    };
    listeners = λ c. 0;
    next_chan = 0;
    cleaned = [];
  };
  spool = false;
  tee = false;
  spool_dir = [];
  printed = [];
  spawned = [];
}

note_each-Grows_example :
    (st' : Stats) × (note_each (bytes "db" ∷ bytes "web" ∷ []) no_stats program ≡ ok (program, st'))
    × Grows (found (bytes "db" ∷ bytes "web" ∷ []) program.net.world.state.targets) no_stats st'
note_each-Grows_example = note_each-Grows (bytes "db" ∷ bytes "web" ∷ []) no_stats program

known :
    first_match (to_lower (bytes "dial tcp: No route to host")) known_errors
    ≡ some (bytes "no route to host")
unfolding first_match to_lower contains has_prefix
known = refl

abbrev tallied : Dict ℕ
tallied = (bytes "eof", 1) ∷ (bytes "run aborted", 3) ∷ []

tallied_sorted : sorted_int_keys tallied ≡ bytes "run aborted" ∷ bytes "eof" ∷ []
unfolding sorted_int_keys sort_by lookup str_eq
tallied_sorted = refl

both_orders : Perm (bytes "db" ∷ bytes "web" ∷ []) (bytes "web" ∷ bytes "db" ∷ [])
both_orders = ∣ Permᴰ.swap refl refl ∣₁

note_each_perm_example :
    (st : Stats) × (st' : Stats) × (note_each (bytes "db" ∷ bytes "web" ∷ []) no_stats program
      ≡ ok (program, st))
    × (note_each (bytes "web" ∷ bytes "db" ∷ []) no_stats program ≡ ok (program, st'))
    × Agrees st st'
note_each_perm_example = note_each_perm no_stats program both_orders
