-- ===== src/Cli/Examples.antt =====
-- commands.go: the theorems at a target that is connected, and the toggles.
use metassh.Store.Methods.{
  delete_conn_info, get_conn_keys, clear_host_info, timeout_waiters, get_conn_info,
}
use metassh.Base.{
  ◌≡◌, refl, true, none, List, [], ◌∷◌, Str, bytes, str_eq, fields, to_lower, lookup, delete, ok,
}
use metassh.Store.Types.{new_state}
use metassh.Store.Serializer.{handle, timeout_all}
use metassh.Fleet.Net.{set_listeners}
use metassh.Run.Program.{Program, line}
use metassh.Base.{fields_from}
use metassh.Cli.Dispatch.{leaves, cli}
use metassh.Cli.Quits.{left}
use metassh.Cli.Session.{any_quits, cli-left}
use metassh.Cli.Commands.{tee, clear}
use metassh.Cli.Samples.{serving, before, desk}

abbrev emptied : Program
emptied = record before {
  net = record {
    world = record { state = new_state; slots = λ c. none };
    listeners = set_listeners 0 0 λ c. 1;
    next_chan = 1;
    cleaned = 0 ∷ [];
  };
  printed = line (bytes "Targets cleared.\n") ∷ [];
}

cleared : clear serving before ≡ ok (emptied, none)
unfolding clear handle timeout_waiters timeout_all get_conn_keys get_conn_info lookup str_eq
    delete_conn_info delete clear_host_info
cleared = refl

teed :
    tee before
    ≡ ok (record before { tee = true; printed = line (bytes "Teeing is now ON.\n") ∷ [] }, none)
unfolding tee
teed = refl

abbrev typed : List Str
typed = [] ∷ bytes "tee" ∷ bytes " Exit now" ∷ bytes "tee" ∷ []

abbrev typed_end : Program
typed_end = record before {
  tee = true;
  printed = line (bytes "Teeing is now ON.\n") ∷ line (bytes "exit: byte!\n\n") ∷ [];
}

typed_ran : cli desk typed before ≡ ok (typed_end, leaves)
unfolding cli fields fields_from to_lower str_eq lookup
typed_ran = refl

cli-left_example : left leaves ≡ any_quits typed
cli-left_example = cli-left desk typed before typed_end leaves typed_ran (λ e. cc)
