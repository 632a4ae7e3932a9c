-- ===== src/Run/Examples.antt =====
-- run.go: the theorems at one host.
use metassh.Base.{
  ◌≡◌, refl, ◌≢◌, ◌↔◌, true, false, none, some, [], ◌∷◌, arith, Str, bytes, str_eq, lookup, insert,
  delete, modify, ok, blocked,
}
use metassh.Store.Types.{HostInfo, ConnInfo, new_state}
use metassh.Store.Methods
use metassh.Store.Serializer.{handle}
use metassh.Store.Races.{ptr_of}
use metassh.Fleet.Net.{Net}
use metassh.Fleet.Proxy.{response}
use metassh.Run.Program.{Program}
use metassh.Run.Spool.{SpoolEnv, spool_handles}
use metassh.Run.Command.{
  exited, RunResponse, RunEnv, open_spool, pipe_error, final_error, run_started, run_session,
  run_cmd,
}
use metassh.Run.Verdicts.{CanSpool, EndsWell}
use metassh.Run.Ends.{run_cmd_lem}
use metassh.Run.Everywhere.{Runs, run_everywhere}
use metassh.Run.Statuses.{IsReported}
use metassh.Run.Reported.{is_sent, run_everywhere_lem}
use metassh.Run.Outputs.{spoken}
use metassh.Run.Quiet.{run_everywhere_quiet}

abbrev web : Str
web = bytes "web"

abbrev fine_files : SpoolEnv
fine_files = record {
  create_out = none;
  create_err = none;
  create_ret = none;
  close_out = none;
  close_err = none;
}

-- A command that prints and then exits with 3.
abbrev failing : RunEnv
failing = record {
  spool_env = fine_files;
  session_error = none;
  stdout_pipe_error = none;
  stderr_pipe_error = none;
  start_error = none;
  wait_end = exited 3 (bytes "Process exited with status 3");
  ret_write_error = none;
  written_out = bytes "out";
  written_err = [];
  arrival = response;
}

abbrev quiet_net : Net
quiet_net = record {
  world = record { state = new_state; slots = λ c. none };
  listeners = λ c. 0;
  next_chan = 0;
  cleaned = [];
}

abbrev plain : Program
plain = record {
  net = quiet_net;
  spool = false;
  tee = false;
  spool_dir = bytes "/tmp";
  printed = [];
  spawned = [];
}

abbrev spooled : Program
spooled = record plain { spool = true }

abbrev plain_response : RunResponse
plain_response = record {
  std_out = bytes "out";
  std_err = [];
  exit_code = 3;
  error = some (bytes "Process exited with status 3");
}

plain_ran : run_cmd web 5 7 failing plain ≡ ok (plain, plain_response)
unfolding run_cmd run_session open_spool spool_handles pipe_error run_started final_error
    Methods.get_ptr Methods.set_run_wait_info Methods.set_run_wait_state
    Methods.delete_run_wait_info handle lookup insert modify delete str_eq
plain_ran = refl

abbrev spooled_response : RunResponse
spooled_response = record { std_out = []; std_err = []; exit_code = 3; error = none }

spooled_ran : run_cmd web 5 7 failing spooled ≡ ok (spooled, spooled_response)
unfolding run_cmd run_session open_spool spool_handles pipe_error run_started final_error
    Methods.get_ptr Methods.set_run_wait_info Methods.set_run_wait_state
    Methods.delete_run_wait_info handle lookup insert modify delete str_eq
spooled_ran = refl

run_cmd_lem_example :
    (p' : Program) × (resp : RunResponse) × (run_cmd web 5 7 failing spooled ≡ ok (p', resp))
    × (lookup (ptr_of web p'.net.world.state) p'.net.world.state.run_waiters ≡ none)
    × ((spooled.spool ≡ true → CanSpool failing.spool_env)
        → (resp.error ≡ none) ↔ (
            (failing.session_error ≡ none)
            × (failing.start_error ≡ none)
            × EndsWell true failing
            × (failing.arrival ≡ response)))
run_cmd_lem_example = run_cmd_lem web 5 7 failing spooled

abbrev gate_conn : ConnInfo
gate_conn = record {
  host_name = bytes "gate";
  is_proxy = true;
  is_direct = true;
  proxy_count = 1;
  req_chan = 1;
}

abbrev proxied : Program
proxied = record plain {
  net = record quiet_net {
    world = record {
      state = record new_state { conn = (bytes "gate", gate_conn) ∷ [] };
      slots = λ c. none;
    };
  };
}

abbrev runs : Runs
runs = record { runs_on = λ h. failing; started_at = λ h. 5; timer = λ h. 7; elapsed = λ h. 2 }

gate_only :
    (h : Str) (ci : ConnInfo) → lookup h proxied.net.world.state.conn ≡ some ci → ci.is_proxy ≡ true
unfolding lookup
gate_only h ci e = ground arith

abbrev web_host : HostInfo
web_host = record {
  host_name = web;
  ip_address = bytes "10.0.0.2";
  chain = bytes "gate" ∷ [];
  requires_pw = false;
  connected_ok = true;
  connect_time = 9;
  run_time = 0;
  run_ok = true;
  run_once = false;
  last_error = none;
}

abbrev web_conn : ConnInfo
web_conn = record {
  host_name = web;
  is_proxy = false;
  is_direct = false;
  proxy_count = 0;
  req_chan = 2;
}

-- `web` is reached through `gate`.
abbrev both : Program
both = record plain {
  net = record quiet_net {
    world = record {
      state = record new_state {
        targets = (web, web_host) ∷ [];
        conn = (bytes "gate", gate_conn) ∷ (web, web_conn) ∷ [];
      };
      slots = λ c. none;
    };
    listeners = λ c. 1;
  };
}

run_everywhere_lem_example :
    (p' : Program) × (run_everywhere runs false both ≡ ok (p', tt))
    × ((h : Str) (hi : HostInfo)
        → lookup h both.net.world.state.targets ≡ some hi
        → is_sent both.net.world.state.conn h ≡ true
        → (hi' : HostInfo) × (lookup h p'.net.world.state.targets ≡ some hi')
          × IsReported runs h hi hi')
    × ((h : Str)
        → is_sent both.net.world.state.conn h ≡ false
        → lookup h p'.net.world.state.targets ≡ lookup h both.net.world.state.targets)
run_everywhere_lem_example = run_everywhere_lem runs both refl (λ h ci e. ground arith)

run_everywhere_quiet_example :
    (((h : Str) → is_sent both.net.world.state.conn h ≡ true → spoken (runs.runs_on h) ≡ [])
      → run_everywhere runs true both ≡ run_everywhere runs false both)
    × ((h : Str)
        → is_sent both.net.world.state.conn h ≡ true
        → spoken (runs.runs_on h) ≢ []
        → run_everywhere runs true both ≡ blocked)
run_everywhere_quiet_example = run_everywhere_quiet runs both refl (λ h ci e. ground arith)
