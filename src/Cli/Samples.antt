-- ===== src/Cli/Samples.antt =====
-- Sample data: one target that is connected, and what answers a session.
use metassh.Base.{
  ℕ, true, false, none, some, [], ◌∷◌, arith, ltb, leb, ◌==◌, length, Str, bytes, str_eq_iff,
  lookup, failure,
}
use metassh.Fleet.Manned.{Manned}
use metassh.Store.Types.{HostInfo, ConnInfo, new_state}
use metassh.Fleet.Net.{Options}
use metassh.Run.Program.{Program}
use metassh.Fleet.Resolve.{Weather, refused}
use metassh.Fleet.Proxy.{response}
use metassh.Run.Command.{clean}
use metassh.Run.Everywhere.{Runs}
use metassh.Cli.Quant.{helped, Reals}
use metassh.Cli.Flags.{CliEnv, not_started}

abbrev pub web : Str
web = bytes "web"

abbrev pub web_info : HostInfo
web_info = record {
  host_name = web;
  ip_address = [];
  chain = web ∷ [];
  requires_pw = false;
  connected_ok = true;
  connect_time = 4;
  run_time = 0;
  run_ok = false;
  run_once = false;
  last_error = none;
}

abbrev pub web_conn : ConnInfo
web_conn = record {
  host_name = web;
  is_proxy = false;
  is_direct = true;
  proxy_count = 0;
  req_chan = 0;
}

abbrev pub serving : Options
serving = record { bastion_conns = 1; password = false; server = true; execute = false }

abbrev pub before : Program
before = record {
  net = record {
    world = record {
      state = record new_state { targets = (web, web_info) ∷ []; conn = (web, web_conn) ∷ [] };
      slots = λ c. none;
    };
    listeners = λ c. 1;
    next_chan = 1;
    cleaned = [];
  };
  spool = false;
  tee = false;
  spool_dir = bytes "/tmp";
  printed = [];
  spawned = [];
}

abbrev pub tens : Reals
tens = record {
  Real = ℕ;
  parse_float = λ s. failure s;
  literal = λ s. length s;
  eq = ◌==◌;
  le = leb;
  lt = ltb;
  seconds = λ t. t;
  query = λ samples r. r;
}

abbrev pub refusal : Str
refusal = bytes "connection refused"

abbrev pub calm : Weather
calm = record {
  direct = λ link id. record { asks_password = false; outcome = refused refusal };
  proxied = λ link. record {
    dial_error = some refusal;
    asks_password = false;
    handshake_error = none;
    arrival = response;
  };
  now = 0;
  timer = λ link. 0;
  elapsed = λ link. 9;
  ran = λ link. failure refusal;
  run_time = λ link. 0;
}

abbrev pub no_runs : Runs
no_runs = record {
  runs_on = λ h. record {
    spool_env = record {
      create_out = some refusal;
      create_err = none;
      create_ret = none;
      close_out = none;
      close_err = none;
    };
    session_error = none;
    stdout_pipe_error = none;
    stderr_pipe_error = none;
    start_error = some refusal;
    wait_end = clean;
    ret_write_error = none;
    written_out = [];
    written_err = [];
    arrival = response;
  };
  started_at = λ h. 0;
  timer = λ h. 0;
  elapsed = λ h. 0;
}

abbrev pub desk : CliEnv
desk = record {
  reals = tens;
  opts = serving;
  writable = λ dir. true;
  parse_run = λ args. helped;
  parse_connect = λ args. helped;
  parse_summary = λ args. helped;
  parse_quant = λ args. helped;
  runs = λ cmdline timeout. no_runs;
  weather = λ timeout. calm;
  target_end = λ args. not_started refusal;
  unmarshal = λ s. failure s;
  samples = λ l. l;
  now = 0;
  elapsed = 1;
}

pub before-Manned : Manned serving before.net
unfolding lookup
before-Manned h ci e =
    (ground arith, ground arith, λ j cj f q. ground (arith, str_eq_iff web j, str_eq_iff web h))
