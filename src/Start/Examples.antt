-- ===== src/Start/Examples.antt =====
-- main.go and signals.go: a daemon without its SSH configuration, and the signals with one target.
use metassh.Base.{◌≡◌, refl, true, false, none, some, bytes, blocked, value, failure}
use metassh.Start.Flags.{Config, default_config}
use metassh.Start.Launch.{Settings, parsed, is_daemon, LaunchEnv, main, settled}
use metassh.Start.Daemon.{Serves, start_fails, main-Serves}

abbrev asked : Settings
asked = record {
  agent = true;
  daemonize = true;
  server = false;
  password = false;
  debug_on = false;
  file = bytes "hosts.json";
}

abbrev no_agent : LaunchEnv
no_agent = record {
  flags = parsed asked;
  is_parent = false;
  client_key_error = none;
  server_key_error = none;
  daemon = is_daemon;
  read_password = failure (bytes "no terminal");
  ssh_config_error = some (bytes "dial unix: missing address");
  load_file = value 2;
  connect_error = none;
  server_error = none;
  listen_error = none;
}

main-Serves_example : Serves (main no_agent) (start_fails no_agent (settled asked))
main-Serves_example = main-Serves no_agent asked refl refl refl refl refl refl

hangs : main no_agent ≡ blocked
hangs = main-Serves no_agent asked refl refl refl refl refl refl

abbrev defaults : Config
defaults = default_config (bytes "/root") (bytes "root")
