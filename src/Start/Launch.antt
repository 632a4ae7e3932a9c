-- ===== src/Start/Launch.antt =====
-- main.go: `main`, one definition for each step. What the steps call is answered by a `LaunchEnv`,
-- with the message of `ErrExit` where connectEverywhere ends the program; the order of what they do
-- is kept as a list. Debug messages are left out, but for the one before the output is muted.
use metassh.Base.{
  ℕ, Bool, true, false, not, ◌&&◌, Option, none, some, List, [], ◌∷◌, ◌++◌, ltb, if◌then◌else◌, Str,
  bytes, str_eq, Outcome, ok, panic, ◌>>=◌, Result, value, failure,
}
use metassh.Store.Methods.{Job, ◌>>>◌, done}
use metassh.Output.Screen.{Output, out, err_out, debug, mute_output}

-- The settings that `main` looks at.
pub record Settings : Type 0 where
  pub agent : Bool
  pub daemonize : Bool
  pub server : Bool
  pub password : Bool
  pub debug_on : Bool
  pub file : Str

-- How the flags of the command line are read.
pub data Flags : Type 0 where
  unusable : Str → Flags
  helped : Flags
  rejected : Flags
  parsed : Settings → Flags

-- `godaemon.MakeDaemon` fails, ends the process for its successor, or returns in the daemon.
pub data Daemonized : Type 0 where
  no_daemon : Str → Daemonized
  succeeded_by : Daemonized
  is_daemon : Daemonized

pub record LaunchEnv : Type 0 where
  pub flags : Flags
  pub is_parent : Bool
  pub client_key_error : Option Str
  pub server_key_error : Option Str
  pub daemon : Daemonized
  pub read_password : Result Str
  pub ssh_config_error : Option Str
  pub load_file : Result ℕ
  pub connect_error : Option Str
  pub server_error : Option Str
  pub listen_error : Option Str

pub data Deed : Type 0 where
  opens_client_key : Deed
  opens_server_key : Deed
  sets_password : Str → Deed
  handles_signals : Deed
  sets_config : Deed
  connects : Deed
  starts_server : Deed
  prints_summary : Deed

pub record Launch : Type 0 where
  pub screen : Output
  pub deeds : List Deed

-- `os.Exit`, the loop of the server that listens, or the end of `main`.
pub data Finish : Type 0 where
  exit_code : ℕ → Finish
  serves : Finish
  returns : Finish

abbrev pub on_screen : (Output → Outcome Output) → Job Launch (Unit {0})
on_screen print l = print l.screen >>= λ o. ok (record l { screen = o }, tt)

abbrev pub note : Deed → Job Launch (Unit {0})
note deed l = ok (record l { deeds = l.deeds ++ (deed ∷ []) }, tt)

-- `ErrExit`
abbrev pub err_exit : Str → Job Launch Finish
err_exit text = on_screen (err_out text) >>> λ _. done (exit_code 1)

abbrev pub unless : Option Str → Str → Job Launch Finish → Job Launch Finish
unless none text rest = rest
unless (some err) text rest = err_exit (text ++ err ++ bytes "\n")

-- `Start`, up to its loop: the port is listened on, or the server leaves. The error is
-- printed as an argument that the format has no verb for.
abbrev pub listen : LaunchEnv → Job Launch Finish
listen env = elim env.listen_error [
  | some extra ↦ err_exit (bytes "Failed to listen on port 2222: \n" ++ extra)
  | none ↦ done serves
]

unfoldable pub serve_or_sum : LaunchEnv → Settings → Job Launch Finish
serve_or_sum env c =
    if c.server
    then unless env.server_error (bytes "NewSSHServer(): ") (note starts_server >>> λ _. listen env)
    else (note prints_summary >>> λ _. done returns)

unfoldable pub connect_targets : LaunchEnv → Settings → ℕ → Job Launch Finish
unfolding serve_or_sum
connect_targets env c count =
    if ltb 0 count
    then (note connects >>> λ _. unless env.connect_error [] (serve_or_sum env c))
    else serve_or_sum env c

abbrev pub file_loaded : LaunchEnv → Settings → Result ℕ → Job Launch Finish
file_loaded env c (failure err) = err_exit (bytes "Can't read the JSON data: " ++ err ++ bytes "\n")
file_loaded env c (value count) = connect_targets env c count

unfoldable pub load_targets : LaunchEnv → Settings → Job Launch Finish
unfolding connect_targets
load_targets env c = file_loaded env c (if str_eq c.file [] then value 0 else env.load_file)

unfoldable pub configure : LaunchEnv → Settings → Job Launch Finish
unfolding load_targets
configure env c = note handles_signals >>> λ _.
    unless env.ssh_config_error (bytes "Can't load SSH client config: ")
      (note sets_config >>> λ _. load_targets env c)

abbrev pub password_read : LaunchEnv → Settings → Result Str → Job Launch Finish
password_read env c (failure err) = err_exit (bytes "Can't read password: " ++ err ++ bytes "\n")
password_read env c (value pw) = note (sets_password pw) >>> λ _. configure env c

unfoldable pub ask_password : LaunchEnv → Settings → Job Launch Finish
unfolding configure
ask_password env c =
    if c.password
    then (on_screen (out (bytes "Password to use for auth: ")) >>> λ _.
        on_screen (out (bytes "\n")) >>> λ _. password_read env c env.read_password)
    else configure env c

abbrev pub go_on : LaunchEnv → Settings → Daemonized → Job Launch Finish
go_on env c (no_daemon err) = λ l. panic
go_on env c succeeded_by = done (exit_code 0)
go_on env c is_daemon = ask_password env c

unfoldable pub daemonize : LaunchEnv → Settings → Job Launch Finish
unfolding ask_password
daemonize env c =
    if c.daemonize
    then (on_screen (debug (bytes "Daemonizing.\n")) >>> λ _.
        on_screen (λ o. ok (mute_output o)) >>> λ _. go_on env c env.daemon)
    else ask_password env c

-- The keys, which only the first process opens.
unfoldable pub open_keys : LaunchEnv → Settings → Job Launch Finish
unfolding daemonize
open_keys env c =
    let server_key =
      if c.server
      then unless env.server_key_error (bytes "Couldn't open SSH server Key: ")
          (note opens_server_key >>> λ _. daemonize env c)
      else daemonize env c in
    if not env.is_parent
    then daemonize env c
    else if c.agent
    then server_key
    else unless env.client_key_error (bytes "Couldn't open SSH private Key: ")
        (note opens_client_key >>> λ _. server_key)

-- `--daemonize` implies the server.
abbrev pub settled : Settings → Settings
settled c = if c.daemonize then record c { server = true } else c

unfoldable pub settle_and_open : LaunchEnv → Settings → Job Launch Finish
unfolding open_keys
settle_and_open env c =
    if c.daemonize && c.password
    then err_exit (bytes "Can't use --daemonize with --password.")
    else open_keys env (settled c)

abbrev pub fresh : Bool → Launch
fresh debug_on = record {
  screen = record { add_cr = false; mute = false; debug_on = debug_on; shown = [] };
  deeds = [];
}

-- The flags that cannot be used are told to STDERR without `Output`.
unfoldable pub main : LaunchEnv → Outcome (Launch × Finish)
unfolding settle_and_open
main env = elim env.flags [
  | unusable err ↦ ok (fresh false, exit_code 1)
  | helped ↦ ok (fresh false, exit_code 0)
  | rejected ↦ ok (fresh false, exit_code 1)
  | parsed c ↦ settle_and_open env c (fresh c.debug_on)
]
