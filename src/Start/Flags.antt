-- ===== src/Start/Flags.antt =====
-- config.go: the settings of the command line, their defaults, and `reflectFlags`. A structure is
-- the list of its fields; the flag set of pflag is the list of the flags that are defined in it.
use metassh.Base.{
  ◌≡◌, refl, Bool, true, false, not, ◌&&◌, ◌||◌, List, [], ◌∷◌, ◌++◌, map, if◌then◌else◌, Str,
  bytes, str_eq, fields, to_lower, Result, value, failure,
}
use metassh.Output.Screen.{ℤ, pos}

pub data Value : Type 0 where
  float64 : Str → Value
  bool : Bool → Value
  int : ℤ → Value
  string : Str → Value
  other_kind : Value

pub record Field : Type 0 where
  pub field_name : Str
  pub short : Str
  pub desc : Str
  pub content : Value

-- What `flags` is.
pub data Target : Type 0 where
  no_pointer : Target
  to_other : Target
  to_struct : List Field → Target

pub record Flag : Type 0 where
  pub long : Str
  pub letter : Str
  pub usage : Str
  pub default : Value

abbrev flag_of : Field → Flag
flag_of f = record {
  long = to_lower f.field_name;
  letter = f.short;
  usage = f.desc;
  default = f.content;
}

-- The `switch` on the kind, which passes over the kinds that it does not name.
abbrev pub is_flag : Value → Bool
is_flag other_kind = false
is_flag _ = true

unfoldable pub define_flags : List Field → List Flag
unfolding to_lower
define_flags [] = []
define_flags (f ∷ fs) = if is_flag f.content then flag_of f ∷ define_flags fs else define_flags fs

unfoldable pub reflect_flags : Target → Result (List Flag)
unfolding define_flags
reflect_flags no_pointer = failure (bytes "Expected pointer type for flags.")
reflect_flags to_other = failure (bytes "Expected pointer to struct for flags.")
reflect_flags (to_struct fields) = value (define_flags fields)

pub record Config : Type 0 where
  pub agent : Bool
  pub bastion_conns : ℤ
  pub concurrency : ℤ
  pub control_path : Str
  pub debug : Bool
  pub daemonize : Bool
  pub execute : Bool
  pub file : Str
  pub host_key : Str
  pub keep_alive : ℤ
  pub key : Str
  pub password : Bool
  pub server : Bool
  pub spool : Bool
  pub spool_dir : Str
  pub target_cmd : Str
  pub tee : Bool
  pub test_cmd : Str
  pub timeout : ℤ
  pub user : Str
  pub verbose : Bool

-- `$HOME` and `$USER`
abbrev pub default_config : Str → Str → Config
default_config home user = record {
  agent = false;
  bastion_conns = pos 1;
  concurrency = pos 65536;
  control_path = home ++ bytes "/.ssh/control";
  debug = false;
  daemonize = false;
  execute = false;
  file = [];
  host_key = home ++ bytes "/.ssh/id_host";
  keep_alive = pos 0;
  key = home ++ bytes "/.ssh/id_rsa";
  password = false;
  server = false;
  spool = false;
  spool_dir = home ++ bytes "/.ssh/spool";
  target_cmd = home ++ bytes "/bin/target";
  tee = false;
  test_cmd = bytes "exit 0";
  timeout = pos 60;
  user = user;
  verbose = false;
}

abbrev field : Str → Str → Str → Value → Field
field name short desc content = record {
  field_name = name;
  short = short;
  desc = desc;
  content = content;
}

-- The fields with their tags.
abbrev pub config_fields : Config → List Field
config_fields c =
    field (bytes "Agent") (bytes "a") (bytes "Use ssh-agent auth. Limits concurrency to 128")
      (bool c.agent)
    ∷ field (bytes "BastionConns") (bytes "b")
        (bytes "Number of connections to maintain to each bastion") (int c.bastion_conns)
    ∷ field (bytes "Concurrency") (bytes "c") (bytes "Maximum number of concurrent SSH connections")
        (int c.concurrency)
    ∷ field (bytes "ControlPath") []
        (bytes "Specify where to create the control master UNIX domain sockets")
        (string c.control_path)
    ∷ field (bytes "Debug") (bytes "d") (bytes "Turn on debugging output") (bool c.debug)
    ∷ field (bytes "Daemonize") [] (bytes "Daemonize the program; run in the background")
        (bool c.daemonize)
    ∷ field (bytes "Execute") (bytes "e")
        (bytes "Execute a test command on the server after connecting") (bool c.execute)
    ∷ field (bytes "File") (bytes "f") (bytes "JSON file describing our SSH targets")
        (string c.file)
    ∷ field (bytes "HostKey") [] (bytes "Path of the SSH server's private host key")
        (string c.host_key)
    ∷ field (bytes "KeepAlive") [] (bytes "Send server keep alive messages every 'n' seconds")
        (int c.keep_alive)
    ∷ field (bytes "Key") (bytes "k") (bytes "Private SSH key to use for client authentication")
        (string c.key)
    ∷ field (bytes "Password") (bytes "p")
        (bytes "Prompt for a password for password auth fallback") (bool c.password)
    ∷ field (bytes "Server") (bytes "s") (bytes "Run in SSH server mode") (bool c.server)
    ∷ field (bytes "Spool") [] (bytes "Save remote execution output to the SpoolDir") (bool c.spool)
    ∷ field (bytes "SpoolDir") [] (bytes "Specify path to save program execution output")
        (string c.spool_dir)
    ∷ field (bytes "TargetCmd") []
        (bytes "Specify external program to implement target functionality") (string c.target_cmd)
    ∷ field (bytes "Tee") [] (bytes "Tee spooled output to stdout/stderr.") (bool c.tee)
    ∷ field (bytes "TestCmd") [] (bytes "Specify a test command to execute") (string c.test_cmd)
    ∷ field (bytes "Timeout") (bytes "t")
        (bytes "Number of seconds to wait for SSH connections to finish") (int c.timeout)
    ∷ field (bytes "User") (bytes "u") (bytes "Specify the user to SSH in as") (string c.user)
    ∷ field (bytes "Verbose") (bytes "v") (bytes "Enable verbose reporting") (bool c.verbose)
    ∷ []

abbrev is_among : Str → List Str → Bool
is_among s [] = false
is_among s (t ∷ l) = str_eq s t || is_among s l

-- No entry stands twice; entries that are empty do not count.
abbrev pub distinct : List Str → Bool
distinct [] = true
distinct ([] ∷ l) = distinct l
distinct ((c ∷ s) ∷ l) = not (is_among (c ∷ s) l) && distinct l

-- Each setting of the program gets a flag, in order, that starts with the setting's value; no two
-- flags have a name or a letter in common.
pub reflect_flags-config_fields :
    (c : Config)
    → (flags : List Flag) × (reflect_flags (to_struct (config_fields c)) ≡ value flags)
      × (map (λ f. f.default) flags ≡ map (λ f. f.content) (config_fields c))
      × (distinct (map (λ f. f.long) flags) ≡ true)
      × (distinct (map (λ f. f.letter) flags) ≡ true)
unfolding reflect_flags str_eq
reflect_flags-config_fields c = (map flag_of (config_fields c), refl, refl, refl, refl)
