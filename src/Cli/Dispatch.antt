-- ===== src/Cli/Dispatch.antt =====
-- commands.go: the table of commands, `runCliCmd`, and the loop of `cli`.
use metassh.Base.{
  ℕ, ◌-◌, Option, none, some, List, [], ◌∷◌, ◌++◌, ltb, if◌then◌else◌, length, replicate, Str,
  bytes, str_eq, fields, to_lower, Dict, lookup, keys, panic, sort_by, str_less,
}
use metassh.Store.Methods.{Job, ◌>>>◌, done}
use metassh.Output.Screen.{pos}
use metassh.Run.Program.{Program, line, number, say}
use metassh.Cli.Commands.{
  CmdErr, plain, fatal, help, status, exits, Command, spooldir, tee, spool, clean, clear, disco,
  quit, abort,
}
use metassh.Cli.Quant.{quant}
use metassh.Cli.Flags.{CliEnv, run, target, summary, state, connect}

abbrev pub help_texts : Dict Str
help_texts =
    (bytes "state", bytes "Get the state of in-flight connections/runs.")
    ∷ (bytes "run", bytes "Run a command on loaded/connected targets.")
    ∷ (bytes "target", bytes "Target some hosts to connect/run commands on.")
    ∷ (bytes "clear", bytes "Clear the list of targets, implies disco.")
    ∷ (bytes "clean", bytes "Removed timed out host from the target list.")
    ∷ (bytes "exit", bytes "I'm outta here.")
    ∷ (bytes "quit", bytes "Cya.")
    ∷ (bytes "abort", bytes "Abort any in-flight connections/runs.")
    ∷ (bytes "disco", bytes "Disconnect all targeted hosts.")
    ∷ (bytes "connect", bytes "Connect all targeted hosts.")
    ∷ (bytes "summary", bytes "Show some stats about connections/runs.")
    ∷ (bytes "spool", bytes "Toggle spool state.")
    ∷ (bytes "spooldir", bytes "Set or print the spool directory.")
    ∷ (bytes "help", bytes "This help screen.")
    ∷ (bytes "quant", bytes "Show some quantiles.")
    ∷ (bytes "tee", bytes "Tee the output to stdout/stderr if spooling.")
    ∷ []

abbrev pub max : ℕ → ℕ → ℕ
max x y = if ltb y x then x else y

abbrev pub longest : Dict Str → ℕ → ℕ
longest [] n = n
longest ((k, text) ∷ m) n = longest m (max n (length k))

abbrev pub text_of : Dict Str → Str → Str
text_of m k = elim (lookup k m) [ none ↦ [] | some text ↦ text ]

-- `%-*s  %s`
abbrev pub help_line : ℕ → Str → Str → Str
help_line n k text = k ++ replicate (n - length k) 32 ++ bytes "  " ++ text ++ bytes "\n"

unfoldable pub say_help : ℕ → List Str → Job Program (Unit {0})
say_help n [] = done tt
say_help n (k ∷ ks) = say (line (help_line n k (text_of help_texts k))) >>> λ _. say_help n ks

unfoldable pub show_help : Command
unfolding say_help
show_help = say (line (bytes "Available commands:\n\n")) >>> λ _.
    say_help (longest help_texts 0) (sort_by str_less (keys help_texts)) >>> λ _.
    say (line (bytes "\n")) >>> λ _. done none

-- `commands`
unfoldable pub commands : CliEnv → Dict (List Str → Command)
unfolding spooldir tee spool clean clear disco abort quant run target summary state connect
    show_help
commands env =
    (bytes "state", λ args. state env)
    ∷ (bytes "run", run env)
    ∷ (bytes "target", target env)
    ∷ (bytes "clear", λ args. clear env.opts)
    ∷ (bytes "clean", λ args. clean env.opts env.elapsed)
    ∷ (bytes "exit", λ args. quit)
    ∷ (bytes "quit", λ args. quit)
    ∷ (bytes "abort", λ args. abort)
    ∷ (bytes "disco", λ args. disco env.opts)
    ∷ (bytes "connect", connect env)
    ∷ (bytes "summary", summary env)
    ∷ (bytes "spool", λ args. spool env.writable)
    ∷ (bytes "spooldir", spooldir env.writable)
    ∷ (bytes "help", λ args. show_help)
    ∷ (bytes "quant", quant env.reals env.parse_quant)
    ∷ (bytes "tee", λ args. tee)
    ∷ []

-- Whether the session goes on, ends, or has ended with the program.
pub data Next : Type 0 where
  goes_on : Next
  leaves : Next
  exited : Next

-- What is made of a command's error.
unfoldable pub after : Str → Option CmdErr → Job Program Next
after cmd none = done goes_on
after cmd (some (plain msg)) =
    say (line (cmd ++ bytes ": " ++ msg ++ bytes "\n")) >>> λ _. done goes_on
after cmd (some (fatal msg)) =
    say (line (cmd ++ bytes ": " ++ msg ++ bytes "\n")) >>> λ _. done leaves
after cmd (some help) = done goes_on
after cmd (some (status code)) =
    say (number (cmd ++ bytes ": Command returned non-zero (%d) exit.\n") (pos code)) >>> λ _.
    done goes_on
after cmd (some exits) = done exited

unfoldable pub run_cli_cmd : CliEnv → Str → List Str → Job Program Next
unfolding commands after
run_cli_cmd env cmd args = elim (lookup cmd (commands env)) [
  | none ↦ say (line (bytes "Unknown command: '" ++ cmd ++ bytes "'.\n")) >>> λ _. done goes_on
  | some c ↦ c args >>> after cmd
]

-- `chunks[0]` and `chunks[1:]`, of the line and of the command of an exec request.
unfoldable pub run_line : CliEnv → Str → Job Program Next
unfolding run_cli_cmd
run_line env text = elim (fields text) [
  | [] ↦ λ p. panic
  | w ∷ ws ↦ run_cli_cmd env (to_lower w) ws
]

-- The loop over the lines that are read; a read that fails gives an empty line. With no more lines
-- it waits.
unfoldable pub cli : CliEnv → List Str → Job Program Next
unfolding run_line
cli env [] = done goes_on
cli env (text ∷ later) =
    if str_eq text []
    then cli env later
    else (run_line env text >>> λ next. elim next [
      | goes_on ↦ cli env later
      | leaves ↦ done leaves
      | exited ↦ done exited
    ])
