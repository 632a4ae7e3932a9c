-- ===== src/Cli/Flags.antt =====
-- commands.go: the commands that parse flags, start a program, or report. What pflag makes of the
-- arguments, what the program does, and the times are a `CliEnv`.
use metassh.Base.{
  ℕ, Bool, none, some, List, [], ◌∷◌, ◌++◌, ◌==◌, if◌then◌else◌, length, Str, bytes, join_on, Dict,
  Result, value, failure,
}
use metassh.Store.Methods.{Job, ◌>>>◌, done}
use metassh.Store.Methods
use metassh.Output.Screen.{ℤ, pos}
use metassh.Fleet.Net.{Options}
use metassh.Fleet.Resolve.{Weather}
use metassh.Fleet.Connect.{connect_everywhere}
use metassh.Fleet.Json.{Server, load_blob}
use metassh.Run.Program.{
  Program, line, number, took, timed, run_task, connect_task, on_net, on_state, say, spawn,
}
use metassh.Run.Everywhere.{Runs, run_everywhere}
use metassh.Summary.SortMap.{at_key, sorted_int_keys}
use metassh.Summary.Report.{print_summary}
use metassh.Cli.Quant.{Parsed, with_flags, QuantFlags, Reals}
use metassh.Cli.Commands.{plain, status, exits, Command}

pub record RunFlags : Type 0 where
  pub background : Bool
  pub timeout : ℤ
  pub quiet : Bool

pub record ConnectFlags : Type 0 where
  pub background : Bool
  pub timeout : ℤ

-- How the external program ends: it cannot be started, it exits with a code that is not zero (255
-- if the code is not known), or it exits well. The texts are those of STDERR and STDOUT.
pub data TargetEnd : Type 0 where
  not_started : Str → TargetEnd
  exited : ℕ → Str → TargetEnd
  ended : Str → Str → TargetEnd

pub record CliEnv : Type 1 where
  pub reals : Reals
  pub opts : Options
  pub writable : Str → Bool
  pub parse_run : List Str → Parsed RunFlags
  pub parse_connect : List Str → Parsed ConnectFlags
  pub parse_summary : List Str → Parsed Bool
  pub parse_quant : List Str → Parsed QuantFlags
  pub runs : Str → ℤ → Runs
  pub weather : ℤ → Weather
  pub target_end : List Str → TargetEnd
  pub unmarshal : Str → Result (List Server)
  pub samples : List ℕ → List ℕ
  pub now : ℕ
  pub elapsed : ℕ

unfoldable pub run : CliEnv → List Str → Command
unfolding run_everywhere
run env args = with_flags (env.parse_run args) λ flags rest.
    let cmdline = join_on 32 rest in
    if flags.background
    then (spawn (run_task cmdline flags.timeout flags.quiet) >>> λ _. done none)
    else (run_everywhere (env.runs cmdline flags.timeout) flags.quiet >>> λ _.
        say (took (bytes "Done in %.2fs.\n") env.elapsed) >>> λ _. done none)

unfoldable pub target : CliEnv → List Str → Command
unfolding load_blob
target env args = elim (env.target_end args) [
  | not_started err ↦ done (some (plain err))
  | exited code err_text ↦ say (line err_text) >>> λ _. done (some (status code))
  | ended out_text err_text ↦ say (line err_text) >>> λ _.
      if 0 == length out_text
      then done none
      else (on_state (load_blob (env.unmarshal out_text)) >>> λ loaded. elim loaded [
        | failure err ↦ done (some (plain (bytes "Load JSON from STDOUT: " ++ err)))
        | value n ↦ say (number (bytes "Targeted %d hosts.\n") (pos n)) >>> λ _. done none
      ])
]

unfoldable pub summary : CliEnv → List Str → Command
unfolding print_summary
summary env args =
    with_flags (env.parse_summary args)
      λ verbose rest. print_summary env.samples env.opts.password verbose >>> λ _. done none

unfoldable pub say_states : Dict ℕ → List Str → Job Program (Unit {0})
say_states m [] = done tt
say_states m (st ∷ states) =
    say (number (bytes "\t" ++ st ++ bytes "(%d)\n") (pos (at_key m st))) >>> λ _.
    say_states m states

unfoldable pub state : CliEnv → Command
unfolding say_states sorted_int_keys
state env = on_state (Methods.get_waiter_info env.now) >>> λ wi.
    say (
      timed (bytes "%d connection threads (%.2fs average wait time)\n") wi.conn_waiters
        wi.avg_conn_wait)
    >>> λ _. say_states wi.conn_states (sorted_int_keys wi.conn_states) >>> λ _.
        say (
          timed (bytes "%d run threads (%.2fs average wait time)\n") wi.run_waiters wi.avg_run_wait)
        >>> λ _. say_states wi.run_states (sorted_int_keys wi.run_states) >>> λ _. done none

unfoldable pub connect : CliEnv → List Str → Command
unfolding connect_everywhere
connect env args = with_flags (env.parse_connect args) λ flags rest.
    if flags.background
    then (spawn (connect_task flags.timeout) >>> λ _.
        say (line (bytes "Ok. Use the state command to track connection progress.\n")) >>> λ _.
        done none)
    else (on_net (connect_everywhere env.opts (env.weather flags.timeout)) >>> λ counted.
        elim counted [
          | none ↦ done (some exits)
          | some count ↦
              say (timed (bytes "%d hosts in %.2fs.\n") count env.elapsed) >>> λ _. done none
        ])
