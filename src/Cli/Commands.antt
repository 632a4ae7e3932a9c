-- ===== src/Cli/Commands.antt =====
-- commands.go: the commands that parse no flags. `writable`, the access check of the kernel, is an
-- argument; the goroutines of `clean` run one after another.
use metassh.Base.{
  ℕ, ◌+◌, Bool, true, false, not, ◌&&◌, ◌||◌, Option, none, some, List, [], ◌∷◌, ◌++◌,
  if◌then◌else◌, Str, bytes, ok, value, failure,
}
use metassh.Store.Types.{HostInfo}
use metassh.Store.Methods.{Job, ◌>>>◌, done}
use metassh.Store.Methods
use metassh.Fleet.Net.{Options}
use metassh.Fleet.Disconnect.{disconnect_host, disconnect_everywhere}
use metassh.Run.Program.{Program, line, timed, on_net, on_state, say}

-- The error of a command; a fatal one ends the session. `help` is `pflag.ErrHelp`, `status` the
-- message on a program's exit code, and `exits` says that the command has ended the program.
pub data CmdErr : Type 0 where
  plain : Str → CmdErr
  fatal : Str → CmdErr
  help : CmdErr
  status : ℕ → CmdErr
  exits : CmdErr

abbrev pub Command : Type 0
Command = Job Program (Option CmdErr)

unfoldable pub spooldir : (Str → Bool) → List Str → Command
spooldir writable [] p =
    (say (line (bytes "SpoolDir: " ++ p.spool_dir ++ bytes "\n")) >>> λ _. done none) p
spooldir writable (path ∷ args) p =
    if writable path
    then (say (line (bytes "SpoolDir: " ++ path ++ bytes "\n")) >>> λ _. done none)
        (record p { spool_dir = path })
    else ok (p, some (plain (bytes "ERROR: Directory " ++ path ++ bytes ", not writable.")))

unfoldable pub tee : Command
tee p =
    if p.tee
    then ok (
      record p { tee = false; printed = p.printed ++ (line (bytes "Teeing is now OFF.\n") ∷ []) },
      none,
    )
    else ok (
      record p { tee = true; printed = p.printed ++ (line (bytes "Teeing is now ON.\n") ∷ []) },
      none,
    )

unfoldable pub spool : (Str → Bool) → Command
spool writable p =
    if p.spool
    then ok (
      record p {
        spool = false;
        printed = p.printed ++ (line (bytes "Spooling is now OFF.\n") ∷ []);
      },
      none,
    )
    else if writable p.spool_dir
    then ok (
      record p { spool = true; printed = p.printed ++ (line (bytes "Spooling is now ON.\n") ∷ []) },
      none,
    )
    else ok (p, some (plain (p.spool_dir ++ bytes ": not writable. Spooling OFF.")))

-- `!hi.connectedOK || (!hi.runOK && hi.runOnce)`
abbrev pub unclean : HostInfo → Bool
unclean hi = not hi.connected_ok || (not hi.run_ok && hi.run_once)

-- The goroutine for one host.
unfoldable pub clean_host : Options → Str → HostInfo → Job Program (Unit {0})
unfolding disconnect_host
clean_host opts host hi =
    let closed : Job Program (Unit {0}) =
      if hi.connected_ok then (on_net (disconnect_host opts host) >>> λ _. done tt) else done tt in
    closed >>> λ _. on_state (Methods.delete_host_info host)

unfoldable pub clean_each : Options → List Str → ℕ → Job Program ℕ
unfolding clean_host
clean_each opts [] i = done i
clean_each opts (host ∷ hs) i = on_state (Methods.get_host_info host) >>> λ found.
    elim found as (λ _. Job Program ℕ) [
      | failure err ↦ clean_each opts hs i
      | value hi ↦
          if unclean hi
          then (clean_host opts host hi >>> λ _. clean_each opts hs (i + 1))
          else clean_each opts hs i
    ]

unfoldable pub clean : Options → ℕ → Command
unfolding clean_each
clean opts elapsed = on_state Methods.get_host_keys >>> λ hk. clean_each opts hk 0 >>> λ i.
    say (timed (bytes "Cleaned out %d targets in %.2fs.\n") i elapsed) >>> λ _. done none

unfoldable pub clear : Options → Command
unfolding disconnect_everywhere
clear opts = on_net (disconnect_everywhere opts true) >>> λ _.
    on_state Methods.clear_host_info >>> λ _.
    say (line (bytes "Targets cleared.\n")) >>> λ _. done none

unfoldable pub disco : Options → Command
unfolding disconnect_everywhere
disco opts = on_net (disconnect_everywhere opts true) >>> λ _. done none

abbrev pub quit : Command
quit = done (some (fatal (bytes "byte!\n")))

unfoldable pub abort : Command
abort = on_state Methods.timeout_waiters >>> λ _. done none
