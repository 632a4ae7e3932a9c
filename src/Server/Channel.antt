-- ===== src/Server/Channel.antt =====
-- server.go: `handleChannel`. The requests of a channel are a list, which ends when the client
-- closes it; what a client types in a shell and what the kernel answers come with the request. The
-- end of a readline session is an entry of the list, where its goroutine resets the flag; what that
-- goroutine does before is left out.
use metassh.Base.{
  ℕ, Bool, true, false, not, ◌&&◌, Option, List, [], ◌∷◌, ◌++◌, if◌then◌else◌, Str, bytes, str_eq,
  is_some, ok, ◌>>=◌,
}
use metassh.Store.Methods.{Job, ◌>>>◌, done}
use metassh.Mux.Wire.{pull_uint32}
use metassh.Run.Program.{Program}
use metassh.Cli.Flags.{CliEnv}
use metassh.Cli.Dispatch.{Next, goes_on, leaves, exited, run_line, cli}
use metassh.Server.Dims.{WinSize, win_size, parse_dims, pty_dims}

-- `resized` of a window-change is false if the terminal's size could not be set.
pub data SshRequest : Type 0 where
  exec : List ℕ → SshRequest
  shell : List Str → SshRequest
  pty_req : (payload : List ℕ) (opened resized : Bool) → SshRequest
  window_change : (payload : List ℕ) (resized : Bool) → SshRequest
  other : Str → SshRequest
  -- No request: a readline session, of this channel or of another, ends before the next one.
  session_over : SshRequest

-- What the server does on a channel: it refuses or closes it, sets the size of its terminal,
-- connects the terminal to readline and to the client, and starts a readline session; and the end of
-- a session.
pub data ChannelEvent : Type 0 where
  rejected : Str → ChannelEvent
  closed : ChannelEvent
  sized : WinSize → ChannelEvent
  wired : ChannelEvent
  readline_cli : List Str → ChannelEvent
  readline_over : ChannelEvent

-- `readline_session` is shared by the channels; `program` has the channel's own output.
pub record Desk : Type 0 where
  pub program : Program
  pub readline_session : Bool
  pub has_pty : Bool
  pub events : List ChannelEvent

-- The handler comes to its end, waits in a session for more lines, or the program has ended.
pub data Handled : Type 0 where
  through : Handled
  waits : Handled
  ended : Handled

abbrev pub on_program {ℓ} : {A : Type ℓ} → Job Program A → Job Desk A
on_program job d = job d.program >>= λ r. ok (record d { program = r.0 }, r.1)

abbrev pub log : ChannelEvent → Job Desk (Unit {0})
log ev d = ok (record d { events = d.events ++ (ev ∷ []) }, tt)

abbrev pub log_if : Bool → ChannelEvent → Job Desk (Unit {0})
log_if b ev = if b then log ev else done tt

unfoldable pub handle_exec : CliEnv → List ℕ → Job Desk Next
unfolding run_line
handle_exec env payload d = pull_uint32 payload >>= λ r. on_program (run_line env r.0) d

-- Whether the terminal was opened; if not, the handler returns.
unfoldable pub open_pty : List ℕ → Bool → Bool → Job Desk Bool
open_pty payload opened resized d = pty_dims payload >>= λ dims.
    if opened
    then (log_if resized (sized (win_size dims)) >>> λ _.
          log_if (not d.readline_session) wired >>> λ _. done true)
        (record d { has_pty = true })
    else ok (d, false)

-- Without a terminal there is no file to set the size of, and only a debug message.
unfoldable pub resize_pty : List ℕ → Bool → Job Desk (Unit {0})
resize_pty payload resized d =
    parse_dims payload >>= λ dims. log_if (d.has_pty && resized) (sized (win_size dims)) d

abbrev pub claim_readline : List Str → Job Desk (Unit {0})
claim_readline lines d =
    ok (record d { readline_session = true; events = d.events ++ (readline_cli lines ∷ []) }, tt)

-- The deferred reset at the end of a session.
abbrev pub release_readline : Job Desk (Unit {0})
release_readline d = ok (
  if d.readline_session
      then record d { readline_session = false; events = d.events ++ (readline_over ∷ []) }
      else d,
  tt,
)

abbrev pub after_exec : Job Desk Handled → Next → Job Desk Handled
after_exec rest goes_on = log closed >>> λ _. rest
after_exec rest leaves = log closed >>> λ _. rest
after_exec rest exited = done ended

abbrev pub after_cli : Job Desk Handled → Next → Job Desk Handled
after_cli rest goes_on = done waits
after_cli rest leaves = log closed >>> λ _. rest
after_cli rest exited = done ended

abbrev pub after_pty : Job Desk Handled → Bool → Job Desk Handled
after_pty rest true = rest
after_pty rest false = done through

-- The first session is for readline; the handler goes on beside it. In any other it waits, and the
-- channel is closed at its end.
abbrev pub shell_by : Bool → CliEnv → List Str → Job Desk Handled → Job Desk Handled
shell_by true env lines rest = on_program (cli env lines) >>> after_cli rest
shell_by false env lines rest = claim_readline lines >>> λ _. rest

unfoldable pub handle_shell : CliEnv → List Str → Job Desk Handled → Job Desk Handled
unfolding cli
handle_shell env lines rest d = shell_by d.readline_session env lines rest d

unfoldable pub handle_requests : CliEnv → List SshRequest → Job Desk Handled
unfolding handle_exec handle_shell open_pty resize_pty
handle_requests env [] = done through
handle_requests env (exec payload ∷ reqs) =
    handle_exec env payload >>> after_exec (handle_requests env reqs)
handle_requests env (shell lines ∷ reqs) = handle_shell env lines (handle_requests env reqs)
handle_requests env (pty_req payload opened resized ∷ reqs) =
    open_pty payload opened resized >>> after_pty (handle_requests env reqs)
handle_requests env (window_change payload resized ∷ reqs) =
    resize_pty payload resized >>> λ _. handle_requests env reqs
handle_requests env (other kind ∷ reqs) = handle_requests env reqs
handle_requests env (session_over ∷ reqs) = release_readline >>> λ _. handle_requests env reqs

-- `newChannel.Accept` may fail.
unfoldable pub handle_channel : CliEnv → Str → Option Str → List SshRequest → Job Desk Handled
unfolding handle_requests
handle_channel env kind accept_error reqs =
    if not (str_eq kind (bytes "session"))
    then (log (rejected (bytes "Unknown channel request: '" ++ kind ++ bytes "'")) >>> λ _.
        done through)
    else if is_some accept_error
    then done through
    else handle_requests env reqs
