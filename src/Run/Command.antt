-- ===== src/Run/Command.antt =====
-- run.go: `runCmd`, a command on one host. The copies of the command's output are complete when
-- `Wait` returns.
use metassh.Base.{
  ℕ, ◌%◌, ◌^◌, Bool, true, false, not, ◌&&◌, Option, none, some, [], ◌++◌, if◌then◌else◌, Str,
  bytes, ok,
}
use metassh.Store.Types.{state_new_session, state_start_session, state_running, state_done}
use metassh.Store.Methods.{Job, ◌>>>◌, done}
use metassh.Store.Methods
use metassh.Fleet.Proxy.{Arrival, response, organic, aborted}
use metassh.Run.Program.{Program, line, on_state, say}
use metassh.Run.Spool.{SpoolEnv, spool_handles}

-- How `session.Wait` ends.
pub data WaitEnd : Type 0 where
  clean : WaitEnd
  exited : ℕ → Str → WaitEnd
  broken : Str → WaitEnd

pub record RunResponse : Type 0 where
  pub std_out : Str
  pub std_err : Str
  pub exit_code : ℕ
  pub error : Option Str

-- What the SSH library, the files, the remote command and the timer do.
pub record RunEnv : Type 0 where
  pub spool_env : SpoolEnv
  pub session_error : Option Str
  pub stdout_pipe_error : Option Str
  pub stderr_pipe_error : Option Str
  pub start_error : Option Str
  pub wait_end : WaitEnd
  pub ret_write_error : Option Str
  pub written_out : Str
  pub written_err : Str
  pub arrival : Arrival

abbrev pub failed : Str → RunResponse
failed err = record { std_out = []; std_err = []; exit_code = 0; error = some err }

abbrev pub exit_status : WaitEnd → ℕ
exit_status clean = 0
exit_status (exited status err) = status % 2 ^ 32
exit_status (broken err) = 255

abbrev pub wait_error : WaitEnd → Option Str
wait_error clean = none
wait_error (exited status err) = some err
wait_error (broken err) = some err

-- `os.ErrInvalid`, of a write to a nil file.
abbrev pub invalid : Str
invalid = bytes "invalid argument"

abbrev pub spooling_off : Str
spooling_off = bytes "Spooling is turned OFF, correct and re-enable.\n"

-- The files, if output is spooled: whether they are open.
unfoldable pub open_spool : Str → SpoolEnv → Job Program Bool
unfolding spool_handles
open_spool me env p =
    if p.spool
    then (on_state (Methods.get_ptr me) >>> λ host p'.
          let made = spool_handles p'.spool_dir host env in
          elim made.spool_error [
            | some err ↦
                (say (line (bytes "spoolHandles: " ++ err ++ bytes "\n")) >>> λ _.
                say (line spooling_off) >>> λ _ q. ok (record q { spool = false }, false))
                  p'
            | none ↦ ok (p', elim made.handles [ none ↦ false | some h ↦ true ])
          ])
        p
    else ok (p, false)

-- The pipes of a spooled run.
unfoldable pub pipe_error : Bool → RunEnv → Option Str
pipe_error false env = none
pipe_error true env = elim env.stdout_pipe_error [
  | some err ↦ some err
  | none ↦ env.stderr_pipe_error
]

-- What the two buffers hold: nothing of a spooled run that is not teed.
abbrev pub kept : Bool → Bool → Str → Str
kept spooling teeing out = if spooling && not teeing then [] else out

-- The error of the response: that of `Wait`, but for a spooled run that of writing the exit code.
unfoldable pub final_error : Bool → Bool → RunEnv → Option Str
final_error false opened env = wait_error env.wait_end
final_error true false env = some invalid
final_error true true env = env.ret_write_error

-- From `session.Start` on.
unfoldable pub run_started : Str → RunEnv → Bool → Bool → Bool → Job Program RunResponse
unfolding final_error
run_started me env spooling teeing opened =
    on_state (Methods.set_run_wait_state me state_start_session) >>> λ _. elim env.start_error [
      | some err ↦ done (failed err)
      | none ↦ on_state (Methods.set_run_wait_state me state_running) >>> λ _.
          on_state (Methods.set_run_wait_state me state_done) >>> λ _. done (record {
            std_out = kept spooling teeing env.written_out;
            std_err = kept spooling teeing env.written_err;
            exit_code = exit_status env.wait_end;
            error = final_error spooling opened env;
          })
    ]

-- The goroutine that runs the command, up to its response.
unfoldable pub run_session : Str → RunEnv → Job Program RunResponse
unfolding open_spool pipe_error run_started
run_session me env = open_spool me env.spool_env >>> λ opened p. elim env.session_error [
  | some err ↦ ok (p, failed err)
  | none ↦ elim (pipe_error p.spool env) [
    | some err ↦ ok (p, failed err)
    | none ↦ run_started me env p.spool p.tee opened p
  ]
]

abbrev pub run_timed_out : Str
run_timed_out = bytes "Remote run timed out."

abbrev pub run_aborted : Str
run_aborted = bytes "Remote run aborted."

abbrev pub first_of : Arrival → RunResponse → RunResponse
first_of response resp = resp
first_of organic resp = failed run_timed_out
first_of aborted resp = failed run_aborted

-- The response that the requester gets.
unfoldable pub run_cmd : Str → ℕ → ℕ → RunEnv → Job Program RunResponse
unfolding run_session
run_cmd me now timer env =
    on_state (
      Methods.set_run_wait_info (record {
        host_name = me;
        state = state_new_session;
        start_time = now;
        timeout_chan = timer;
      }))
    >>> λ _. run_session me env >>> λ resp.
        on_state (Methods.delete_run_wait_info me) >>> λ _. done (first_of env.arrival resp)
