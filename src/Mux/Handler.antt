-- ===== src/Mux/Handler.antt =====
-- controlmux.go: `handleControlMaster` and `waiter`, as the actions that they take.
use metassh.Base.{
  ℕ, ◌+◌, ◌%◌, ◌^◌, Bool, false, ◌&&◌, ◌||◌, Option, none, some, List, [], ◌∷◌, ◌++◌, ◌==◌,
  if◌then◌else◌, Str, bytes, str_eq, contains, Outcome, ok, panic, ◌>>=◌,
}
use metassh.Mux.Messages.{
  ControlMsg, SessionOpenedMsg, NewSessionMsg, parse_new_session, read_hello, read_alive_check,
  hello_bytes, alive_bytes, opened_bytes, exit_bytes, mux_msg_hello, mux_c_new_session,
  mux_c_alive_check, mux_s_alive, mux_s_session_opened, mux_s_exit_message,
}

-- The fields of `Mux` that change: the counter, and whether the listener is open.
pub record Mux : Type 0 where
  pub sesscounter : ℕ
  pub listening : Bool

-- What the handler does to the connection, and to the session.
pub data Action : Type 0 where
  reply : List ℕ → Action
  close_conn : Action
  read_again : Action
  close_on_exec : ℕ → Action
  request_pty : Str → ℕ → ℕ → Action
  copy_stdin : ℕ → Action
  copy_stdout : ℕ → Action
  copy_stderr : ℕ → Action
  start : Str → Action
  shell : Action
  wait : ℕ → Action

-- The answers of the SSH library and of the system calls to one request for a session. A failed
-- `getFd` is `none`; the window is (Height, Width).
pub record SessionEnv : Type 0 where
  pub session_ok : Bool
  pub fd_in : Option (List ℕ)
  pub fd_out : Option (List ℕ)
  pub fd_err : Option (List ℕ)
  pub window : Option (ℕ × ℕ)
  pub pty_ok : Bool
  pub stdin_ok : Bool
  pub stdout_ok : Bool
  pub stderr_ok : Bool
  pub start_ok : Bool

-- One round of the loop over `inOutErr`: after a failure the `continue` goes on with this loop,
-- and the descriptor stays 0.
unfoldable pub take_fd : Option (List ℕ) → Outcome (ℕ × List Action)
take_fd none = ok (0, close_conn ∷ [])
take_fd (some []) = panic
take_fd (some (fd ∷ fds)) = ok (fd, close_on_exec fd ∷ [])

abbrev pub needs_stdin : NewSessionMsg → Bool
needs_stdin nsm = nsm.want_tty || (str_eq nsm.command [] || contains nsm.command (bytes "scp -t"))

-- From `session.Start` on.
unfoldable pub launch : NewSessionMsg → SessionEnv → ℕ → List Action
launch nsm env sid =
    (if str_eq nsm.command [] then shell else start nsm.command)
    ∷ (if env.start_ok then wait sid ∷ [] else close_conn ∷ [])

-- From `session.StdinPipe` to the copies.
unfoldable pub connect_pipes : NewSessionMsg → SessionEnv → ℕ → ℕ → ℕ → ℕ → List Action
unfolding launch
connect_pipes nsm env sid fd0 fd1 fd2 =
    if env.stdin_ok && (env.stdout_ok && env.stderr_ok)
    then (if needs_stdin nsm then copy_stdin fd0 ∷ [] else [])
      ++ (copy_stdout fd1 ∷ copy_stderr fd2 ∷ launch nsm env sid)
    else close_conn ∷ []

abbrev pub rows_cols : Option (ℕ × ℕ) → ℕ × ℕ
rows_cols none = (24, 80)
rows_cols (some (h, w)) = (h, w)

-- The terminal, if one is wanted, and the rest.
unfoldable pub setup_session : NewSessionMsg → SessionEnv → ℕ → ℕ → ℕ → ℕ → List Action
unfolding connect_pipes
setup_session nsm env sid fd0 fd1 fd2 =
    let pipes = connect_pipes nsm env sid fd0 fd1 fd2 in
    if nsm.want_tty
    then request_pty nsm.terminal_type (rows_cols env.window).0 (rows_cols env.window).1
      ∷ (if env.pty_ok then pipes else close_conn ∷ [])
    else pipes

-- The loop over the three descriptors, then the session.
unfoldable pub receive_fds : NewSessionMsg → SessionEnv → ℕ → Outcome (List Action)
unfolding take_fd setup_session
receive_fds nsm env sid = do
  (fd0, acts0) ← take_fd env.fd_in
  (fd1, acts1) ← take_fd env.fd_out
  (fd2, acts2) ← take_fd env.fd_err
  ok (acts0 ++ (acts1 ++ (acts2 ++ setup_session nsm env sid fd0 fd1 fd2)))

-- The answer to the client, and the counter's next value.
unfoldable pub grant_session : Mux → NewSessionMsg → SessionEnv → Outcome (Mux × List Action)
unfolding receive_fds
grant_session m nsm env =
    let som : SessionOpenedMsg = record {
      msg_type = mux_s_session_opened;
      client_req_id = nsm.request_id;
      session_id = m.sesscounter;
    } in
    receive_fds nsm env m.sesscounter >>= λ rest.
    ok (record m { sesscounter = (m.sesscounter + 1) % 2 ^ 32 }, reply (opened_bytes som) ∷ rest)

-- The case `MuxCNewSession`.
unfoldable pub new_session : Mux → List ℕ → SessionEnv → Outcome (Mux × List Action)
unfolding parse_new_session grant_session
new_session m payload env = parse_new_session payload >>= λ nsm.
    if env.session_ok then grant_session m nsm env else ok (m, close_conn ∷ [])

-- The case `MuxMsgHello`. `sendStruct` writes to a buffer and reports no error.
unfoldable pub hello : List ℕ → List Action
unfolding read_hello
hello payload = elim (read_hello payload) [
  | none ↦ close_conn ∷ []
  | some hm ↦ reply (hello_bytes hm) ∷ read_again ∷ []
]

-- The case `MuxCAliveCheck`, in the process `pid`.
unfoldable pub alive_check : ℕ → List ℕ → List Action
unfolding read_alive_check
alive_check pid payload = elim (read_alive_check payload) [
  | none ↦ close_conn ∷ []
  | some acm ↦
      reply (
        alive_bytes (record {
          msg_type = mux_s_alive;
          request_id = acm.request_id;
          server_pid = pid % 2 ^ 32;
        }))
      ∷ read_again
      ∷ []
]

unfoldable pub handle_msg : ℕ → Mux → ControlMsg → SessionEnv → Outcome (Mux × List Action)
unfolding hello alive_check new_session
handle_msg pid m msg env =
    let opened = new_session m msg.payload env in
    if msg.msg_type == mux_msg_hello
    then ok (m, hello msg.payload)
    else if msg.msg_type == mux_c_alive_check
    then ok (m, alive_check pid msg.payload)
    else if msg.msg_type == mux_c_new_session
    then opened
    else ok (m, [])

-- What arrives on the channel `cc`.
pub data MuxReq : Type 0 where
  control : ControlMsg → SessionEnv → MuxReq
  kill : MuxReq

-- `handleControlMaster`: it returns at the first `controlKill`, and handles nothing after it.
unfoldable pub handle_control_master : ℕ → List MuxReq → Mux → Outcome (Mux × List Action)
unfolding handle_msg
handle_control_master pid [] m = ok (m, [])
handle_control_master pid (kill ∷ reqs) m = ok (record m { listening = false }, [])
handle_control_master pid (control msg env ∷ reqs) m = handle_msg pid m msg env >>= λ r.
    handle_control_master pid reqs r.0 >>= λ r'. ok (r'.0, r.1 ++ r'.1)

-- What `session.Wait` returns.
pub data WaitResult : Type 0 where
  clean : WaitResult
  exit_error : ℕ → WaitResult
  other_error : WaitResult

unfoldable pub exit_code_of : WaitResult → ℕ
exit_code_of clean = 0
exit_code_of (exit_error status) = status % 2 ^ 32
exit_code_of other_error = 255

unfoldable pub waiter : WaitResult → ℕ → List Action
unfolding exit_code_of
waiter res sid =
    reply (
      exit_bytes
        (record { msg_type = mux_s_exit_message; session_id = sid; exit_code = exit_code_of res }))
    ∷ close_conn
    ∷ []
