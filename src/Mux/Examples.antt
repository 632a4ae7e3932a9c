-- ===== src/Mux/Examples.antt =====
-- controlmux.go: the theorems at messages of one client.
use metassh.Base.{
  ℕ, ◌+◌, ◌≤◌, ◌<◌, ◌≡◌, refl, ◌↔◌, true, false, none, some, List, [], ◌∷◌, ◌++◌, arith, length,
  bytes, str_eq, contains, ok, panic, failure,
}
use metassh.Mux.Lifetime.{
  Reader, reading, holding, uncalled, asking, returned, Master, set_at, accept, reads, call_close,
  close, Reach, here, next, made, Stranded, Close-Stranded,
}
use metassh.Mux.Sockets.{FdEnv, Fds}
use metassh.Mux.Wire.{
  put_uint32, uint32, push_string, push_bool, pull_uint32, pull_string, pull_bool, cut_string,
}
use metassh.Mux.Messages.{
  ControlMsg, NewSessionMsg, parse_new_session, mux_c_new_session, mux_c_alive_check,
}
use metassh.Mux.RoundTrip.{
  Fits, new_session_bytes, parse_new_session-bytes, parse_new_session_takes,
}
use metassh.Mux.Frames.{got, read_msg, send_msg, read_msg-send_msg, read_msg-eq-panic}
use metassh.Mux.Handler.{
  handle_msg, Mux, Action, reply, close_on_exec, copy_stdout, copy_stderr, start, wait, SessionEnv,
  new_session,
}
use metassh.Mux.Disposal.{is_known, handle_msg-settles}
use metassh.Mux.Sessions.{settles, Numbered, new_session-Numbered}

abbrev uptime : NewSessionMsg
uptime = record {
  msg_type = mux_c_new_session;
  request_id = 2;
  reserved = [];
  want_tty = false;
  want_x11 = false;
  want_agent = false;
  subsystem = false;
  escape_char = 126;
  terminal_type = bytes "xterm";
  command = bytes "uptime";
}

uptime-Fits : Fits uptime
uptime-Fits = omega arith

parse_new_session-bytes_example : parse_new_session (new_session_bytes uptime (9 ∷ [])) ≡ ok uptime
parse_new_session-bytes_example = parse_new_session-bytes uptime (9 ∷ []) uptime-Fits

parse_new_session_takes_example : 40 + 0 + 5 + 6 ≤ length (new_session_bytes uptime (9 ∷ []))
parse_new_session_takes_example =
    parse_new_session_takes (new_session_bytes uptime (9 ∷ [])) uptime
      (parse_new_session-bytes uptime (9 ∷ []) uptime-Fits)

abbrev hello_body : List ℕ
hello_body = 0 ∷ 0 ∷ 0 ∷ 1 ∷ 0 ∷ 0 ∷ 0 ∷ 4 ∷ []

abbrev hello_msg : ControlMsg
hello_msg = record { msg_type = 1; payload = hello_body; bytes_read = 8 }

read_msg-send_msg_example :
    read_msg (got (send_msg hello_body).0) (λ _. got (send_msg hello_body).1) ≡ ok (some hello_msg)
unfolding uint32
read_msg-send_msg_example = read_msg-send_msg hello_body 1 (omega arith) refl

read_msg-eq-panic_example :
    (read_msg (got (0 ∷ 0 ∷ 0 ∷ 3 ∷ [])) (λ n. got (7 ∷ [])) ≡ panic) ↔ (3 < 4)
read_msg-eq-panic_example = read_msg-eq-panic 0 0 0 3 (λ n. got (7 ∷ [])) (7 ∷ []) refl

abbrev counting : Mux
counting = record { sesscounter = 4; listening = true }

abbrev willing : SessionEnv
willing = record {
  session_ok = true;
  fd_in = some (3 ∷ []);
  fd_out = some (4 ∷ []);
  fd_err = some (5 ∷ []);
  window = none;
  pty_ok = true;
  stdin_ok = true;
  stdout_ok = true;
  stderr_ok = true;
  start_ok = true;
}

abbrev alive_msg : ControlMsg
alive_msg = record {
  msg_type = mux_c_alive_check;
  payload = 16 ∷ 0 ∷ 0 ∷ 4 ∷ 0 ∷ 0 ∷ 0 ∷ 6 ∷ [];
  bytes_read = 8;
}

abbrev uptime_actions : List Action
uptime_actions =
    reply (put_uint32 0x80000006 ++ (put_uint32 2 ++ put_uint32 4))
    ∷ close_on_exec 3
    ∷ close_on_exec 4
    ∷ close_on_exec 5
    ∷ copy_stdout 4
    ∷ copy_stderr 5
    ∷ start (bytes "uptime")
    ∷ wait 4
    ∷ []

new_session-Numbered_example :
    Numbered true 2 4 (record counting { sesscounter = 5 }) uptime_actions
unfolding new_session put_uint32 push_string push_bool contains str_eq pull_uint32 pull_string
    pull_bool cut_string
new_session-Numbered_example =
    new_session-Numbered counting (record counting { sesscounter = 5 })
      (new_session_bytes uptime []) willing uptime uptime_actions
      (parse_new_session-bytes uptime [] uptime-Fits) refl

-- A request to stop, which the handler has no case for.
abbrev stop_msg : ControlMsg
stop_msg = record { msg_type = 0x10000009; payload = 16 ∷ 0 ∷ 0 ∷ 9 ∷ []; bytes_read = 4 }

handle_msg-settles_example : settles [] ≡ is_known stop_msg.msg_type
unfolding handle_msg
handle_msg-settles_example = handle_msg-settles 77 counting counting stop_msg willing [] refl

-- The message of four bytes that a client sends before the Mux is closed.
abbrev early : ControlMsg
early = record { msg_type = 1; payload = 0 ∷ 0 ∷ 0 ∷ 1 ∷ []; bytes_read = 4 }

read_early : read_msg (got (0 ∷ 0 ∷ 0 ∷ 4 ∷ [])) (λ n. got (0 ∷ 0 ∷ 0 ∷ 1 ∷ [])) ≡ ok (some early)
unfolding read_msg
read_early = refl

abbrev fresh_mux : Mux
fresh_mux = record { sesscounter = 0; listening = true }

abbrev held : Master
held = record (made fresh_mux) {
  readers = set_at 0 (holding early) (set_at 0 reading (λ i. Reader.over));
  accepted = 1;
}

abbrev closed : Master
closed = record held {
  mux = record fresh_mux { listening = false };
  handling = false;
  closers = set_at 0 returned (set_at 0 asking (λ k. uncalled));
}

to_held : Reach 7 (made fresh_mux) held
to_held = next (next here (accept refl refl refl)) (
    reads 0 (got (0 ∷ 0 ∷ 0 ∷ 4 ∷ [])) (λ n. got (0 ∷ 0 ∷ 0 ∷ 1 ∷ [])) (some early) refl read_early
      refl)

to_closed : Reach 7 (made fresh_mux) closed
to_closed = next (next to_held (call_close 0 refl refl)) (close 0 refl refl refl)

Close-Stranded_example : (closed.mux.listening ≡ false) × Stranded closed closed
Close-Stranded_example = Close-Stranded 7 fresh_mux 0 to_closed refl here

abbrev broken_recv : FdEnv
broken_recv = record {
  file_error = none;
  recv_error = some (bytes "bad file descriptor");
  close_error = none;
  messages = failure (bytes "invalid argument");
}

abbrev three_open : Fds
three_open = record { open_fds = 2 ∷ 1 ∷ 0 ∷ []; next_fd = 3 }
