-- ===== src/Mux/Messages.antt =====
-- controlmux.go: the structures of the protocol, and the parser of a new session's request.
use metassh.Base.{ℕ, ◌+◌, ◌*◌, Bool, Option, none, some, List, ◌∷◌, ◌++◌, Str, Outcome, ok, ◌>>=◌}
use metassh.Mux.Wire.{put_uint32, pull_uint32, pull_string, pull_bool}

abbrev pub mux_msg_hello : ℕ
mux_msg_hello = 0x00000001

abbrev pub mux_c_new_session : ℕ
mux_c_new_session = 0x10000002

abbrev pub mux_c_alive_check : ℕ
mux_c_alive_check = 0x10000004

abbrev pub mux_s_exit_message : ℕ
mux_s_exit_message = 0x80000004

abbrev pub mux_s_alive : ℕ
mux_s_alive = 0x80000005

abbrev pub mux_s_session_opened : ℕ
mux_s_session_opened = 0x80000006

-- `data` is the whole buffer; the connection is the one that the handler is called for.
pub record ControlMsg : Type 0 where
  pub msg_type : ℕ
  pub payload : List ℕ
  pub bytes_read : ℕ

pub record HelloMsg : Type 0 where
  pub msg_type : ℕ
  pub version : ℕ

pub record AliveCheckMsg : Type 0 where
  pub msg_type : ℕ
  pub request_id : ℕ

pub record AliveResponseMsg : Type 0 where
  pub msg_type : ℕ
  pub request_id : ℕ
  pub server_pid : ℕ

pub record SessionOpenedMsg : Type 0 where
  pub msg_type : ℕ
  pub client_req_id : ℕ
  pub session_id : ℕ

pub record ExitMsg : Type 0 where
  pub msg_type : ℕ
  pub session_id : ℕ
  pub exit_code : ℕ

pub record NewSessionMsg : Type 0 where
  pub msg_type : ℕ
  pub request_id : ℕ
  pub reserved : Str
  pub want_tty : Bool
  pub want_x11 : Bool
  pub want_agent : Bool
  pub subsystem : Bool
  pub escape_char : ℕ
  pub terminal_type : Str
  pub command : Str

unfoldable pub parse_new_session : List ℕ → Outcome NewSessionMsg
parse_new_session stream = do
  (s1, msg_type) ← pull_uint32 stream
  (s2, request_id) ← pull_uint32 s1
  (s3, reserved) ← pull_string s2
  (s4, want_tty) ← pull_bool s3
  (s5, want_x11) ← pull_bool s4
  (s6, want_agent) ← pull_bool s5
  (s7, subsystem) ← pull_bool s6
  (s8, escape_char) ← pull_uint32 s7
  (s9, terminal_type) ← pull_string s8
  (s10, command) ← pull_string s9
  ok (record {
    msg_type = msg_type;
    request_id = request_id;
    reserved = reserved;
    want_tty = want_tty;
    want_x11 = want_x11;
    want_agent = want_agent;
    subsystem = subsystem;
    escape_char = escape_char;
    terminal_type = terminal_type;
    command = command;
  })

-- `binary.Read` of a structure of words: `none` is its error on a buffer that is too short.
unfoldable pub read_hello : List ℕ → Option HelloMsg
read_hello (a ∷ b ∷ c ∷ d ∷ e ∷ f ∷ g ∷ h ∷ rest) = some (record {
  msg_type = ((a * 256 + b) * 256 + c) * 256 + d;
  version = ((e * 256 + f) * 256 + g) * 256 + h;
})
read_hello _ = none

unfoldable pub read_alive_check : List ℕ → Option AliveCheckMsg
read_alive_check (a ∷ b ∷ c ∷ d ∷ e ∷ f ∷ g ∷ h ∷ rest) = some (record {
  msg_type = ((a * 256 + b) * 256 + c) * 256 + d;
  request_id = ((e * 256 + f) * 256 + g) * 256 + h;
})
read_alive_check _ = none

-- `binary.Write` of a structure of words, which is what `sendStruct` puts into its buffer.
abbrev pub hello_bytes : HelloMsg → List ℕ
hello_bytes m = put_uint32 m.msg_type ++ put_uint32 m.version

abbrev pub alive_bytes : AliveResponseMsg → List ℕ
alive_bytes m = put_uint32 m.msg_type ++ (put_uint32 m.request_id ++ put_uint32 m.server_pid)

abbrev pub opened_bytes : SessionOpenedMsg → List ℕ
opened_bytes m = put_uint32 m.msg_type ++ (put_uint32 m.client_req_id ++ put_uint32 m.session_id)

abbrev pub exit_bytes : ExitMsg → List ℕ
exit_bytes m = put_uint32 m.msg_type ++ (put_uint32 m.session_id ++ put_uint32 m.exit_code)
