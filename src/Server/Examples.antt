-- ===== src/Server/Examples.antt =====
-- server.go: the theorems at concrete inputs.
use metassh.Base.{
  ℕ, ◌≡◌, refl, true, false, none, List, [], ◌∷◌, ◌++◌, arith, replicate, Str, bytes, ok, value,
}
use metassh.Output.Screen.{Output}
use metassh.Mux.Wire.{put_uint32}
use metassh.Run.Program.{line}
use metassh.Cli.Samples.{before}
use metassh.Server.Dims.{Dims, WinSize, parse_dims, pty_dims, pty_payload}
use metassh.Server.Windows.{Kernel, no_size, set_win_size, get_win_size, get_win_size-set_win_size}
use metassh.Server.Accept.{Arrived, no_handshake, client}
use metassh.Server.Channel.{
  SshRequest, session_over, readline_over, shell, pty_req, window_change, Desk, sized, wired,
  closed, readline_cli,
}
use metassh.Server.Sessions.{Lobby, lobby, turn, Reach, count_readline, Reach-together}

-- A kernel that takes every size.
abbrev plain_kernel : Kernel WinSize
plain_kernel = record { put_size = λ ws tty. (0, ws); read_size = λ buf tty. (0, tty) }

abbrev unformatted : Str → ℕ → Str
unformatted format n = format

get_win_size-set_win_size_example :
    (dims : Dims) × (tty : WinSize) × (pty_dims (pty_payload (bytes "xterm") 80 65560 (0 ∷ []))
      ≡ ok dims)
    × (set_win_size unformatted plain_kernel dims no_size ≡ (tty, value tt))
    × (get_win_size unformatted plain_kernel tty ≡ (record { height = 24; width = 80 }, none))
get_win_size-set_win_size_example =
    get_win_size-set_win_size unformatted plain_kernel (bytes "xterm") 80 65560 (0 ∷ []) no_size
      (λ ws buf tty e. refl) (omega arith) (omega arith) (omega arith) refl

-- A name of 252 bytes: the rows are read from the name's length and the name.
abbrev long_name : Str
long_name = replicate 252 b'x'

pty_wraps : pty_dims (pty_payload long_name 80 24 []) ≡ ok (252, 2021161080)
unfolding pty_dims pty_payload parse_dims
pty_wraps = refl

abbrev muted : Output
muted = record { add_cr = false; mute = true; debug_on = false; shown = [] }

abbrev visits : List Arrived
visits = client (bytes "a") ∷ no_handshake (bytes "EOF") ∷ client (bytes "b") ∷ []

Reach-together_example : (s : Lobby) × (Reach turn (lobby 3) s) × (count_readline s.phases ≡ 3)
Reach-together_example = Reach-together 2

abbrev counter : Desk
counter = record { program = before; readline_session = false; has_pty = false; events = [] }

abbrev asked : List SshRequest
asked =
    pty_req (pty_payload (bytes "vt100") 80 24 []) true true
    ∷ shell (bytes "help" ∷ [])
    ∷ window_change (put_uint32 90 ++ put_uint32 30) true
    ∷ shell (bytes "quit" ∷ [])
    ∷ session_over
    ∷ shell (bytes "tee" ∷ [])
    ∷ []

abbrev answered : Desk
answered = record {
  program = record before { printed = line (bytes "quit: byte!\n\n") ∷ [] };
  readline_session = true;
  has_pty = true;
  events =
      sized (record { height = 24; width = 80 })
      ∷ wired
      ∷ readline_cli (bytes "help" ∷ [])
      ∷ sized (record { height = 30; width = 90 })
      ∷ closed
      ∷ readline_over
      ∷ readline_cli (bytes "tee" ∷ [])
      ∷ [];
}
