-- ===== src/Mux/Sockets.antt =====
-- controlmux.go: `NewMux` and `getFd`, by what the system calls answer.
use metassh.Base.{
  ℕ, ◌+◌, ◌<◌, ◌≡◌, ◌≢◌, Bool, true, false, Option, none, some, List, ◌∷◌, ◌++◌, arith,
  if◌then◌else◌, All, Str, bytes, Result, value, failure,
}
use metassh.Base.{without}
use metassh.Mux.Handler.{Mux}

-- What `os.Stat` says of a path: there, or its error, by the kind that `os.IsExist` asks for.
pub data Stat : Type 0 where
  there : Stat
  not_exist : Stat
  exist : Stat
  other : Str → Stat

-- `os.IsExist` of that error, which is nil if the path is there.
abbrev pub is_exist : Stat → Bool
is_exist there = false
is_exist not_exist = false
is_exist exist = true
is_exist (other err) = false

abbrev pub ssh_port : Str
ssh_port = bytes "22"

unfoldable pub sock_name : Str → Str → Str
sock_name control_path me = control_path ++ bytes "/" ++ me ++ bytes "_" ++ ssh_port

-- `NewMux`, with the answers of `os.Stat` and `net.ListenUnix` for a path.
unfoldable pub new_mux : (Str → Stat) → (Str → Option Str) → Str → Str → Result Mux
unfolding sock_name
new_mux stat listen control_path me =
    let name = sock_name control_path me in
    if is_exist (stat name)
    then failure (bytes "Socket " ++ name ++ bytes " already exists.")
    else elim (listen name) [
      | some err ↦ failure (me ++ bytes ": net.Listen failed: " ++ err)
      | none ↦ value (record { sesscounter = 0; listening = true })
    ]

-- The answers to one `getFd`. The buffer for control messages has a fixed size, and all of it is
-- parsed whatever `recvmsg` wrote to it: that fails, or gives a first message and others, each by
-- the rights that it carries. An empty buffer would give none, but this one fails if nothing came.
pub record FdEnv : Type 0 where
  pub file_error : Option Str
  pub recv_error : Option Str
  pub close_error : Option Str
  pub messages : Result (Result (List ℕ) × List (Result (List ℕ)))

-- The descriptors that the process has open, and the next one.
pub record Fds : Type 0 where
  pub open_fds : List ℕ
  pub next_fd : ℕ

-- `conn.File()` opens a duplicate of the connection's descriptor.
abbrev pub duplicate : Fds → Fds
duplicate s = record { open_fds = s.next_fd ∷ s.open_fds; next_fd = s.next_fd + 1 }

-- A descriptor is free also where `Close` has an error.
abbrev pub close_fd : ℕ → Fds → Fds
close_fd f s = record s { open_fds = without f s.open_fds }

-- After `recvmsg`.
unfoldable pub parse_rights : FdEnv → Result (List ℕ)
parse_rights env = elim env.close_error [
  | some err ↦ failure err
  | none ↦ elim env.messages [ failure err ↦ failure err | value msgs ↦ msgs.0 ]
]

unfoldable pub get_fd : FdEnv → Fds → Fds × Result (List ℕ)
unfolding without parse_rights
get_fd env s = elim env.file_error [
  | some err ↦ (s, failure err)
  | none ↦ elim env.recv_error [
    | some err ↦ (duplicate s, failure err)
    | none ↦ (close_fd s.next_fd (duplicate s), parse_rights env)
  ]
]

-- No descriptor above those that were given out is open.
abbrev pub Numbered : Fds → Type 0
Numbered s = All (λ f. f < s.next_fd) s.open_fds

-- The duplicate is left open.
abbrev pub Leaks : FdEnv → Type 0
Leaks env = (env.file_error ≡ none) × (env.recv_error ≢ none)

abbrev pub HasRights : List ℕ → Result (Result (List ℕ) × List (Result (List ℕ))) → Type 0
HasRights fds (failure err) = ⊥
HasRights fds (value (rights, rest)) = rights ≡ value fds

-- As `os.Stat` has no error of the kind that `os.IsExist` asks for, `NewMux` never says that the
-- socket exists: it goes on to listen, and says what comes of that.
pub new_mux_lem :
    (stat : Str → Stat) (listen : Str → Option Str) (control_path me : Str)
    → ((path : Str) → stat path ≢ exist)
    → ((listen (sock_name control_path me) ≡ none)
        → new_mux stat listen control_path me
          ≡ value (record { sesscounter = 0; listening = true }))
      × ((err : Str)
          → listen (sock_name control_path me) ≡ some err
          → new_mux stat listen control_path me
            ≡ failure (me ++ bytes ": net.Listen failed: " ++ err))
unfolding new_mux
new_mux_lem stat listen control_path me never =
    let path = never (sock_name control_path me) in (λ e. ground arith, λ err e. ground arith)
