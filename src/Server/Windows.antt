-- ===== src/Server/Windows.antt =====
-- server.go: the size of a terminal, as the kernel keeps it. The state of the terminal and the two
-- `ioctl` calls are the kernel's; `sprintf` is the format package's.
use metassh.Base.{
  ℕ, ◌%◌, ◌^◌, ◌<◌, ◌≡◌, refl, Option, none, some, List, ◌==◌, if◌then◌else◌, length, Str, bytes,
  ok, Result, value, failure,
}
use metassh.Mux.Wire.{IsU32}
use metassh.Server.Dims.{Dims, WinSize, win_size, pty_dims, pty_payload, pty_dims-pty_payload}

-- TIOCSWINSZ, and TIOCGWINSZ on a buffer: the error number, and what is there then.
pub record Kernel (Tty : Type 0) : Type 0 where
  pub put_size : WinSize → Tty → ℕ × Tty
  pub read_size : WinSize → Tty → ℕ × WinSize

-- `new(winSize)`
abbrev pub no_size : WinSize
no_size = record { height = 0; width = 0 }

module _ {Tty : Type 0} (sprintf : Str → ℕ → Str) (kernel : Kernel Tty) where
  abbrev pub ioctl_error : ℕ → Str
  ioctl_error errno = sprintf (bytes "SYS_IOCTL failed with code: %d") errno

  unfoldable pub set_win_size : Dims → Tty → Tty × Result (Unit {0})
  set_win_size dims tty =
      let (errno, tty') = kernel.put_size (win_size dims) tty in
      (tty', if errno == 0 then value tt else failure (ioctl_error errno))

  -- The size comes with the error.
  unfoldable pub get_win_size : Tty → WinSize × Option Str
  get_win_size tty =
      let (errno, ws) = kernel.read_size no_size tty in
      (ws, if errno == 0 then none else some (ioctl_error errno))

-- A size that was set is read, whatever is in the buffer.
abbrev pub Keeps : {Tty : Type 0} → Kernel Tty → Type 0
Keeps {Tty} kernel =
    (ws buf : WinSize) (tty : Tty)
    → (kernel.put_size ws tty).0 ≡ 0
    → kernel.read_size buf (kernel.put_size ws tty).1 ≡ (0, ws)

-- The size that a client names for its terminal is the one that the terminal has then, modulo
-- 2 ^ 16, if the terminal's name is shorter than 252 bytes and the kernel takes and keeps sizes.
pub get_win_size-set_win_size :
    {Tty : Type 0} (sprintf : Str → ℕ → Str) (kernel : Kernel Tty) (term : Str) (w h : ℕ)
    (rest : List ℕ) (tty : Tty)
    → Keeps kernel
    → length term < 252
    → IsU32 w
    → IsU32 h
    → (kernel.put_size (win_size (w, h)) tty).0 ≡ 0
    → (dims : Dims) × (tty' : Tty) × (pty_dims (pty_payload term w h rest) ≡ ok dims)
      × (set_win_size sprintf kernel dims tty ≡ (tty', value tt))
      × (get_win_size sprintf kernel tty'
          ≡ (record { height = h % 2 ^ 16; width = w % 2 ^ 16 }, none))
unfolding set_win_size get_win_size
get_win_size-set_win_size sprintf kernel term w h rest tty keeps short hw hh taken = (
  (w, h),
  (kernel.put_size (win_size (w, h)) tty).1,
  pty_dims-pty_payload term w h rest short hw hh,
  rw taken refl,
  rw (keeps (win_size (w, h)) no_size tty taken) refl,
)
