-- ===== src/Readline/Calls.antt =====
-- readline.go: its functions over that memory, with the deferred frees where a return makes them.
use metassh.Base.{
  ℕ, ◌+◌, Bool, false, Option, none, some, [], ◌∷◌, if◌then◌else◌, Str, bytes, str_eq, Outcome, ok,
  ◌>>=◌, Result, value, failure,
}
use metassh.Readline.Memory.{Memory, allocate, go_string, free, add_history}

-- GNU Readline's `readline`: what is typed comes in a string of its own, and the end of the input
-- is a null pointer.
unfoldable pub rl_readline : Option Str → ℕ → Memory → Outcome (Memory × Option ℕ)
unfolding go_string
rl_readline typed prompt m = go_string (some prompt) m >>= λ shown. elim typed [
  | none ↦ ok (m, none)
  | some line ↦ let (m', a) = allocate line m in ok (m', some a)
]

-- From the second `defer` on: the line, kept in the history if it is not empty.
unfoldable pub take_line : Option ℕ → Memory → Outcome (Memory × Result Str)
unfolding go_string add_history
take_line line_c m = go_string line_c m >>= λ line. elim line_c [
  | none ↦ ok (m, failure (bytes "EOF"))
  | some a ↦
      if str_eq line []
      then ok (m, value line)
      else (add_history (some a) m >>= λ m'. ok (m', value line))
]

unfoldable pub readline : Option Str → Str → Memory → Outcome (Memory × Result Str)
unfolding rl_readline take_line free
readline typed prompt m =
    let quiet = record m { rl_catch_signals = false; rl_catch_sigwinch = false } in
    let (m1, prompt_c) = allocate prompt quiet in
    rl_readline typed prompt_c m1 >>= λ q.
    take_line q.1 q.0 >>= λ r. free q.1 r.0 >>= λ m4. free (some prompt_c) m4 >>= λ m5. ok (m5, r.1)

-- The C library's `fopen`, which may fail.
unfoldable pub c_fopen : Bool → ℕ → ℕ → Memory → Outcome (Memory × Option ℕ)
unfolding go_string
c_fopen opens name_c mode_c m = go_string (some name_c) m >>= λ name.
    go_string (some mode_c) m >>= λ mode.
    if opens
    then ok (
      record m {
        next = m.next + 1;
        streams = record { address = m.next; name = name; mode = mode } ∷ m.streams;
      },
      some m.next,
    )
    else ok (m, none)

unfoldable pub fopen : Bool → Str → Str → Memory → Outcome (Memory × Option ℕ)
unfolding c_fopen free
fopen opens name mode m =
    let (m1, name_c) = allocate name m in
    let (m2, mode_c) = allocate mode m1 in
    c_fopen opens name_c mode_c m2 >>= λ r.
    free (some mode_c) r.0 >>= λ m4. free (some name_c) m4 >>= λ m5. ok (m5, r.1)

abbrev pub fopen_failed : Str
fopen_failed = bytes "fopen returned null"

-- `rlInstream`; the stream that was there before stays open.
unfoldable pub rl_instream : Bool → Str → Memory → Outcome (Memory × Option Str)
unfolding fopen
rl_instream opens name m = fopen opens name (bytes "r") m >>= λ r. elim r.1 [
  | none ↦ ok (r.0, some fopen_failed)
  | some fp ↦ ok (record (r.0) { rl_instream = some fp }, none)
]

-- `rlOutstream`
unfoldable pub rl_outstream : Bool → Str → Memory → Outcome (Memory × Option Str)
unfolding fopen
rl_outstream opens name m = fopen opens name (bytes "w") m >>= λ r. elim r.1 [
  | none ↦ ok (r.0, some fopen_failed)
  | some fp ↦ ok (record (r.0) { rl_outstream = some fp }, none)
]
