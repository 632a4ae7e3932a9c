-- ===== src/Readline/Examples.antt =====
-- readline.go: the theorems at a fresh memory.
use metassh.Base.{◌≡◌, refl, true, Option, none, some, [], ◌∷◌, ◌++◌, Str, bytes, ok}
use metassh.Readline.Memory.{Memory}
use metassh.Readline.Calls.{readline, rl_instream, rl_outstream}
use metassh.Readline.Safe.{Wires, Fresh, SameCells, line_of, remembered, readline_lem, streams_lem}

abbrev empty_memory : Memory
empty_memory = record {
  cells = λ a. none;
  next = 0;
  history = bytes "summary" ∷ [];
  streams = [];
  rl_instream = none;
  rl_outstream = none;
  rl_catch_signals = true;
  rl_catch_sigwinch = true;
}

abbrev typed : Option Str
typed = some (bytes "run uptime")

readline_lem_example :
    (m' : Memory) × (readline typed (bytes "> ") empty_memory ≡ ok (m', line_of typed))
    × SameCells empty_memory m'
    × Fresh m'
    × (m'.history ≡ empty_memory.history ++ remembered typed)
    × (m'.streams ≡ empty_memory.streams)
readline_lem_example = readline_lem typed (bytes "> ") empty_memory (λ a le. refl)

streams_lem_example :
    Wires true
      (bytes "/dev/pts/3")
      (bytes "r")
      (λ m. m.rl_instream)
      empty_memory
      (rl_instream true (bytes "/dev/pts/3") empty_memory)
    × Wires true
        (bytes "/dev/pts/3")
        (bytes "w")
        (λ m. m.rl_outstream)
        empty_memory
        (rl_outstream true (bytes "/dev/pts/3") empty_memory)
streams_lem_example = streams_lem true (bytes "/dev/pts/3") empty_memory (λ a le. refl)
