-- ===== src/Readline/Memory.antt =====
-- readline.go: the memory of C that the wrapper uses. A string of C is the bytes before its first
-- NUL. A free of what is not allocated, and a use of it, have no defined behaviour: a panic here.
use metassh.Base.{
  ℕ, ◌+◌, Option, none, some, List, [], ◌∷◌, ◌++◌, Bool, ◌==◌, if◌then◌else◌, Str, Outcome, ok,
  panic, blocked,
}

-- An open `FILE`, by its address, with the name and the mode that it was opened with.
pub record Stream : Type 0 where
  pub address : ℕ
  pub name : Str
  pub mode : Str

pub record Memory : Type 0 where
  pub cells : ℕ → Option Str
  pub next : ℕ
  pub history : List Str
  pub streams : List Stream
  pub rl_instream : Option ℕ
  pub rl_outstream : Option ℕ
  pub rl_catch_signals : Bool
  pub rl_catch_sigwinch : Bool

abbrev pub set_cell : ℕ → Option Str → (ℕ → Option Str) → ℕ → Option Str
set_cell a o cells b = if a == b then o else cells b

unfoldable pub until_nul : Str → Str
until_nul [] = []
until_nul (c ∷ cs) = if c == 0 then [] else c ∷ until_nul cs

-- `malloc`, and the copy of a string; `C.CString` is one.
abbrev pub allocate : Str → Memory → Memory × ℕ
allocate s m = (record m { cells = set_cell m.next (some s) m.cells; next = m.next + 1 }, m.next)

-- `C.GoString`
unfoldable pub go_string : Option ℕ → Memory → Outcome Str
unfolding until_nul
go_string none m = ok []
go_string (some a) m = elim (m.cells a) [ none ↦ panic | some s ↦ ok (until_nul s) ]

-- `C.free`
unfoldable pub free : Option ℕ → Memory → Outcome Memory
free none m = ok m
free (some a) m = elim (m.cells a) [
  | none ↦ panic
  | some s ↦ ok (record m { cells = set_cell a none m.cells })
]

-- `add_history`, which keeps a copy.
unfoldable pub add_history : Option ℕ → Memory → Outcome Memory
unfolding go_string
add_history none m = panic
add_history (some a) m = elim (go_string (some a) m) [
  | ok line ↦ ok (record m { history = m.history ++ (line ∷ []) })
  | panic ↦ panic
  | blocked ↦ blocked
]
