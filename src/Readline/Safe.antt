-- ===== src/Readline/Safe.antt =====
-- readline.go: what the wrapper leaves in the memory of C.
use metassh.Base.{
  ℕ, ◌+◌, ◌≤◌, ◌≡◌, refl, sym, inl, inr, Bool, true, false, Option, none, some, List, [], ◌∷◌, ◌++◌,
  arith, if◌then◌else◌, Bool-cases, Str, bytes, str_eq, Outcome, ok, Result, value, failure,
}
use mathlib.Core.List.{append-nil}
use metassh.Readline.Memory.{Stream, Memory, set_cell, until_nul, go_string, free, add_history}
use metassh.Readline.Calls.{
  rl_readline, take_line, readline, c_fopen, fopen, fopen_failed, rl_instream, rl_outstream,
}

-- No address is allocated that was not given out.
abbrev pub Fresh : Memory → Type 0
Fresh m = (a : ℕ) → m.next ≤ a → m.cells a ≡ none

-- What the caller of `readline` gets.
abbrev pub line_of : Option Str → Result Str
line_of none = failure (bytes "EOF")
line_of (some typed) = value (until_nul typed)

abbrev pub remembered : Option Str → List Str
remembered none = []
remembered (some typed) = if str_eq (until_nul typed) [] then [] else until_nul typed ∷ []

abbrev pub SameCells : Memory → Memory → Type 0
SameCells m m' = (a : ℕ) → m'.cells a ≡ m.cells a

-- The memory after a line, of which the two strings are gone.
abbrev after_line : Str → Str → List Str → Memory → Memory
after_line prompt typed history m =
    let n = m.next in
    record m {
      cells = set_cell n none (
          set_cell (n + 1) none (set_cell (n + 1) (some typed) (set_cell n (some prompt) m.cells)));
      next = n + 1 + 1;
      history = history;
      rl_catch_signals = false;
      rl_catch_sigwinch = false;
    }

after_line_cells :
    (prompt typed : Str) (history : List Str) (m : Memory)
    → Fresh m
    → SameCells m (after_line prompt typed history m) × Fresh (after_line prompt typed history m)
after_line_cells prompt typed history m fresh =
    (λ a. ground (arith, fresh m.next, fresh (m.next + 1)), λ a le. ground (arith, fresh a))

-- `readline` comes back, whatever is typed, with the line up to a NUL or with EOF. It frees both
-- strings, keeps the line in the history exactly if it is not empty, and leaves the streams alone.
pub readline_lem :
    (typed : Option Str) (prompt : Str) (m : Memory)
    → Fresh m
    → (m' : Memory) × (readline typed prompt m ≡ ok (m', line_of typed))
      × SameCells m m'
      × Fresh m'
      × (m'.history ≡ m.history ++ remembered typed)
      × (m'.streams ≡ m.streams)
unfolding readline rl_readline take_line go_string free add_history
readline_lem none prompt m fresh =
    let n = m.next in
    (
      record m {
        cells = set_cell n none (set_cell n (some prompt) m.cells);
        next = n + 1;
        rl_catch_signals = false;
        rl_catch_sigwinch = false;
      },
      ground arith,
      λ a. ground (arith, fresh n),
      λ a le. ground (arith, fresh a),
      sym (append-nil m.history),
      refl,
    )
readline_lem (some typed) prompt m fresh = elim (Bool-cases (str_eq (until_nul typed) [])) [
  | inl blank ↦
      let (same, fresh') = after_line_cells prompt typed m.history m fresh in
      (
        after_line prompt typed m.history m,
        ground arith,
        same,
        fresh',
        rw blank (sym (append-nil m.history)),
        refl,
      )
  | inr more ↦
      let history = m.history ++ (until_nul typed ∷ []) in
      let (same, fresh') = after_line_cells prompt typed history m fresh in
      (after_line prompt typed history m, ground arith, same, fresh', rw more refl, refl)
]

-- The file that a session's terminal is opened as.
abbrev pub stream_at : ℕ → Str → Str → Stream
stream_at a name mode = record { address = a; name = until_nul name; mode = until_nul mode }

-- What an `fopen` leaves: both strings are gone, and a stream is new if it went well.
record Opened (opens : Bool) (name mode : Str) (m m' : Memory) : Type 0 where
  same : SameCells m m'
  unused : Fresh m'
  history : m'.history ≡ m.history
  streams :
      m'.streams ≡ (if opens then stream_at (m.next + 1 + 1) name mode ∷ m.streams else m.streams)
  ins : m'.rl_instream ≡ m.rl_instream
  outs : m'.rl_outstream ≡ m.rl_outstream

fopen_lem :
    (opens : Bool) (name mode : Str) (m : Memory)
    → Fresh m
    → (m' : Memory) × (fopen opens name mode m
        ≡ ok (m', if opens then some (m.next + 1 + 1) else none))
      × Opened opens name mode m m'
unfolding fopen c_fopen go_string free
fopen_lem false name mode m fresh =
    let n = m.next in
    (
      record m {
        cells =
            set_cell n none (
              set_cell (n + 1) none
                (set_cell (n + 1) (some mode) (set_cell n (some name) m.cells)));
        next = n + 1 + 1;
      },
      ground arith,
      record {
        same = λ a. ground (arith, fresh m.next, fresh (m.next + 1));
        unused = λ a le. ground (arith, fresh a);
        history = refl;
        streams = refl;
        ins = refl;
        outs = refl;
      },
    )
fopen_lem true name mode m fresh =
    let n = m.next in
    (
      record m {
        cells =
            set_cell n none (
              set_cell (n + 1) none
                (set_cell (n + 1) (some mode) (set_cell n (some name) m.cells)));
        next = n + 1 + 1 + 1;
        streams = stream_at (n + 1 + 1) name mode ∷ m.streams;
      },
      ground arith,
      record {
        same = λ a. ground (arith, fresh m.next, fresh (m.next + 1));
        unused = λ a le. ground (arith, fresh a);
        history = refl;
        streams = refl;
        ins = refl;
        outs = refl;
      },
    )

-- What one of the streams of GNU Readline is set to, and the stream that is open beside all that
-- were open before: none is ever closed.
abbrev pub Wires :
    Bool → Str → Str → (Memory → Option ℕ) → Memory → Outcome (Memory × Option Str) → Type 0
Wires opens name mode end m out =
    (m' : Memory) × (out ≡ ok (m', if opens then none else some fopen_failed))
    × SameCells m m'
    × Fresh m'
    × (m'.streams ≡ (if opens then stream_at (m.next + 1 + 1) name mode ∷ m.streams else m.streams))
    × (end m' ≡ (if opens then some (m.next + 1 + 1) else end m))

-- `rlInstream` and `rlOutstream` free their strings, open the file whose name is that of the
-- terminal up to a NUL, and make it the stream of GNU Readline, or report that it does not open;
-- every stream that was open stays open, the one that is replaced too.
pub streams_lem :
    (opens : Bool) (name : Str) (m : Memory)
    → Fresh m
    → Wires opens name (bytes "r") (λ m'. m'.rl_instream) m (rl_instream opens name m)
      × Wires opens name (bytes "w") (λ m'. m'.rl_outstream) m (rl_outstream opens name m)
unfolding rl_instream rl_outstream
streams_lem false name m fresh =
    let (m1, e, p) = fopen_lem false name (bytes "r") m fresh in
    let (m2, f, q) = fopen_lem false name (bytes "w") m fresh in
    (
      (m1, rw e refl, p.same, p.unused, p.streams, p.ins),
      (m2, rw f refl, q.same, q.unused, q.streams, q.outs),
    )
streams_lem true name m fresh =
    let (m1, e, p) = fopen_lem true name (bytes "r") m fresh in
    let (m2, f, q) = fopen_lem true name (bytes "w") m fresh in
    (
      (
        record m1 { rl_instream = some (m.next + 1 + 1) },
        rw e refl,
        p.same,
        p.unused,
        p.streams,
        refl,
      ),
      (
        record m2 { rl_outstream = some (m.next + 1 + 1) },
        rw f refl,
        q.same,
        q.unused,
        q.streams,
        refl,
      ),
    )
