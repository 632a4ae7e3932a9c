-- ===== src/Output/Screen.antt =====
-- output.go: `Output` and its methods. The serializer prints each request before the next, so what
-- was printed is a list; texts are taken after `fmt.Sprintf`.
use metassh.Base.{
  ℕ, ◌+◌, ◌-◌, Bool, true, false, Option, List, [], ◌∷◌, ◌++◌, leb, ◌==◌, if◌then◌else◌, take, Str,
  Outcome, ok, blocked,
}

pub data Fd : Type 0 where
  std_out : Fd
  std_err : Fd

pub record Output : Type 0 where
  pub add_cr : Bool
  pub mute : Bool
  pub debug_on : Bool
  pub shown : List (Fd × Str)

-- An `int`, which may be negative.
pub data ℤ : Type 0 where
  pos : ℕ → ℤ
  negsuc : ℕ → ℤ

abbrev pub minus : ℕ → ℕ → ℤ
minus m n = if leb n m then pos (m - n) else negsuc (n - m - 1)

-- `nlRegex.ReplaceAll(p, []byte("\n\r"))`
unfoldable pub munge : Str → Str
munge [] = []
munge (c ∷ cs) = if c == 10 then 10 ∷ 13 ∷ munge cs else c ∷ munge cs

-- `len(nlRegex.FindAll(p, -1))`
unfoldable pub newlines : Str → ℕ
newlines [] = 0
newlines (c ∷ cs) = if c == 10 then newlines cs + 1 else newlines cs

abbrev pub sent : Output → Str → Str
sent o p = if o.add_cr then munge p else p

-- `Write`, with what the writer below says of a text: how many bytes it took, and its error. It
-- does not look at `mute`.
unfoldable pub write : (Str → ℕ × Option Str) → Str → Output → Output × (ℤ × Option Str)
unfolding munge newlines
write sink p o =
    let (n, err) = sink (sent o p) in
    let n_matches = if o.add_cr then newlines p else 0 in
    (record o { shown = o.shown ++ ((std_out, take n (sent o p)) ∷ []) }, (minus n n_matches, err))

-- `doOutput`: the response is waited for even if nothing was sent.
unfoldable pub do_output : Fd → Str → Output → Outcome Output
unfolding munge
do_output fd out o =
    if o.mute then blocked else ok (record o { shown = o.shown ++ ((fd, sent o out) ∷ []) })

unfoldable pub err_out : Str → Output → Outcome Output
unfolding do_output
err_out = do_output std_err

unfoldable pub out : Str → Output → Outcome Output
unfolding do_output
out = do_output std_out

unfoldable pub debug : Str → Output → Outcome Output
unfolding do_output
debug text o = if o.debug_on then do_output std_err text o else ok o

abbrev pub enable_debug : Output → Output
enable_debug o = record o { debug_on = true }

abbrev pub disable_debug : Output → Output
disable_debug o = record o { debug_on = false }

abbrev pub mute_output : Output → Output
mute_output o = record o { mute = true }

abbrev pub unmute : Output → Output
unmute o = record o { mute = false }

-- `NewOutput(o.DupeOuput())`, whose debug flag and CR flag are those of `o`.
abbrev pub dupe : Output → Output
dupe o = record { add_cr = o.add_cr; mute = false; debug_on = o.debug_on; shown = o.shown }
