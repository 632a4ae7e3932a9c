-- ===== src/Cli/Session.antt =====
-- commands.go: when the loop of `cli` ends.
use metassh.Base.{
  ℕ, ◌≡◌, refl, sym, ap, ◌∙◌, ◌≢◌, inl, inr, Bool, true, false, ◌||◌, List, [], ◌∷◌, All, Str,
  str_eq, str_eq_cases, fields, to_lower, Outcome, ok, panic, ◌>>=◌, bind-ok, ok_injective,
}
use metassh.Base.{is_space, fields_blank}
use metassh.Store.Methods.{Job, done}
use metassh.Run.Program.{Program}
use metassh.Cli.Flags.{CliEnv}
use metassh.Cli.Dispatch.{Next, goes_on, leaves, exited, run_cli_cmd, run_line, cli}
use metassh.Cli.Quits.{is_quit, left, run_cli_cmd-left}

-- The line is the command `exit` or `quit`, in any case, with any arguments.
abbrev quits_words : List Str → Bool
quits_words [] = false
quits_words (w ∷ ws) = is_quit (to_lower w)

abbrev pub quits : Str → Bool
quits text = quits_words (fields text)

abbrev pub any_quits : List Str → Bool
any_quits [] = false
any_quits (text ∷ later) = quits text || any_quits later

abbrev words_job : CliEnv → List Str → Job Program Next
words_job env l = elim l [ [] ↦ λ p. panic | w ∷ ws ↦ run_cli_cmd env (to_lower w) ws ]

words_job-left :
    (env : CliEnv) (l : List Str) (p p' : Program) (next : Next)
    → words_job env l p ≡ ok (p', next)
    → left next ≡ quits_words l
words_job-left env [] p p' next e = cc
words_job-left env (w ∷ ws) p p' next e = run_cli_cmd-left env (to_lower w) ws p p' next e

-- A line that returns.
run_line-left :
    (env : CliEnv) (text : Str) (p p' : Program) (next : Next)
    → run_line env text p ≡ ok (p', next)
    → left next ≡ quits text
unfolding run_line
run_line-left env text p p' next e = words_job-left env (fields text) p p' next e

-- What the session does from a line on, if it does `rest` from the next.
abbrev onward : Job Program Next → Next → Job Program Next
onward rest goes_on = rest
onward rest leaves = done leaves
onward rest exited = done exited

onward-left :
    (rest : Job Program Next) (here next : Next) (p p' : Program) (b : Bool)
    → (rest p ≡ ok (p', next) → left next ≡ b)
    → onward rest here p ≡ ok (p', next)
    → next ≢ exited
    → left next ≡ left here || b
onward-left rest goes_on next p p' b h e n = h e
onward-left rest leaves next p p' b h e n =
    sym (ap (λ (x : Program × Next). left x.1) (ok_injective e))
onward-left rest exited next p p' b h e n =
    absurd (n (sym (ap (λ (x : Program × Next). x.1) (ok_injective e))))

onward_lem :
    (rest : Job Program Next) (here : Next)
    → (elim here as (λ _. Job Program Next) [
      | goes_on ↦ rest
      | leaves ↦ done leaves
      | exited ↦ done exited
    ])
      ≡ onward rest here
onward_lem rest goes_on = refl
onward_lem rest leaves = refl
onward_lem rest exited = refl

-- A session whose program is not ended by a command (`connect` does, where it cannot resolve the
-- proxies) leaves exactly if one of the lines is `exit` or `quit`.
pub cli-left :
    (env : CliEnv) (lines : List Str) (p p' : Program) (next : Next)
    → cli env lines p ≡ ok (p', next)
    → next ≢ exited
    → left next ≡ any_quits lines
unfolding cli
cli-left env [] p p' next e n = ap (λ (x : Program × Next). left x.1) (sym (ok_injective e))
cli-left env (text ∷ later) p p' next e n = elim (str_eq_cases text []) [
  | inl (blank, same) ↦
      rw (same, fields_blank [] tt) (cli-left env later p p' next (rw (blank, cli) at e) n)
  | inr (some_text, _) ↦
      let ((p1, here), q, e1) = bind-ok (run_line env text p) _ (rw (some_text, cli) at e) in
      rw (← run_line-left env text p p1 here q) (
        onward-left (cli env later) here next p1 p' (any_quits later)
          (λ e2. cli-left env later p1 p' next e2 n)
          (ap (λ (job : Job Program Next). job p1) (sym (onward_lem (cli env later) here)) ∙ e1) n)
]

pub run_line_blank :
    (env : CliEnv) (text : Str) (p : Program)
    → All (λ c. is_space c ≡ true) text
    → run_line env text p ≡ panic
unfolding run_line
run_line_blank env text p blank = ap (λ (l : List Str). words_job env l p) (fields_blank text blank)

-- A line of spaces only, at least one, ends the program with a panic.
pub cli-blank :
    (env : CliEnv) (space : ℕ) (text : Str) (later : List Str) (p : Program)
    → All (λ c. is_space c ≡ true) (space ∷ text)
    → cli env ((space ∷ text) ∷ later) p ≡ panic
unfolding cli str_eq
cli-blank env space text later p blank =
    ap
      (λ (m : Outcome (Program × Next)). m >>= λ r.
        (elim r.1 as (λ _. Job Program Next) [
          | goes_on ↦ cli env later
          | leaves ↦ done leaves
          | exited ↦ done exited
        ])
          r.0)
      (run_line_blank env (space ∷ text) p blank)
