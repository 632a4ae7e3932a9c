-- ===== src/Cli/Quits.antt =====
-- commands.go: which commands end the session.
use metassh.Base.{
  ℕ, ◌≡◌, refl, sym, ap, ◌∙◌, ◌⊎◌, inl, inr, Bool, true, false, ◌||◌, Option, none, some, List, [],
  ◌∷◌, arith, Option-cases, All, Str, bytes, str_eq, str_eq_cases, Dict, lookup, ok, bind-ok,
  ok_injective,
}
use mathlib.Core.Path.{subst}
use metassh.Store.Methods.{◌>>>◌}
use metassh.Fleet.Net.{Options}
use metassh.Run.Program.{Program}
use metassh.Cli.Commands.{
  CmdErr, plain, fatal, help, status, exits, Command, spooldir, tee, spool, clean, clear, disco,
  quit, abort,
}
use metassh.Cli.Quant.{quant}
use metassh.Cli.Flags.{CliEnv, run, target, summary, state, connect}
use metassh.Cli.Dispatch.{show_help, commands, Next, leaves, after, run_cli_cmd}

abbrev pub ends_session : Option CmdErr → Bool
ends_session (some (fatal msg)) = true
ends_session _ = false

-- A command that ends no session, however it returns.
abbrev Mild : Command → Type 0
Mild c = (p p' : Program) (err : Option CmdErr) → c p ≡ ok (p', err) → ends_session err ≡ false

state-Mild : (env : CliEnv) → Mild (state env)
unfolding state
state-Mild env p p' err e = ground arith

run-Mild : (env : CliEnv) (args : List Str) → Mild (run env args)
unfolding run
run-Mild env args p p' err e = ground arith

target-Mild : (env : CliEnv) (args : List Str) → Mild (target env args)
unfolding target
target-Mild env args p p' err e = ground arith

connect-Mild : (env : CliEnv) (args : List Str) → Mild (connect env args)
unfolding connect
connect-Mild env args p p' err e = ground arith

summary-Mild : (env : CliEnv) (args : List Str) → Mild (summary env args)
unfolding summary
summary-Mild env args p p' err e = ground arith

show_help-Mild : Mild (show_help)
unfolding show_help
show_help-Mild p p' err e = ground arith

clear-Mild : (opts : Options) → Mild (clear opts)
unfolding clear
clear-Mild opts p p' err e = ground arith

clean-Mild : (opts : Options) (elapsed : ℕ) → Mild (clean opts elapsed)
unfolding clean
clean-Mild opts elapsed p p' err e = ground arith

disco-Mild : (opts : Options) → Mild (disco opts)
unfolding disco
disco-Mild opts p p' err e = ground arith

abort-Mild : Mild (abort)
unfolding abort
abort-Mild p p' err e = ground arith

tee-Mild : Mild (tee)
unfolding tee
tee-Mild p p' err e = ground arith

spool-Mild : (writable : Str → Bool) → Mild (spool writable)
unfolding spool
spool-Mild writable p p' err e = ground arith

quant-Mild : (env : CliEnv) (args : List Str) → Mild (quant env.reals env.parse_quant args)
unfolding quant
quant-Mild env args p p' err e = ground arith

spooldir-Mild : (writable : Str → Bool) (args : List Str) → Mild (spooldir writable args)
unfolding spooldir
spooldir-Mild writable [] p p' err e = ground arith
spooldir-Mild writable (path ∷ args) p p' err e = ground arith

abbrev pub is_quit : Str → Bool
is_quit cmd = str_eq cmd (bytes "exit") || str_eq cmd (bytes "quit")

-- `exit` and `quit` end the session, and no other command does.
abbrev Entry : Str → (List Str → Command) → Type 0
Entry cmd c =
    ((is_quit cmd ≡ true) × ((args : List Str) → c args ≡ quit))
    ⊎ ((is_quit cmd ≡ false) × ((args : List Str) → Mild (c args)))

lookup-All :
    {V : Type 0} (P : Str → V → Type 0) (k : Str) (v : V) (m : Dict V)
    → All (λ (x : Str × V). P x.0 x.1) m
    → lookup k m ≡ some v
    → P k v
unfolding lookup
lookup-All P k v [] h e = cc
lookup-All P k v ((j, u) ∷ m) (h, hs) e = elim (str_eq_cases j k) [
  | inl (hit, same) ↦ let q : u ≡ v = cc (rw hit at e) in subst (P k) q (subst (λ i. P i u) same h)
  | inr (miss, _) ↦ lookup-All P k v m hs (rw miss at e)
]

infixr 5 ◌&◌
◌&◌ {ℓ κ} : {A : Type ℓ} {B : Type κ} → A → B → A × B
a & b = (a, b)

commands-Entry : (env : CliEnv) → All (λ x. Entry x.0 x.1) (commands env)
unfolding commands str_eq
commands-Entry env =
    (inr (refl, λ args. state-Mild env))
    & (inr (refl, run-Mild env))
    & (inr (refl, target-Mild env))
    & (inr (refl, λ args. clear-Mild env.opts))
    & (inr (refl, λ args. clean-Mild env.opts env.elapsed))
    & (inl (refl, λ args. refl))
    & (inl (refl, λ args. refl))
    & (inr (refl, λ args. abort-Mild))
    & (inr (refl, λ args. disco-Mild env.opts))
    & (inr (refl, connect-Mild env))
    & (inr (refl, summary-Mild env))
    & (inr (refl, λ args. spool-Mild env.writable))
    & (inr (refl, spooldir-Mild env.writable))
    & (inr (refl, λ args. show_help-Mild))
    & (inr (refl, quant-Mild env))
    & (inr (refl, λ args. tee-Mild))
    & tt

abbrev pub left : Next → Bool
left leaves = true
left _ = false

-- Whatever a command's error is, the session ends with it exactly if it is fatal.
after-left :
    (cmd : Str) (err : Option CmdErr) (p p' : Program) (next : Next)
    → after cmd err p ≡ ok (p', next)
    → left next ≡ ends_session err
unfolding after
after-left cmd none p p' next e = ground arith
after-left cmd (some (plain msg)) p p' next e = ground arith
after-left cmd (some (fatal msg)) p p' next e = ground arith
after-left cmd (some help) p p' next e = ground arith
after-left cmd (some (status code)) p p' next e = ground arith
after-left cmd (some exits) p p' next e = ground arith

Entry-left :
    (cmd : Str) (c : List Str → Command) (args : List Str) (p p' : Program) (next : Next)
    → Entry cmd c
    → (c args >>> after cmd) p ≡ ok (p', next)
    → left next ≡ is_quit cmd
unfolding after
Entry-left cmd c args p p' next (inl (q, same)) e =
    let e2 = rw (same args) at e in
    sym (ap (λ (x : Program × Next). left x.1) (ok_injective e2)) ∙ sym q
Entry-left cmd c args p p' next (inr (q, mild)) e =
    let ((p1, err), r, e1) = bind-ok (c args p) _ e in
    after-left cmd err p1 p' next e1 ∙ mild args p p1 err r ∙ sym q

quit_known : (env : CliEnv) (cmd : Str) → lookup cmd (commands env) ≡ none → is_quit cmd ≡ false
unfolding commands lookup str_eq
quit_known env cmd miss = elim (str_eq_cases cmd (bytes "exit")) [
  | inl (_, same) ↦ cc (rw same at miss)
  | inr (n, _) ↦ rw n (elim (str_eq_cases cmd (bytes "quit")) [
    | inl (_, same) ↦ cc (rw same at miss)
    | inr (m, _) ↦ m
  ])
]

-- A command that returns ends the session exactly if it is `exit` or `quit`.
pub run_cli_cmd-left :
    (env : CliEnv) (cmd : Str) (args : List Str) (p p' : Program) (next : Next)
    → run_cli_cmd env cmd args p ≡ ok (p', next)
    → left next ≡ is_quit cmd
unfolding run_cli_cmd
run_cli_cmd-left env cmd args p p' next e = elim (Option-cases (lookup cmd (commands env))) [
  | inl miss ↦ ground (arith, quit_known env cmd miss)
  | inr (c, hit) ↦
      Entry-left cmd c args p p' next
        (lookup-All Entry cmd c (commands env) (commands-Entry env) hit)
        (rw (hit, run_cli_cmd) at e)
]
