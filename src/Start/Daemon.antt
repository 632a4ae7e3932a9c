-- ===== src/Start/Daemon.antt =====
-- main.go: what a daemon does when its start fails.
use metassh.Base.{
  ℕ, ◌≡◌, refl, inl, inr, Bool, true, false, ◌&&◌, ◌||◌, Option, none, some, [], ◌∷◌, ◌++◌, arith,
  ltb, if◌then◌else◌, Bool-cases, Str, str_eq, is_some, Outcome, ok, blocked, Result, value,
  failure,
}
use metassh.Store.Methods.{Job, ◌>>>◌}
use metassh.Output.Screen.{err_out, debug, do_output, mute_output}
use metassh.Start.Launch.{
  Settings, parsed, is_daemon, LaunchEnv, sets_config, handles_signals, connects, starts_server,
  settled, Launch, listen, Finish, serves, note, err_exit, unless, serve_or_sum, connect_targets,
  file_loaded, load_targets, configure, fresh, main,
}

-- The load fails, or the connecting that follows it.
abbrev pub fails : LaunchEnv → Result ℕ → Bool
fails env (failure err) = true
fails env (value n) = ltb 0 n && is_some env.connect_error

-- The file is read if one is named.
abbrev pub to_load : LaunchEnv → Settings → Result ℕ
to_load env c = if str_eq c.file [] then value 0 else env.load_file

abbrev pub start_fails : LaunchEnv → Settings → Bool
start_fails env c =
    is_some env.ssh_config_error
    || (fails env (to_load env c) || (is_some env.server_error || is_some env.listen_error))

err_exit_muted : (text : Str) (l : Launch) → l.screen.mute ≡ true → err_exit text l ≡ blocked
unfolding err_out do_output
err_exit_muted text l muted = ground arith

-- The end of a start: it serves, or waits for good.
abbrev pub Serves : Outcome (Launch × Finish) → Bool → Type 0
Serves m true = m ≡ blocked
Serves m false = (l : Launch) × (m ≡ ok (l, serves))

unless-Serves :
    (o : Option Str) (text : Str) (rest : Job Launch Finish) (l : Launch) (b : Bool)
    → l.screen.mute ≡ true
    → Serves (rest l) b
    → Serves (unless o text rest l) (is_some o || b)
unless-Serves none text rest l b muted h = h
unless-Serves (some err) text rest l b muted h = err_exit_muted _ l muted

listen-Serves :
    (env : LaunchEnv) (o : Option Str) (l : Launch)
    → env.listen_error ≡ o
    → l.screen.mute ≡ true
    → Serves (listen env l) (is_some o)
listen-Serves env none l e muted = rw e (l, refl)
listen-Serves env (some extra) l e muted = rw e (err_exit_muted _ l muted)

serve-Serves :
    (env : LaunchEnv) (c : Settings) (l : Launch)
    → c.server ≡ true
    → l.screen.mute ≡ true
    → Serves (serve_or_sum env c l) (is_some env.server_error || is_some env.listen_error)
unfolding serve_or_sum
serve-Serves env c l server muted =
    let l1 : Launch = record l { deeds = l.deeds ++ (starts_server ∷ []) } in
    rw (server, serve_or_sum)
      (unless-Serves env.server_error _ (note starts_server >>> λ _. listen env) l
        (is_some env.listen_error) muted (listen-Serves env env.listen_error l1 refl muted))

connect-Serves :
    (env : LaunchEnv) (c : Settings) (count : ℕ) (l : Launch)
    → c.server ≡ true
    → l.screen.mute ≡ true
    → Serves (connect_targets env c count l) (
        (ltb 0 count && is_some env.connect_error)
        || (is_some env.server_error || is_some env.listen_error))
unfolding connect_targets
connect-Serves env c count l server muted = elim (Bool-cases (ltb 0 count)) [
  | inl many ↦
      let l1 : Launch = record l { deeds = l.deeds ++ (connects ∷ []) } in
      rw (many, connect_targets)
        (unless-Serves env.connect_error [] (serve_or_sum env c) l1 _ muted
          (serve-Serves env c l1 server muted))
  | inr zero_of ↦ rw (zero_of, connect_targets) (serve-Serves env c l server muted)
]

file_loaded-Serves :
    (env : LaunchEnv) (c : Settings) (r : Result ℕ) (l : Launch)
    → c.server ≡ true
    → l.screen.mute ≡ true
    → Serves
        (file_loaded env c r l)
        (fails env r || (is_some env.server_error || is_some env.listen_error))
file_loaded-Serves env c (failure err) l server muted = err_exit_muted _ l muted
file_loaded-Serves env c (value count) l server muted = connect-Serves env c count l server muted

configure-Serves :
    (env : LaunchEnv) (c : Settings) (l : Launch)
    → c.server ≡ true
    → l.screen.mute ≡ true
    → Serves (configure env c l) (start_fails env c)
unfolding configure
configure-Serves env c l server muted =
    let l1 : Launch = record l { deeds = l.deeds ++ (handles_signals ∷ []) } in
    let l2 : Launch = record l1 { deeds = l1.deeds ++ (sets_config ∷ []) } in
    unless-Serves env.ssh_config_error _ (note sets_config >>> λ _. load_targets env c) l1 _ muted
      (file_loaded-Serves env c (to_load env c) l2 server muted)

abbrev muted_start : Launch
muted_start = record (fresh false) { screen = mute_output ((fresh false).screen) }

daemon_starts :
    (env : LaunchEnv) (c : Settings)
    → env.flags ≡ parsed c
    → c.daemonize ≡ true
    → c.password ≡ false
    → c.debug_on ≡ false
    → env.is_parent ≡ false
    → env.daemon ≡ is_daemon
    → main env ≡ configure env (record c { server = true }) muted_start
unfolding main debug
daemon_starts env c flags daemon plain quiet child made = ground arith

-- In the daemon that --daemonize makes, without --password and without --debug: if the client's
-- configuration, the load of the file, the connecting, the server or its port fails, the process
-- does not end, but waits for good in the message that it means to leave with. If none of them
-- fails, the server listens and serves.
pub main-Serves :
    (env : LaunchEnv) (c : Settings)
    → env.flags ≡ parsed c
    → c.daemonize ≡ true
    → c.password ≡ false
    → c.debug_on ≡ false
    → env.is_parent ≡ false
    → env.daemon ≡ is_daemon
    → Serves (main env) (start_fails env (settled c))
unfolding configure
main-Serves env c flags daemon plain quiet child made =
    rw (daemon_starts env c flags daemon plain quiet child made, daemon)
      (configure-Serves env (record c { server = true }) muted_start refl refl)
