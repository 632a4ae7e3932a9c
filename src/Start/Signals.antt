-- ===== src/Start/Signals.antt =====
-- signals.go: one round of each handler. `sprintf` makes the texts of numbers.
use metassh.Base.{ℕ, true, List, [], ◌∷◌, length, Str, bytes, Outcome, ok, ◌>>=◌}
use metassh.Store.Methods.{Act, Job, ◌>>>◌, done}
use metassh.Store.Methods
use metassh.Output.Screen.{Output, out, debug}
use metassh.Fleet.Net.{Net, Options, on_world}
use metassh.Fleet.Disconnect.{disconnect_everywhere}

pub record Watch : Type 0 where
  pub screen : Output
  pub net : Net

abbrev pub on_screen : (Output → Outcome Output) → Job Watch (Unit {0})
on_screen print s = print s.screen >>= λ o. ok (record s { screen = o }, tt)

abbrev pub on_net {ℓ} : {A : Type ℓ} → Job Net A → Job Watch A
on_net job s = job s.net >>= λ r. ok (record s { net = r.0 }, r.1)

-- SIGQUIT
unfoldable pub quit_round : (Str → List ℕ → Str) → ℕ → Job Watch (Unit {0})
quit_round sprintf now = on_screen (out (bytes "\n")) >>> λ _.
    on_net (on_world Methods.get_host_keys) >>> λ hk.
    on_screen (out (sprintf (bytes "There are currently %d HostKeys loaded.\n") (length hk ∷ [])))
    >>> λ _. on_net (on_world (Methods.get_waiter_info now)) >>> λ wi.
        on_screen (
          out (
            sprintf (bytes "ABORT: %d connection threads (%.2fs average wait time)\n")
              (wi.conn_waiters ∷ wi.avg_conn_wait ∷ [])))
        >>> λ _.
            on_screen (
              out (
                sprintf (bytes "ABORT: %d run threads (%.2fs average wait time)\n")
                  (wi.run_waiters ∷ wi.avg_run_wait ∷ [])))
            >>> λ _. on_net (on_world Methods.timeout_waiters)

-- SIGINT and SIGTERM, up to `os.Exit(0)`
unfoldable pub clean_death : Options → Job Watch (Unit {0})
unfolding disconnect_everywhere
clean_death opts =
    on_net (disconnect_everywhere opts true) >>> λ _. on_screen (debug (bytes "Cya.\n"))
