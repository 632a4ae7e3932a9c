-- ===== src/Start/Interrupts.antt =====
-- signals.go: what the signals come to.
use metassh.Base.{
  ℕ, ◌≡◌, refl, true, false, List, [], ◌∷◌, ◌++◌, arith, length, Str, bytes, keys, ok, blocked,
}
use metassh.Store.Serializer.{handle, waiter_info}
use metassh.Store.Methods
use metassh.Store.Waiters.{Timed, Fresh, timeout_waiters_lem}
use metassh.Output.Screen.{Output, std_out, sent, out, do_output, debug}
use metassh.Fleet.Net.{Options}
use metassh.Fleet.Sweeps.{conns, disconnect_everywhere-conns}
use metassh.Fleet.Manned.{Manned, disconnect_everywhere-Ends}
use metassh.Start.Signals.{Watch, quit_round, clean_death}

abbrev printed : Str → Output → Output
printed text o = record o { shown = o.shown ++ ((std_out, sent o text) ∷ []) }

-- On an output that is not muted, and while the waiters' channels are distinct and empty, SIGQUIT
-- comes to an end and reaches every waiter.
pub quit_round_lem :
    (sprintf : Str → List ℕ → Str) (now : ℕ) (s : Watch)
    → s.screen.mute ≡ false
    → Fresh s.net.world.slots (s.net.world.state.conn_waiters ++ s.net.world.state.run_waiters)
    → (s' : Watch) × (quit_round sprintf now s ≡ ok (s', tt))
      × Timed s'.net.world.slots s.net.world.state.conn_waiters
      × Timed s'.net.world.slots s.net.world.state.run_waiters
unfolding quit_round Methods.get_host_keys Methods.get_waiter_info Methods.timeout_waiters handle
    out do_output
quit_round_lem sprintf now s loud fresh =
    let (w', e, conn, run, _, _) = timeout_waiters_lem s.net.world fresh in
    let st = s.net.world.state in
    let wi = waiter_info now st in
    (
      record {
        screen =
            printed
              (sprintf (bytes "ABORT: %d run threads (%.2fs average wait time)\n")
                (wi.run_waiters ∷ wi.avg_run_wait ∷ []))
              (printed
                (sprintf (bytes "ABORT: %d connection threads (%.2fs average wait time)\n")
                  (wi.conn_waiters ∷ wi.avg_conn_wait ∷ []))
                (printed
                  (sprintf (bytes "There are currently %d HostKeys loaded.\n")
                    (length (keys st.targets) ∷ []))
                  (printed (bytes "\n") s.screen)));
        net = record (s.net) { world = w' };
      },
      ground (arith, loud, e),
      conn,
      run,
    )

-- On a muted output, as --daemonize leaves it, SIGQUIT waits for good, whatever the waiters.
pub quit_round_muted :
    (sprintf : Str → List ℕ → Str) (now : ℕ) (s : Watch)
    → s.screen.mute ≡ true
    → quit_round sprintf now s ≡ blocked
unfolding quit_round out do_output
quit_round_muted sprintf now s muted = rw (muted, quit_round) refl

-- SIGINT and SIGTERM come to an end and leave no connection if every connection is manned and the
-- waiters' channels are distinct and empty, with debug output off.
pub clean_death_lem :
    (opts : Options) (s : Watch)
    → s.screen.debug_on ≡ false
    → Fresh s.net.world.slots (s.net.world.state.conn_waiters ++ s.net.world.state.run_waiters)
    → Manned opts s.net
    → (s' : Watch) × (clean_death opts s ≡ ok (s', tt)) × (conns s'.net ≡ [])
unfolding clean_death debug
clean_death_lem opts s quiet fresh manned =
    let ((net', _), e) = disconnect_everywhere-Ends opts true s.net fresh manned in
    let (empty, _) = disconnect_everywhere-conns opts true s.net net' e in
    (record s { net = net' }, ground (arith, quiet, e), empty refl)
