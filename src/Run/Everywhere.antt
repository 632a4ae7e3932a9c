-- ===== src/Run/Everywhere.antt =====
-- run.go: `runEverywhere`. The goroutines of the hosts run one after another, and the host's own
-- goroutine bears the name of its connection.
use metassh.Base.{
  ℕ, ◌≡◌, refl, inl, inr, Bool, true, not, some, List, [], ◌∷◌, if◌then◌else◌, Option-cases, Str,
  str_eq, is_some, lookup, keys, ok, blocked, value, failure,
}
use metassh.Store.Types.{ConnInfo}
use metassh.Store.Serializer.{handle}
use metassh.Store.Methods.{Job, ◌>>>◌, done}
use metassh.Store.Methods
use metassh.Store.Races.{get_conn_info_alone}
use metassh.Fleet.Resolve.{reach}
use metassh.Run.Program.{Program, result, on_net, on_state, say}
use metassh.Run.Command.{RunEnv, run_cmd}

-- What happens on each host, and when.
pub record Runs : Type 0 where
  pub runs_on : Str → RunEnv
  pub started_at : Str → ℕ
  pub timer : Str → ℕ
  pub elapsed : Str → ℕ

-- The goroutine of one host. `quiet` is a muted output, which waits for good when it is to print.
unfoldable pub run_one : Runs → Bool → Str → Job Program (Unit {0})
unfolding reach run_cmd
run_one runs quiet host = on_state (Methods.get_conn_info host) >>> λ found. elim found [
  | failure err ↦ done tt
  | value ci ↦ on_net (reach ci.req_chan) >>> λ _.
      run_cmd host (runs.started_at host) (runs.timer host) (runs.runs_on host) >>> λ resp.
      on_state (
        Methods.set_run_status (record {
          host_name = host;
          run_ok = not (is_some resp.error);
          run_once = true;
          run_time = runs.elapsed host;
          last_error = resp.error;
          cmd_output = resp.std_out;
        }))
      >>> λ _.
          if str_eq resp.std_out []
          then done tt
          else if quiet
          then (λ p. blocked)
          else say (result host (runs.elapsed host) resp.exit_code resp.error resp.std_out)
]

unfoldable pub run_each : Runs → Bool → List Str → Job Program (Unit {0})
unfolding run_one
run_each runs quiet [] = done tt
run_each runs quiet (h ∷ hs) = on_state (Methods.get_conn_info h) >>> λ found.
    (elim found as (λ _. Job Program (Unit {0})) [
      | failure err ↦ done tt
      | value ci ↦ if ci.is_proxy then done tt else run_one runs quiet h
    ])
    >>> λ _. run_each runs quiet hs

unfoldable pub run_everywhere : Runs → Bool → Job Program (Unit {0})
unfolding run_each
run_everywhere runs quiet = on_state Methods.get_conn_keys >>> λ hk. run_each runs quiet hk

run_each_skips :
    (runs : Runs) (quiet : Bool) (hs : List Str) (p : Program)
    → ((h : Str) (ci : ConnInfo) → lookup h p.net.world.state.conn ≡ some ci → ci.is_proxy ≡ true)
    → run_each runs quiet hs p ≡ ok (p, tt)
unfolding run_each
run_each_skips runs quiet [] p proxies = refl
run_each_skips runs quiet (h ∷ hs) p proxies =
    let rest = run_each_skips runs quiet hs p proxies in
    elim (Option-cases (lookup h p.net.world.state.conn)) [
      | inl gone ↦ rw (get_conn_info_alone h p.net.world, gone) rest
      | inr (ci, there) ↦ rw (get_conn_info_alone h p.net.world, there, proxies h ci there) rest
    ]

-- While every connection is that of a proxy, a run is sent nowhere and changes nothing.
pub run_everywhere_proxies :
    (runs : Runs) (quiet : Bool) (p : Program)
    → ((h : Str) (ci : ConnInfo) → lookup h p.net.world.state.conn ≡ some ci → ci.is_proxy ≡ true)
    → run_everywhere runs quiet p ≡ ok (p, tt)
unfolding run_everywhere Methods.get_conn_keys handle
run_everywhere_proxies runs quiet p proxies =
    run_each_skips runs quiet (keys p.net.world.state.conn) p proxies
