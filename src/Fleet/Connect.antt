-- ===== src/Fleet/Connect.antt =====
-- connect.go and run.go: `connectEverywhere` and `runOnce`. The goroutines of the hosts run one
-- after another.
use metassh.Base.{
  ℕ, Bool, true, false, ◌&&◌, Option, none, some, List, [], ◌∷◌, if◌then◌else◌, length, Str, Result,
  value, failure,
}
use metassh.Store.Methods.{Job, ◌>>>◌, done}
use metassh.Store.Methods
use metassh.Fleet.Net.{Net, Options, on_world}
use metassh.Fleet.Resolve.{Weather, reach, resolve, finished, returned, exits, resolve_proxies}

abbrev pub error_of {ℓ} : {A : Type ℓ} → Result A → Option Str
error_of (value a) = none
error_of (failure err) = some err

abbrev pub succeeded {ℓ} : {A : Type ℓ} → Result A → Bool
succeeded (value a) = true
succeeded (failure err) = false

abbrev pub output_of : Result Str → Str
output_of (value out) = out
output_of (failure err) = []

unfoldable pub run_once : Weather → Str → Job Net (Unit {0})
unfolding reach
run_once weather h = on_world (Methods.get_conn_info h) >>> λ found. elim found [
  | failure err ↦ done tt
  | value ci ↦ reach ci.req_chan >>> λ _. on_world (
      Methods.set_run_status (record {
        host_name = h;
        run_ok = succeeded (weather.ran h);
        run_once = true;
        run_time = weather.run_time h;
        last_error = error_of (weather.ran h);
        cmd_output = output_of (weather.ran h);
      }))
]

-- The goroutine of one host.
unfoldable pub connect_one : Options → Weather → Str → Job Net (Unit {0})
unfolding resolve run_once
connect_one opts weather me = on_world (Methods.get_host_info me) >>> λ found. elim found [
  | failure err ↦ done tt
  | value hi ↦ resolve opts weather false hi.chain >>> λ res.
      on_world (
        Methods.set_connection_status (record {
          host_name = me;
          connected_ok = succeeded res;
          connect_time = weather.elapsed me;
          last_error = error_of res;
        }))
      >>> λ _. if succeeded res && opts.execute then run_once weather me else done tt
]

unfoldable pub connect_each : Options → Weather → List Str → Job Net (Unit {0})
unfolding connect_one
connect_each opts weather [] = done tt
connect_each opts weather (h ∷ hs) = on_world (Methods.conn_exists h) >>> λ exists.
    (if exists then done tt else connect_one opts weather h) >>> λ _. connect_each opts weather hs

-- `j + 1`, where `j` is the last index of the loop, and 0 if there is none.
abbrev pub counted : List Str → ℕ
counted [] = 1
counted (h ∷ hs) = length (h ∷ hs)

-- The count that is reported; `none` where the program exits.
unfoldable pub connect_everywhere : Options → Weather → Job Net (Option ℕ)
unfolding resolve_proxies connect_each
connect_everywhere opts weather = resolve_proxies opts weather >>> λ ending. elim ending [
  | finished ↦ on_world Methods.get_host_keys >>> λ hk.
      connect_each opts weather hk >>> λ _. done (some (counted hk))
  | returned err ↦ done none
  | exits err ↦ done none
]
