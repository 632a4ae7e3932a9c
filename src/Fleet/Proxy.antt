-- ===== src/Fleet/Proxy.antt =====
-- proxy.go: `proxyConnect`, a connection through a host that is connected already.
use metassh.Base.{
  ℕ, Bool, true, false, ◌&&◌, Option, none, some, Str, bytes, panic, Result, value, failure,
}
use metassh.Store.Types.{state_dialing, state_establishing, state_new_client, state_done}
use metassh.Store.Methods.{Act, ◌>>>◌, done}
use metassh.Store.Methods

-- How the dialling goes, and what the `select` takes first: the response, the timer, or an abort.
-- `asks_password` says that the SSH library calls the password callback.
pub data Arrival : Type 0 where
  response : Arrival
  organic : Arrival
  aborted : Arrival

pub record ProxyEnv : Type 0 where
  pub dial_error : Option Str
  pub asks_password : Bool
  pub handshake_error : Option Str
  pub arrival : Arrival

-- `pwClosure`, of proxy.go and of resolve.go.
unfoldable pub pw_closure : Str → Act Str
pw_closure link =
    Methods.get_ptr link >>> λ host. Methods.set_requires_pw host >>> λ _. Methods.get_auth_pass

-- `*localConfig = *(e.s.GetSSHConfig())`
unfoldable pub copy_config : Act (Unit {0})
copy_config = Methods.get_ssh_config >>> λ c. elim c [ none ↦ λ w. panic | some _ ↦ done tt ]

abbrev pub when : Bool → Act Str → Act (Unit {0})
when true act = act >>> λ _. done tt
when false act = done tt

-- The goroutine that dials, up to its response.
unfoldable pub dial_through : Bool → Str → ProxyEnv → Act (Result (Unit {0}))
unfolding pw_closure copy_config
dial_through password target env = copy_config >>> λ _. elim env.dial_error [
  | some err ↦ done (failure err)
  | none ↦ Methods.set_conn_wait_state target state_establishing >>> λ _.
      when (password && env.asks_password) (pw_closure target) >>> λ _. elim env.handshake_error [
        | some err ↦ done (failure err)
        | none ↦ Methods.set_conn_wait_state target state_new_client >>> λ _.
            Methods.set_conn_wait_state target state_done >>> λ _. done (value tt)
      ]
]

abbrev pub timed_out : Str
timed_out = bytes "Remote connection timed out."

abbrev pub aborted_error : Str
aborted_error = bytes "Remote connection aborted."

abbrev pub answer : Arrival → Result (Unit {0}) → Result (Unit {0})
answer response res = res
answer organic res = failure timed_out
answer aborted res = failure aborted_error

-- The response that the requester gets. The waiter is registered first and removed last.
unfoldable pub proxy_connect : Bool → ℕ → ℕ → Str → ProxyEnv → Act (Result (Unit {0}))
unfolding dial_through
proxy_connect password now timeout target env =
    Methods.set_conn_wait_info (record {
      host_name = target;
      state = state_dialing;
      start_time = now;
      timeout_chan = timeout;
    })
    >>> λ _. dial_through password target env >>> λ res.
        Methods.delete_conn_wait_info target >>> λ _. done (answer env.arrival res)
