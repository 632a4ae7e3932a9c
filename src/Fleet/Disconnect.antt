-- ===== src/Fleet/Disconnect.antt =====
-- connect.go: `disconnectHost` and `disconnectEverywhere`.
use metassh.Base.{
  ℕ, zero, suc, ◌-◌, Bool, not, ◌&&◌, ◌||◌, List, [], ◌∷◌, ◌++◌, ◌==◌, if◌then◌else◌, Str, ok,
  panic, blocked, Result, value, failure,
}
use metassh.Store.Types.{ConnInfo}
use metassh.Store.Methods.{Job, ◌>>>◌, done}
use metassh.Store.Methods
use metassh.Fleet.Net.{Net, Options, on_world, set_listeners}

-- The host of a goroutine that takes a clean-up request panics if it has no ControlMaster socket
-- to close: it is no proxy, and the program is not in server mode.
abbrev pub safe_close : Options → ConnInfo → Bool
safe_close opts ci = ci.is_proxy || opts.server

-- `ci.reqChan <- cleanupRequest{respChan}` and the response: one of the goroutines that listen
-- takes the request and returns.
unfoldable pub clean_one : Options → ConnInfo → Job Net (Unit {0})
clean_one opts ci net =
    if net.listeners ci.req_chan == 0
    then blocked
    else if safe_close opts ci
    then ok (
      record net {
        listeners = set_listeners ci.req_chan (net.listeners ci.req_chan - 1) net.listeners;
        cleaned = net.cleaned ++ (ci.req_chan ∷ []);
      },
      tt,
    )
    else panic

unfoldable pub clean_many : Options → ConnInfo → ℕ → Job Net (Unit {0})
unfolding clean_one
clean_many opts ci zero = done tt
clean_many opts ci (suc n) = clean_one opts ci >>> λ _. clean_many opts ci n

unfoldable pub disconnect_host : Options → Str → Job Net (Result (Unit {0}))
unfolding clean_one
disconnect_host opts h = on_world (Methods.get_conn_info h) >>> λ found. elim found [
  | failure err ↦ done (failure err)
  | value ci ↦
      clean_one opts ci >>> λ _. on_world (Methods.delete_conn_info h) >>> λ _. done (value tt)
]

-- One of the three loops: the connections that it takes, and how many requests each gets.
unfoldable pub sweep : Options → (ConnInfo → Bool) → ℕ → List Str → Job Net (Unit {0})
unfolding clean_many
sweep opts takes n [] = done tt
sweep opts takes n (h ∷ hs) = on_world (Methods.get_conn_info h) >>> λ found. elim found [
  | failure err ↦ sweep opts takes n hs
  | value ci ↦
      if takes ci
      then (clean_many opts ci n >>> λ _.
          on_world (Methods.delete_conn_info h) >>> λ _. sweep opts takes n hs)
      else sweep opts takes n hs
]

abbrev pub no_proxy : ConnInfo → Bool
no_proxy ci = not ci.is_proxy

abbrev pub indirect_proxy : ConnInfo → Bool
indirect_proxy ci = ci.is_proxy && not ci.is_direct

abbrev pub direct_proxy : ConnInfo → Bool
direct_proxy ci = ci.is_proxy && ci.is_direct

unfoldable pub sweep_all : Options → (ConnInfo → Bool) → ℕ → Job Net (Unit {0})
unfolding sweep
sweep_all opts takes n = on_world Methods.get_conn_keys >>> λ ck. sweep opts takes n ck

unfoldable pub disconnect_everywhere : Options → Bool → Job Net (Unit {0})
unfolding sweep_all
disconnect_everywhere opts proxies = on_world Methods.timeout_waiters >>> λ _.
    sweep_all opts no_proxy 1 >>> λ _.
    if proxies
    then (sweep_all opts indirect_proxy 1 >>> λ _.
        sweep_all opts direct_proxy opts.bastion_conns >>> λ _. done tt)
    else done tt
