-- ===== src/Fleet/Remote.antt =====
-- remotehost.go: the goroutine that serves one connection.
use metassh.Base.{
  Bool, true, false, not, ◌&&◌, List, [], ◌∷◌, ◌++◌, if◌then◌else◌, Str, str_eq, Outcome, ok, panic,
  ◌>>=◌,
}
use metassh.Store.Methods.{Act, ◌>>>◌, done}
use metassh.Store.Methods

-- What the goroutine holds: `session` is the one kept for keep-alives, `mux` the ControlMaster
-- socket, `mux_failed` says that `NewMux` returned an error.
pub record Remote : Type 0 where
  pub me : Str
  pub is_proxy : Bool
  pub session : Bool
  pub mux : Bool
  pub mux_failed : Bool

pub data RemoteAction : Type 0 where
  spawn_proxy : Str → RemoteAction
  spawn_run : Str → RemoteAction
  spawn_disconnect : Str → RemoteAction
  close_session : RemoteAction
  close_client : RemoteAction
  close_mux : RemoteAction
  respond : Bool → RemoteAction
  send_keep_alive : RemoteAction

-- What arrives at the goroutine's `select`; the clean-up comes with the success of
-- `client.Close()`, the keep-alive with that of `SendRequest`.
pub data Event : Type 0 where
  proxy_request : Str → Event
  run_request : Str → Event
  cleanup_request : Bool → Event
  unknown_request : Event
  keep_alive : Bool → Event

-- Up to the `for`: the name, the session, and a socket for what is no proxy in server mode.
unfoldable pub start_remote : Str → Bool → Bool → Bool → Bool → Act (Remote × List RemoteAction)
start_remote link is_proxy server session_ok mux_ok = Methods.get_ptr link >>> λ host.
    let me = if str_eq host [] then link else host in
    let wants = not is_proxy && server in
    done (
      record {
        me = me;
        is_proxy = is_proxy;
        session = session_ok;
        mux = wants && mux_ok;
        mux_failed = wants && not mux_ok;
      },
      if session_ok then [] else spawn_disconnect me ∷ [],
    )

-- The clean-up; `m.Close()` reads through `m`, which is nil where no socket was made.
unfoldable pub cleanup : Remote → Bool → Outcome (List RemoteAction)
cleanup r close_ok =
    let closing = if r.session then close_session ∷ close_client ∷ [] else close_client ∷ [] in
    if not r.is_proxy && not r.mux_failed
    then (if r.mux then ok (closing ++ (close_mux ∷ respond close_ok ∷ [])) else panic)
    else ok (closing ++ (respond close_ok ∷ []))

-- One round of the loop: whether the goroutine goes on, and what it did.
unfoldable pub remote_step : Remote → Event → Outcome (Bool × List RemoteAction)
unfolding cleanup
remote_step r (proxy_request target) = ok (true, spawn_proxy target ∷ [])
remote_step r (run_request cmd) = ok (true, spawn_run cmd ∷ [])
remote_step r (cleanup_request close_ok) = cleanup r close_ok >>= λ acts. ok (false, acts)
remote_step r unknown_request = ok (true, [])
remote_step r (keep_alive sent) = ok (
  true,
  if r.session
      then (if sent then send_keep_alive ∷ [] else send_keep_alive ∷ spawn_disconnect r.me ∷ [])
      else [],
)

-- The loop, until the goroutine returns.
unfoldable pub remote_loop : Remote → List Event → Outcome (List RemoteAction)
unfolding remote_step
remote_loop r [] = ok []
remote_loop r (e ∷ es) = remote_step r e >>= λ res.
    let later = remote_loop r es in
    if res.0 then (later >>= λ acts. ok (res.1 ++ acts)) else ok res.1
