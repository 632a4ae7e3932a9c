-- ===== src/Server/Accept.antt =====
-- server.go: the loop of `Start`, and the requests that are discarded. What the listener hands out
-- is a list; a goroutine for the channels of a client is counted.
use metassh.Base.{
  ℕ, suc, ◌≡◌, refl, inl, inr, Bool, true, false, Option, none, some, List, [], ◌∷◌, ◌++◌, arith,
  if◌then◌else◌, Bool-cases, Str, bytes, Outcome, ok, blocked, ◌>>=◌,
}
use metassh.Output.Screen.{Output, std_err, sent, debug, err_out, do_output}

-- `listener.Accept` and the handshake.
pub data Arrived : Type 0 where
  not_accepted : Str → Arrived
  no_handshake : Str → Arrived
  client : Str → Arrived

abbrev accept_text : Str → Str
accept_text err = bytes "Failed to accept incoming connection: " ++ err ++ bytes "\n"

abbrev handshake_text : Str → Str
handshake_text err = bytes "Failed to handshake: " ++ err ++ bytes "\n"

abbrev client_text : Str → Str
client_text addr = bytes "Client connection from: " ++ addr ++ bytes "\n"

unfoldable pub accept_loop : List Arrived → Output → Outcome (Output × ℕ)
accept_loop [] o = ok (o, 0)
accept_loop (not_accepted err ∷ later) o =
    err_out (accept_text err) o >>= λ o1. accept_loop later o1
accept_loop (no_handshake err ∷ later) o =
    err_out (handshake_text err) o >>= λ o1. accept_loop later o1
accept_loop (client addr ∷ later) o =
    debug (client_text addr) o >>= λ o1. accept_loop later o1 >>= λ r. ok (r.0, suc r.1)

-- Whether the program has ended, or the number of clients that are served so far.
pub data Serving : Type 0 where
  gone : Serving
  serving : ℕ → Serving

-- `extra` is what `fmt` says of the argument that the format has no verb for.
unfoldable pub start_server : Option Str → List Arrived → Output → Outcome (Output × Serving)
unfolding accept_loop
start_server listen_error arrivals o = debug (bytes "Listening on the server port.\n") o >>= λ o1.
    elim listen_error [
      | some extra ↦
          err_out (bytes "Failed to listen on port 2222: \n" ++ extra) o1 >>= λ o2. ok (o2, gone)
      | none ↦ accept_loop arrivals o1 >>= λ r. ok (r.0, serving r.1)
    ]

pub record Discarded : Type 0 where
  pub shown_as : Str
  pub want_reply : Bool
  pub reply_error : Option Str

-- The number of refusals that were sent.
unfoldable pub discard_requests : List Discarded → Output → Outcome (Output × ℕ)
discard_requests [] o = ok (o, 0)
discard_requests (req ∷ reqs) o =
    debug (bytes "Discarding req: " ++ req.shown_as ++ bytes "\n") o >>= λ o1.
    (if req.want_reply
      then (elim req.reply_error as (λ _. Outcome Output) [
        | none ↦ ok o1
        | some err ↦ debug (bytes "req.Reply() failed: " ++ err ++ bytes "\n") o1
      ])
      else ok o1)
    >>= λ o2. discard_requests reqs o2 >>= λ r. ok (r.0, if req.want_reply then suc r.1 else r.1)

abbrev pub clients : List Arrived → ℕ
clients [] = 0
clients (client addr ∷ later) = suc (clients later)
clients (_ ∷ later) = clients later

abbrev pub any_failed : List Arrived → Bool
any_failed [] = false
any_failed (client addr ∷ later) = any_failed later
any_failed (_ ∷ later) = true

abbrev Prints : Outcome Output → Type 0
Prints m = (o' : Output) × (m ≡ ok o') × (o'.mute ≡ false)

err_out_unmuted : (text : Str) (o : Output) → o.mute ≡ false → Prints (err_out text o)
unfolding err_out do_output
err_out_unmuted text o loud =
    (record o { shown = o.shown ++ ((std_err, sent o text) ∷ []) }, rw loud refl, loud)

debug_unmuted : (text : Str) (o : Output) → o.mute ≡ false → Prints (debug text o)
unfolding debug do_output
debug_unmuted text o loud = elim (Bool-cases o.debug_on) [
  | inl shown ↦
      (record o { shown = o.shown ++ ((std_err, sent o text) ∷ []) }, rw (shown, loud) refl, loud)
  | inr hidden ↦ (o, rw hidden refl, loud)
]

-- An output that is not muted serves every client that comes, whatever fails in between.
pub accept_loop_unmuted :
    (arrivals : List Arrived) (o : Output)
    → o.mute ≡ false
    → (o' : Output) × (accept_loop arrivals o ≡ ok (o', clients arrivals))
unfolding accept_loop
accept_loop_unmuted [] o loud = (o, refl)
accept_loop_unmuted (not_accepted err ∷ later) o loud =
    let (o1, e, loud1) = err_out_unmuted (accept_text err) o loud in
    let (o2, q) = accept_loop_unmuted later o1 loud1 in (o2, rw e q)
accept_loop_unmuted (no_handshake err ∷ later) o loud =
    let (o1, e, loud1) = err_out_unmuted (handshake_text err) o loud in
    let (o2, q) = accept_loop_unmuted later o1 loud1 in (o2, rw e q)
accept_loop_unmuted (client addr ∷ later) o loud =
    let (o1, e, loud1) = debug_unmuted (client_text addr) o loud in
    let (o2, q) = accept_loop_unmuted later o1 loud1 in (o2, rw (e, q) refl)

-- A muted output, as --daemonize leaves it, serves every client if no connection fails, and the
-- first that fails stops the loop for good.
pub accept_loop_muted :
    (arrivals : List Arrived) (o : Output)
    → o.mute ≡ true
    → o.debug_on ≡ false
    → accept_loop arrivals o ≡ (if any_failed arrivals then blocked else ok (o, clients arrivals))
unfolding accept_loop err_out do_output debug
accept_loop_muted [] o muted quiet = refl
accept_loop_muted (not_accepted err ∷ later) o muted quiet = rw muted refl
accept_loop_muted (no_handshake err ∷ later) o muted quiet = rw muted refl
accept_loop_muted (client addr ∷ later) o muted quiet =
    ground (arith, accept_loop_muted later o muted quiet)
