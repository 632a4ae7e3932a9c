-- ===== src/Fleet/Waits.antt =====
-- proxy.go: when the password closure crashes, and what a proxied connection leaves behind.
use metassh.Base.{
  ℕ, ◌≡◌, refl, sym, ap, ◌∙◌, ◌↔◌, Bool, ◌&&◌, Option, none, some, arith, Str, lookup,
  lookup-delete_self, ok, panic, bind-ok, ok_injective, Result, value,
}
use metassh.Store.Types.{World, state_establishing, state_new_client, state_done}
use metassh.Store.Serializer.{handle}
use metassh.Store.Methods
use metassh.Store.Races.{ptr_of}
use metassh.Fleet.Proxy.{
  Arrival, response, organic, aborted, ProxyEnv, pw_closure, copy_config, when, dial_through,
  answer, proxy_connect,
}

-- The password closure takes the program down exactly when the link, by its reverse lookup, is no
-- target.
pub pw_closure-eq-panic :
    (link : Str) (w : World)
    → (pw_closure link w ≡ panic) ↔ (lookup (ptr_of link w.state) w.state.targets ≡ none)
unfolding pw_closure Methods.get_ptr Methods.set_requires_pw Methods.get_auth_pass handle
pw_closure-eq-panic link w = (λ p. ground arith, λ e. ground arith)

delete_conn_wait_info_gone :
    (target : Str) (w w' : World)
    → Methods.delete_conn_wait_info target w ≡ ok (w', tt)
    → lookup (ptr_of target w'.state) w'.state.conn_waiters ≡ none
unfolding Methods.delete_conn_wait_info Methods.get_ptr handle
delete_conn_wait_info_gone target w w' e =
    let same = ap (λ (r : World × Unit {0}). r.0) (ok_injective e) in
    rw (← same) (lookup-delete_self (ptr_of target w.state) w.state.conn_waiters)

dial_through_succeeds :
    (password : Bool) (target : Str) (dial_error handshake_error : Option Str) (asks : Bool)
    (arrival : Arrival) (w w' : World) (res : Result (Unit {0}))
    → dial_through password target
        (record {
          dial_error = dial_error;
          asks_password = asks;
          handshake_error = handshake_error;
          arrival = arrival;
        })
        w
      ≡ ok (w', res)
    → (res ≡ value tt) ↔ ((dial_error ≡ none) × (handshake_error ≡ none))
unfolding dial_through
dial_through_succeeds password target (some err) hs asks arrival w w' res e =
    let ((w0, _), p0, e0) = bind-ok (copy_config w) _ e in
    let failed = sym (ap (λ (r : World × Result (Unit {0})). r.1) (ok_injective e0)) in
    (λ q. ground arith, λ q. ground arith)
dial_through_succeeds password target none (some err) asks arrival w w' res e =
    let ((w0, _), p0, e0) = bind-ok (copy_config w) _ e in
    let ((w1, _), p1, e1) =
      bind-ok (Methods.set_conn_wait_state target state_establishing w0) _ e0 in
    let ((w2, _), p2, e2) = bind-ok (when (password && asks) (pw_closure target) w1) _ e1 in
    let failed = sym (ap (λ (r : World × Result (Unit {0})). r.1) (ok_injective e2)) in
    (λ q. ground arith, λ q. ground arith)
dial_through_succeeds password target none none asks arrival w w' res e =
    let ((w0, _), p0, e0) = bind-ok (copy_config w) _ e in
    let ((w1, _), p1, e1) =
      bind-ok (Methods.set_conn_wait_state target state_establishing w0) _ e0 in
    let ((w2, _), p2, e2) = bind-ok (when (password && asks) (pw_closure target) w1) _ e1 in
    let ((w3, _), p3, e3) = bind-ok (Methods.set_conn_wait_state target state_new_client w2) _ e2 in
    let ((w4, _), p4, e4) = bind-ok (Methods.set_conn_wait_state target state_done w3) _ e3 in
    (λ q. (refl, refl), λ q. sym (ap (λ (r : World × Result (Unit {0})). r.1) (ok_injective e4)))

answer_succeeds :
    (a : Arrival) (got res : Result (Unit {0}))
    → answer a got ≡ res
    → (res ≡ value tt) ↔ ((got ≡ value tt) × (a ≡ response))
answer_succeeds response got res e = (λ q. (e ∙ q, refl), λ q. sym e ∙ q.0)
answer_succeeds organic got res e = (λ q. ground arith, λ q. ground arith)
answer_succeeds aborted got res e = (λ q. ground arith, λ q. ground arith)

-- A proxied connection leaves no waiter for its target, and succeeds exactly when the dialling and
-- the handshake do and the response comes first.
pub proxy_connect_ends :
    (password : Bool) (now timeout : ℕ) (target : Str) (env : ProxyEnv) (w w' : World)
    (res : Result (Unit {0}))
    → proxy_connect password now timeout target env w ≡ ok (w', res)
    → (lookup (ptr_of target w'.state) w'.state.conn_waiters ≡ none)
      × ((res ≡ value tt)
          ↔ ((env.dial_error ≡ none) × (env.handshake_error ≡ none) × (env.arrival ≡ response)))
unfolding proxy_connect
proxy_connect_ends password now timeout target env w w' res e =
    let ((w1, _), p1, e1) = bind-ok (Methods.set_conn_wait_info _ w) _ e in
    let ((w2, got), p2, e2) = bind-ok (dial_through password target env w1) _ e1 in
    let ((w3, _), p3, e3) = bind-ok (Methods.delete_conn_wait_info target w2) _ e2 in
    let same : w3 ≡ w' = ap (λ (r : World × Result (Unit {0})). r.0) (ok_injective e3) in
    let told : answer env.arrival got ≡ res =
      ap (λ (r : World × Result (Unit {0})). r.1) (ok_injective e3) in
    let (come, go) = answer_succeeds env.arrival got res told in
    let (come', go') =
      dial_through_succeeds password target env.dial_error env.handshake_error env.asks_password
        env.arrival w1 w2 got p2 in
    (
      rw (← same) (delete_conn_wait_info_gone target w2 w3 p3),
      (
        λ q. let (g, a) = come q in let (d, h) = come' g in (d, h, a),
        λ (d, h, a). go (go' (d, h), a),
      ),
    )
