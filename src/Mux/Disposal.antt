-- ===== src/Mux/Disposal.antt =====
-- controlmux.go: what a round of the handler leaves of the connection that its message came from.
use metassh.Base.{
  ℕ, ◌≡◌, refl, sym, ap, ◌∙◌, inl, inr, Bool, true, false, ◌||◌, List, [], arith, ◌==◌, Bool-cases,
  Outcome, ok, bind-ok, ok_injective,
}
use metassh.Mux.Messages.{
  ControlMsg, parse_new_session, mux_msg_hello, mux_c_alive_check, mux_c_new_session,
}
use metassh.Mux.Handler.{Mux, Action, SessionEnv, hello, alive_check, new_session, handle_msg}
use metassh.Mux.Sessions.{settles, settles-releases, new_session-Numbered}

-- The messages that the handler has a case for.
abbrev pub is_known : ℕ → Bool
is_known n = n == mux_msg_hello || (n == mux_c_alive_check || n == mux_c_new_session)

hello-settles : (p : List ℕ) → settles (hello p) ≡ true
unfolding hello
hello-settles p = ground arith

alive_check-settles : (pid : ℕ) (p : List ℕ) → settles (alive_check pid p) ≡ true
unfolding alive_check
alive_check-settles pid p = ground arith

new_session-settles :
    (m m' : Mux) (payload : List ℕ) (env : SessionEnv) (acts : List Action)
    → new_session m payload env ≡ ok (m', acts)
    → settles acts ≡ true
unfolding new_session
new_session-settles m m' payload env acts e =
    let (nsm, p, _) = bind-ok (parse_new_session payload) _ e in
    settles-releases acts (new_session-Numbered m m' payload env nsm acts p e).1.released

settled_as :
    (m m' : Mux) (acts acts' : List Action) (b : Bool)
    → ◌≡◌ {A = Outcome (Mux × List Action)} (ok (m, acts)) (ok (m', acts'))
    → settles acts ≡ b
    → settles acts' ≡ b
settled_as m m' acts acts' b e q =
    ap (λ (x : Mux × List Action). settles x.1) (sym (ok_injective e)) ∙ q

-- A round that comes to its end leaves the connection closed, read again, or to the goroutine that
-- waits for its session exactly if the handler has a case for the type of the message; with any
-- other message nobody closes or reads the connection any more.
pub handle_msg-settles :
    (pid : ℕ) (m m' : Mux) (msg : ControlMsg) (env : SessionEnv) (acts : List Action)
    → handle_msg pid m msg env ≡ ok (m', acts)
    → settles acts ≡ is_known msg.msg_type
unfolding handle_msg
handle_msg-settles pid m m' msg env acts e = elim (Bool-cases (msg.msg_type == mux_msg_hello)) [
  | inl y ↦
      rw y (settled_as m m' (hello msg.payload) acts true (rw y at e) (hello-settles msg.payload))
  | inr n ↦ elim (Bool-cases (msg.msg_type == mux_c_alive_check)) [
    | inl y ↦
        rw (n, y)
          (settled_as m m' (alive_check pid msg.payload) acts true (rw (n, y) at e)
            (alive_check-settles pid msg.payload))
    | inr n2 ↦ elim (Bool-cases (msg.msg_type == mux_c_new_session)) [
      | inl y ↦ rw (n, n2, y) (new_session-settles m m' msg.payload env acts (rw (n, n2, y) at e))
      | inr n3 ↦ rw (n, n2, n3) (settled_as m m' [] acts false (rw (n, n2, n3) at e) refl)
    ]
  ]
]
