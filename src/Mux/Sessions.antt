-- ===== src/Mux/Sessions.antt =====
-- controlmux.go: the sessions that the control socket opens.
use metassh.Base.{
  ℕ, ◌+◌, ◌%◌, ◌^◌, ◌≡◌, refl, sym, ap, inl, inr, Bool, true, false, Option, none, some, List, [],
  ◌∷◌, ◌++◌, arith, if◌then◌else◌, Bool-cases, if_both, All, ok, bind-ok, ok_injective,
}
use metassh.Mux.Messages.{NewSessionMsg, parse_new_session, opened_bytes, mux_s_session_opened}
use metassh.Mux.Handler.{
  Mux, Action, reply, close_conn, read_again, copy_stdin, copy_stdout, copy_stderr, start, shell,
  wait, SessionEnv, take_fd, launch, connect_pipes, setup_session, receive_fds, grant_session,
  new_session,
}

-- A goroutine that waits for a session waits for the session `sid`.
abbrev pub WaitsFor : ℕ → Action → Type 0
WaitsFor sid (wait n) = n ≡ sid
WaitsFor sid _ = Unit

-- The connection is closed, or left to `waiter`.
abbrev pub is_release : Action → Bool
is_release close_conn = true
is_release (wait n) = true
is_release _ = false

abbrev pub releases : List Action → Bool
releases [] = false
releases (a ∷ []) = is_release a
releases (a ∷ b ∷ acts) = releases (b ∷ acts)

-- The connection is closed, read again, or left to `waiter`.
abbrev pub is_final : Action → Bool
is_final close_conn = true
is_final read_again = true
is_final (wait n) = true
is_final _ = false

abbrev pub settles : List Action → Bool
settles [] = false
settles (a ∷ []) = is_final a
settles (a ∷ b ∷ acts) = settles (b ∷ acts)

-- A list of actions that ends with the connection closed or left to `waiter`, and waits for nothing but `sid`.
pub record Proper (sid : ℕ) (acts : List Action) : Type 0 where
  pub waits : All (WaitsFor sid) acts
  pub released : releases acts ≡ true

is_final-is_release : (a : Action) → is_release a ≡ true → is_final a ≡ true
is_final-is_release a e = ground arith

pub settles-releases : (acts : List Action) → releases acts ≡ true → settles acts ≡ true
settles-releases [] e = e
settles-releases (a ∷ []) e = is_final-is_release a e
settles-releases (a ∷ b ∷ acts) e = settles-releases (b ∷ acts) e

Proper-cons :
    (sid : ℕ) (a : Action) (acts : List Action)
    → WaitsFor sid a
    → Proper sid acts
    → Proper sid (a ∷ acts)
Proper-cons sid a [] w p = absurd (let e = p.released in cc)
Proper-cons sid a (b ∷ acts) w p = record { waits = (w, p.waits); released = p.released }

Proper-append :
    (sid : ℕ) (before acts : List Action)
    → All (WaitsFor sid) before
    → Proper sid acts
    → Proper sid (before ++ acts)
Proper-append sid [] acts w p = p
Proper-append sid (a ∷ before) acts (wa, w) p =
    Proper-cons sid a (before ++ acts) wa (Proper-append sid before acts w p)

Proper-close : (sid : ℕ) → Proper sid (close_conn ∷ [])
Proper-close sid = record { waits = (tt, tt); released = refl }

launch-Proper : (nsm : NewSessionMsg) (env : SessionEnv) (sid : ℕ) → Proper sid (launch nsm env sid)
unfolding launch
launch-Proper nsm env sid =
    Proper-cons sid _ _ (if_both (WaitsFor sid) _ shell (start nsm.command) tt tt) (
      if_both (Proper sid) _ (wait sid ∷ []) (close_conn ∷ [])
        (record { waits = (refl, tt); released = refl }) (Proper-close sid))

connect_pipes-Proper :
    (nsm : NewSessionMsg) (env : SessionEnv) (sid a b c : ℕ)
    → Proper sid (connect_pipes nsm env sid a b c)
unfolding connect_pipes
connect_pipes-Proper nsm env sid a b c =
    if_both (Proper sid) _ _ (close_conn ∷ [])
      (Proper-append sid _ _ (if_both (All (WaitsFor sid)) _ (copy_stdin a ∷ []) [] (tt, tt) tt) (
        Proper-append sid (copy_stdout b ∷ copy_stderr c ∷ []) _ (tt, (tt, tt))
          (launch-Proper nsm env sid)))
      (Proper-close sid)

setup_session-Proper :
    (nsm : NewSessionMsg) (env : SessionEnv) (sid a b c : ℕ)
    → Proper sid (setup_session nsm env sid a b c)
unfolding setup_session
setup_session-Proper nsm env sid a b c =
    let pipes = connect_pipes-Proper nsm env sid a b c in
    if_both (Proper sid) _ _ _
      (Proper-cons sid _ _ tt (if_both (Proper sid) _ _ (close_conn ∷ []) pipes (Proper-close sid)))
      pipes

take_fd_waits :
    (sid fd : ℕ) (o : Option (List ℕ)) (acts : List Action)
    → take_fd o ≡ ok (fd, acts)
    → All (WaitsFor sid) acts
unfolding take_fd
take_fd_waits sid fd none acts e = ground arith
take_fd_waits sid fd (some []) acts e = cc
take_fd_waits sid fd (some (f ∷ fds)) acts e = ground arith

receive_fds-Proper :
    (nsm : NewSessionMsg) (env : SessionEnv) (sid : ℕ) (acts : List Action)
    → receive_fds nsm env sid ≡ ok acts
    → Proper sid acts
unfolding receive_fds
receive_fds-Proper nsm env sid acts e =
    let ((a, acts0), p, e0) = bind-ok (take_fd env.fd_in) _ e in
    let ((b, acts1), q, e1) = bind-ok (take_fd env.fd_out) _ e0 in
    let ((c, acts2), r, e2) = bind-ok (take_fd env.fd_err) _ e1 in
    rw (← ok_injective e2) (
      Proper-append sid acts0 _ (take_fd_waits sid a env.fd_in acts0 p) (
        Proper-append sid acts1 _ (take_fd_waits sid b env.fd_out acts1 q) (
          Proper-append sid acts2 _ (take_fd_waits sid c env.fd_err acts2 r)
            (setup_session-Proper nsm env sid a b c))))

-- The counter gives out `sid` for the request `rid` if the library grants a session.
abbrev pub Numbered : Bool → ℕ → ℕ → Mux → List Action → Type 0
Numbered granted rid sid m' acts =
    (m'.sesscounter ≡ (if granted then (sid + 1) % 2 ^ 32 else sid))
    × Proper sid acts
    × (granted ≡ true
        → (rest : List Action) × (acts
            ≡ reply (
                opened_bytes (record {
                  msg_type = mux_s_session_opened;
                  client_req_id = rid;
                  session_id = sid;
                }))
              ∷ rest))

grant_session-Numbered :
    (m m' : Mux) (env : SessionEnv) (nsm : NewSessionMsg) (acts : List Action)
    → grant_session m nsm env ≡ ok (m', acts)
    → Numbered true nsm.request_id m.sesscounter m' acts
unfolding grant_session
grant_session-Numbered m m' env nsm acts e =
    let (rest, q, r) = bind-ok (receive_fds nsm env m.sesscounter) _ e in
    let same = ok_injective r in
    (
      ap (λ (x : Mux × List Action). x.0.sesscounter) (sym same),
      rw (← ap (λ (x : Mux × List Action). x.1) same)
          (Proper-cons m.sesscounter _ rest tt (receive_fds-Proper nsm env m.sesscounter rest q)),
      λ _. (rest, ap (λ (x : Mux × List Action). x.1) (sym same)),
    )

-- A request for a session that the SSH library grants is answered with the session number, which
-- the counter gives out and moves past; the goroutine that will report the exit has that number.
-- One that is refused leaves the counter alone. Either way the connection is not dropped: it is
-- closed, or left to that goroutine.
pub new_session-Numbered :
    (m m' : Mux) (payload : List ℕ) (env : SessionEnv) (nsm : NewSessionMsg) (acts : List Action)
    → parse_new_session payload ≡ ok nsm
    → new_session m payload env ≡ ok (m', acts)
    → Numbered env.session_ok nsm.request_id m.sesscounter m' acts
unfolding new_session
new_session-Numbered m m' payload env nsm acts p e = elim (Bool-cases env.session_ok) [
  | inl y ↦ rw y (grant_session-Numbered m m' env nsm acts (rw (p, y, new_session) at e))
  | inr n ↦
      let same = ok_injective (rw (p, n, new_session) at e) in
      rw n (
        ap (λ (x : Mux × List Action). x.0.sesscounter) (sym same),
        rw (← ap (λ (x : Mux × List Action). x.1) same) (Proper-close m.sesscounter),
        λ f. cc,
      )
]
