-- ===== src/Cli/Clearing.antt =====
-- commands.go: what `clear` leaves.
use metassh.Base.{
  ◌≡◌, refl, sym, ap, ◌∙◌, true, Option, none, [], ◌++◌, Outcome, ok, bind-ok, ok_injective, Ends,
  Ends-bind,
}
use metassh.Store.Serializer.{handle}
use metassh.Store.Methods.{◌>>>◌, done}
use metassh.Store.Methods
use metassh.Store.Waiters.{Fresh}
use metassh.Fleet.Net.{Net, Options}
use metassh.Fleet.Disconnect.{disconnect_everywhere}
use metassh.Fleet.Sweeps.{conns, disconnect_everywhere-conns}
use metassh.Fleet.Reported.{targets}
use metassh.Fleet.Manned.{Manned, disconnect_everywhere-Ends}
use metassh.Run.Program.{Program, on_net}
use metassh.Cli.Commands.{CmdErr, clear}

on_net-ok :
    {A : Type 0} (job : Net → Outcome (Net × A)) (p p' : Program) (a : A)
    → on_net job p ≡ ok (p', a)
    → job p.net ≡ ok (p'.net, a)
on_net-ok {A} job p p' a e =
    let ((net1, b), q, e1) = bind-ok (job p.net) _ e in
    q ∙ ap (λ (x : Program × A). ok (x.0.net, x.1)) (ok_injective e1)

-- A `clear` that returns leaves neither a connection nor a target, and has no error.
pub clear_empties :
    (opts : Options) (p p' : Program) (err : Option CmdErr)
    → clear opts p ≡ ok (p', err)
    → (conns p'.net ≡ []) × (targets p'.net ≡ []) × (err ≡ none)
unfolding clear Methods.clear_host_info handle
clear_empties opts p p' err e =
    let ((p1, _), q1, e1) = bind-ok (on_net (disconnect_everywhere opts true) p) _ e in
    let (empty, _) =
      disconnect_everywhere-conns opts true p.net p1.net
        (on_net-ok (disconnect_everywhere opts true) p p1 tt q1) in
    let same = ok_injective e1 in
    (
      sym (ap (λ (x : Program × Option CmdErr). conns x.0.net) same) ∙ empty refl,
      sym (ap (λ (x : Program × Option CmdErr). targets x.0.net) same),
      sym (ap (λ (x : Program × Option CmdErr). x.1) same),
    )

-- If the waiters' channels are distinct and empty, and every connection is manned, `clear`
-- returns.
pub clear-Ends :
    (opts : Options) (p : Program)
    → Fresh p.net.world.slots (p.net.world.state.conn_waiters ++ p.net.world.state.run_waiters)
    → Manned opts p.net
    → Ends (clear opts p)
unfolding clear Methods.clear_host_info handle
clear-Ends opts p fresh manned =
    Ends-bind (on_net (disconnect_everywhere opts true) p) _
      (Ends-bind (disconnect_everywhere opts true p.net) _
        (disconnect_everywhere-Ends opts true p.net fresh manned) λ r _. (_, refl))
      λ r _. (_, refl)

-- If the waiters' channels are distinct and empty, and every connection is manned, `clear` returns
-- without an error, and leaves neither a connection nor a target.
pub clear_lem :
    (opts : Options) (p : Program)
    → Fresh p.net.world.slots (p.net.world.state.conn_waiters ++ p.net.world.state.run_waiters)
    → Manned opts p.net
    → (p' : Program) × (clear opts p ≡ ok (p', none)) × (conns p'.net ≡ []) × (targets p'.net ≡ [])
clear_lem opts p fresh manned =
    let ((p', err), e) = clear-Ends opts p fresh manned in
    let (no_conns, no_targets, fine) = clear_empties opts p p' err e in
    (p', e ∙ ap (λ (o : Option CmdErr). ok (p', o)) fine, no_conns, no_targets)
