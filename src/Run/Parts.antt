-- ===== src/Run/Parts.antt =====
-- run.go: the steps of a run, and the response that they give.
use metassh.Base.{
  ℕ, ◌≡◌, sym, ap, ◌∙◌, Bool, Option, none, some, Str, lookup, lookup-delete_self, Outcome, ok,
  bind-ok, ok_injective,
}
use metassh.Fleet.Net.{Net, on_world}
use metassh.Store.Types.{
  World, WaitInfo, state_new_session, state_start_session, state_running, state_done,
}
use metassh.Store.Serializer.{handle}
use metassh.Store.Methods.{Act, Job, ◌>>>◌, done}
use metassh.Store.Methods
use metassh.Store.Races.{ptr_of}
use metassh.Run.Program.{Program, on_state}
use metassh.Run.Command.{
  RunResponse, RunEnv, failed, exit_status, kept, open_spool, pipe_error, final_error, run_started,
  run_session, first_of, run_cmd,
}

-- The response from `session.Start` on, whose error comes first.
abbrev pub started : Option Str → RunEnv → Bool → Bool → Bool → RunResponse
started (some err) env spooling teeing opened = failed err
started none env spooling teeing opened = record {
  std_out = kept spooling teeing env.written_out;
  std_err = kept spooling teeing env.written_err;
  exit_code = exit_status env.wait_end;
  error = final_error spooling opened env;
}

told : (resp : RunResponse) (p p' : Program) (x : RunResponse) → done x p ≡ ok (p', resp) → resp ≡ x
told resp p p' x e = sym (ap (λ (r : Program × RunResponse). r.1) (ok_injective e))

run_started_lem :
    (me : Str) (env : RunEnv) (spooling teeing opened : Bool) (p p' : Program) (resp : RunResponse)
    → run_started me env spooling teeing opened p ≡ ok (p', resp)
    → resp ≡ started env.start_error env spooling teeing opened
unfolding run_started
run_started_lem me env spooling teeing opened p p' resp e =
    let ((p1, _), q1, e1) =
      bind-ok (on_state (Methods.set_run_wait_state me state_start_session) p) _ e in
    go env.start_error p1 e1
  where
    go :
        (o : Option Str) (p1 : Program)
        → (elim o as (λ _. Job Program RunResponse) [
          | some err ↦ done (failed err)
          | none ↦ on_state (Methods.set_run_wait_state me state_running) >>> λ _.
              on_state (Methods.set_run_wait_state me state_done) >>> λ _.
              done (started none env spooling teeing opened)
        ])
            p1
          ≡ ok (p', resp)
        → resp ≡ started o env spooling teeing opened
    go (some err) p1 e1 = told resp p1 p' (failed err) e1
    go none p1 e1 =
        let ((p2, _), q2, e2) =
          bind-ok (on_state (Methods.set_run_wait_state me state_running) p1) _ e1 in
        let ((p3, _), q3, e3) =
          bind-ok (on_state (Methods.set_run_wait_state me state_done) p2) _ e2 in
        told resp p3 p' (started none env spooling teeing opened) e3

-- The whole response: the errors of the session, of the pipes, of the start.
abbrev pub responded : Option Str → Option Str → RunEnv → Bool → Bool → Bool → RunResponse
responded (some err) pipe env spooling teeing opened = failed err
responded none (some err) env spooling teeing opened = failed err
responded none none env spooling teeing opened = started env.start_error env spooling teeing opened

pub session_lem :
    (me : Str) (env : RunEnv) (p p1 p' : Program) (opened : Bool) (resp : RunResponse)
    → open_spool me env.spool_env p ≡ ok (p1, opened)
    → run_session me env p ≡ ok (p', resp)
    → resp ≡ responded env.session_error (pipe_error p1.spool env) env p1.spool p1.tee opened
unfolding run_session
session_lem me env p p1 p' opened resp o e =
    go env.session_error (pipe_error p1.spool env) (rw (o, run_session) at e)
  where
    go :
        (s t : Option Str)
        → (elim s as (λ _. Outcome (Program × RunResponse)) [
          | some err ↦ ok (p1, failed err)
          | none ↦ elim t [
            | some err ↦ ok (p1, failed err)
            | none ↦ run_started me env p1.spool p1.tee opened p1
          ]
        ])
          ≡ ok (p', resp)
        → resp ≡ responded s t env p1.spool p1.tee opened
    go (some err) t f = told resp p1 p' (failed err) f
    go none (some err) f = told resp p1 p' (failed err) f
    go none none f = run_started_lem me env p1.spool p1.tee opened p1 p' resp f

on_state_keeps :
    {A : Type 0} (act : Act A) (p p' : Program) (a : A)
    → on_state act p ≡ ok (p', a)
    → (p'.spool ≡ p.spool)
      × (p'.tee ≡ p.tee)
      × (p'.spool_dir ≡ p.spool_dir)
      × (act p.net.world ≡ ok (p'.net.world, a))
on_state_keeps {A} act p p' a e =
    let ((net1, b), q, e1) = bind-ok (on_world act p.net) _ e in
    let ((w, c), r, e2) = bind-ok (act p.net.world) _ q in
    let same = ok_injective e1 in
    let same' = ok_injective e2 in
    (
      sym (ap (λ (x : Program × A). x.0.spool) same),
      sym (ap (λ (x : Program × A). x.0.tee) same),
      sym (ap (λ (x : Program × A). x.0.spool_dir) same),
      r
          ∙ ap (λ (x : Net × A). ok (x.0.world, x.1)) same'
          ∙ ap (λ (x : Program × A). ok (x.0.net.world, x.1)) same,
    )

run_waiter_gone :
    (me : Str) (w w' : World)
    → Methods.delete_run_wait_info me w ≡ ok (w', tt)
    → lookup (ptr_of me w'.state) w'.state.run_waiters ≡ none
unfolding Methods.delete_run_wait_info Methods.get_ptr handle
run_waiter_gone me w w' e =
    let same = ap (λ (r : World × Unit {0}). r.0) (ok_injective e) in
    rw (← same) (lookup-delete_self (ptr_of me w.state) w.state.run_waiters)

abbrev waiter_of : Str → ℕ → ℕ → WaitInfo
waiter_of me now timer = record {
  host_name = me;
  state = state_new_session;
  start_time = now;
  timeout_chan = timer;
}

-- A run is a session between the two changes of its waiter, and the choice of a response.
pub run_cmd_parts :
    (me : Str) (now timer : ℕ) (env : RunEnv) (p p' : Program) (resp : RunResponse)
    → run_cmd me now timer env p ≡ ok (p', resp)
    → (p1 : Program) × (p2 : Program) × (got : RunResponse) × (p1.spool ≡ p.spool)
      × (run_session me env p1 ≡ ok (p2, got))
      × (resp ≡ first_of env.arrival got)
      × (lookup (ptr_of me p'.net.world.state) p'.net.world.state.run_waiters ≡ none)
unfolding run_cmd
run_cmd_parts me now timer env p p' resp e =
    let ((p1, _), q1, e1) =
      bind-ok (on_state (Methods.set_run_wait_info (waiter_of me now timer)) p) _ e in
    let ((p2, got), q2, e2) = bind-ok (run_session me env p1) _ e1 in
    let ((p3, _), q3, e3) = bind-ok (on_state (Methods.delete_run_wait_info me) p2) _ e2 in
    let (spool, _, _, _) =
      on_state_keeps (Methods.set_run_wait_info (waiter_of me now timer)) p p1 tt q1 in
    let (_, _, _, gone) = on_state_keeps (Methods.delete_run_wait_info me) p2 p3 tt q3 in
    let same : p3 ≡ p' = ap (λ (r : Program × RunResponse). r.0) (ok_injective e3) in
    (
      p1,
      p2,
      got,
      spool,
      q2,
      told resp p3 p' (first_of env.arrival got) e3,
      rw (← same) (run_waiter_gone me p2.net.world p3.net.world gone),
    )
