-- ===== src/Run/Ends.antt =====
-- run.go: a run always ends with a response.
use metassh.Base.{
  ℕ, ◌≡◌, refl, ◌↔◌, Bool, true, false, Option, none, some, Str, lookup, Outcome, ok, Ends,
  Ends-bind, if-Ends, option-Ends,
}
use metassh.Store.Types.{state_running, state_done}
use metassh.Store.Serializer.{handle}
use metassh.Store.Methods.{Job, ◌>>>◌, done}
use metassh.Store.Methods
use metassh.Run.Program.{Program, on_state}
use metassh.Run.Spool.{SpoolEnv, spool_handles}
use metassh.Run.Command.{
  RunResponse, RunEnv, failed, open_spool, pipe_error, run_started, run_session, run_cmd,
}
use metassh.Run.Parts.{started, run_cmd_parts}
use metassh.Run.Verdicts.{run_cmd_verdict, run_cmd_spooled, CanSpool, EndsWell}
use metassh.Store.Races.{ptr_of}
use metassh.Fleet.Proxy.{response}
use metassh.Run.Command.{clean}

run_started-Ends :
    (me : Str) (env : RunEnv) (spooling teeing opened : Bool) (p : Program)
    → Ends (run_started me env spooling teeing opened p)
unfolding run_started Methods.set_run_wait_state Methods.get_ptr handle
run_started-Ends me env spooling teeing opened p = go env.start_error _
  where
    go :
        (o : Option Str) (p1 : Program)
        → Ends (
            (elim o as (λ _. Job Program RunResponse) [
              | some err ↦ done (failed err)
              | none ↦ on_state (Methods.set_run_wait_state me state_running) >>> λ _.
                  on_state (Methods.set_run_wait_state me state_done) >>> λ _.
                  done (started none env spooling teeing opened)
            ])
              p1)
    go (some err) p1 = (_, refl)
    go none p1 = (_, refl)

open_spool-Ends : (me : Str) (files : SpoolEnv) (p : Program) → Ends (open_spool me files p)
unfolding open_spool Methods.get_ptr handle
open_spool-Ends me files p =
    if-Ends p.spool _ _
      (option-Ends (spool_handles p.spool_dir _ files).spool_error _ _ (_, refl) λ err. (_, refl))
      (_, refl)

run_session-Ends : (me : Str) (env : RunEnv) (p : Program) → Ends (run_session me env p)
unfolding run_session
run_session-Ends me env p =
    Ends-bind (open_spool me env.spool_env p) _ (open_spool-Ends me env.spool_env p)
      λ r _. go r.0 r.1 env.session_error (pipe_error r.0.spool env)
  where
    go :
        (p1 : Program) (opened : Bool) (s t : Option Str)
        → Ends (elim s as (λ _. Outcome (Program × RunResponse)) [
          | some err ↦ ok (p1, failed err)
          | none ↦ elim t [
            | some err ↦ ok (p1, failed err)
            | none ↦ run_started me env p1.spool p1.tee opened p1
          ]
        ])
    go p1 opened (some err) t = (_, refl)
    go p1 opened none (some err) = (_, refl)
    go p1 opened none none = run_started-Ends me env p1.spool p1.tee opened p1

run_cmd-Ends :
    (me : Str) (now timer : ℕ) (env : RunEnv) (p : Program) → Ends (run_cmd me now timer env p)
unfolding run_cmd Methods.set_run_wait_info Methods.delete_run_wait_info Methods.get_ptr handle
run_cmd-Ends me now timer env p =
    Ends-bind (run_session me env _) _ (run_session-Ends me env _) λ r _. (_, refl)

verdict :
    (b : Bool) (me : Str) (now timer : ℕ) (env : RunEnv) (p p' : Program) (resp : RunResponse)
    → p.spool ≡ b
    → (b ≡ true → CanSpool env.spool_env)
    → run_cmd me now timer env p ≡ ok (p', resp)
    → (resp.error ≡ none) ↔ (
        (env.session_error ≡ none)
        × (env.start_error ≡ none)
        × EndsWell b env
        × (env.arrival ≡ response))
verdict true me now timer env p p' resp on files e =
    run_cmd_spooled me now timer env p p' resp on (files refl) e
verdict false me now timer env p p' resp off files e =
    (run_cmd_verdict me now timer env p p' resp off e).1

-- A run ends with a response, whatever the host, the files and the timer do, and its waiter is gone.
-- If spooling is off, or the spool files can be created, it reports no error exactly when the
-- session and the start are without one, the response comes first, and it ends well: without
-- spooling, if the command does; with spooling, if the pipes are made and the exit code is written,
-- however the command ends.
pub run_cmd_lem :
    (me : Str) (now timer : ℕ) (env : RunEnv) (p : Program)
    → (p' : Program) × (resp : RunResponse) × (run_cmd me now timer env p ≡ ok (p', resp))
      × (lookup (ptr_of me p'.net.world.state) p'.net.world.state.run_waiters ≡ none)
      × ((p.spool ≡ true → CanSpool env.spool_env)
          → (resp.error ≡ none) ↔ (
              (env.session_error ≡ none)
              × (env.start_error ≡ none)
              × EndsWell p.spool env
              × (env.arrival ≡ response)))
run_cmd_lem me now timer env p =
    let ((p', resp), e) = run_cmd-Ends me now timer env p in
    let (_, _, _, _, _, _, gone) = run_cmd_parts me now timer env p p' resp e in
    (p', resp, e, gone, λ files. verdict p.spool me now timer env p p' resp refl files e)

-- The same without spooling.
pub run_cmd_plain :
    (me : Str) (now timer : ℕ) (env : RunEnv) (p : Program)
    → p.spool ≡ false
    → (p' : Program) × (resp : RunResponse) × (run_cmd me now timer env p ≡ ok (p', resp))
      × (lookup (ptr_of me p'.net.world.state) p'.net.world.state.run_waiters ≡ none)
      × ((resp.error ≡ none) ↔ (
          (env.session_error ≡ none)
          × (env.start_error ≡ none)
          × (env.wait_end ≡ clean)
          × (env.arrival ≡ response)))
run_cmd_plain me now timer env p off =
    let ((p', resp), e) = run_cmd-Ends me now timer env p in
    let (gone, verdict) = run_cmd_verdict me now timer env p p' resp off e in
    (p', resp, e, gone, verdict)
