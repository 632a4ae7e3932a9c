-- ===== src/Run/Verdicts.antt =====
-- run.go: what the response to a run says, with and without spooling.
use metassh.Base.{
  ℕ, ◌≡◌, refl, ap, ◌∙◌, ◌↔◌, Bool, true, false, Option, none, some, arith, Str, lookup, ok,
}
use metassh.Store.Serializer.{handle}
use metassh.Store.Methods.{Act, Job, ◌>>>◌, done}
use metassh.Store.Methods
use metassh.Store.Races.{ptr_of}
use metassh.Fleet.Proxy.{Arrival, response, organic, aborted}
use metassh.Run.Program.{Program}
use metassh.Run.Spool.{SpoolEnv, spool_handles}
use metassh.Run.Command.{
  WaitEnd, clean, exited, broken, RunResponse, RunEnv, wait_error, open_spool, pipe_error,
  final_error, first_of, run_cmd,
}
use metassh.Run.Parts.{responded, session_lem, run_cmd_parts}

wait_error-none : (w : WaitEnd) → (wait_error w ≡ none) ↔ (w ≡ clean)
wait_error-none clean = (λ q. refl, λ q. refl)
wait_error-none (exited status err) = (λ q. ground arith, λ q. ground arith)
wait_error-none (broken err) = (λ q. ground arith, λ q. ground arith)

plain_started :
    (env : RunEnv) (teeing opened : Bool) (session start : Option Str) (a : Arrival)
    → ((first_of a
          (responded session none (record env { start_error = start }) false teeing opened)).error
        ≡ none)
      ↔ ((session ≡ none) × (start ≡ none) × (env.wait_end ≡ clean) × (a ≡ response))
unfolding final_error
plain_started env teeing opened none none response =
    let (come, go) = wait_error-none env.wait_end in
    (λ q. (refl, refl, come q, refl), λ (_, _, w, _). go w)
plain_started env teeing opened (some err) start response = (λ q. ground arith, λ q. ground arith)
plain_started env teeing opened none (some err) response = (λ q. ground arith, λ q. ground arith)
plain_started env teeing opened session start organic = (λ q. ground arith, λ q. ground arith)
plain_started env teeing opened session start aborted = (λ q. ground arith, λ q. ground arith)

-- Whatever a run comes to, its waiter is gone; and without spooling it reports no error exactly
-- when the session, the start and the command are without one and the response comes first.
pub run_cmd_verdict :
    (me : Str) (now timer : ℕ) (env : RunEnv) (p p' : Program) (resp : RunResponse)
    → p.spool ≡ false
    → run_cmd me now timer env p ≡ ok (p', resp)
    → (lookup (ptr_of me p'.net.world.state) p'.net.world.state.run_waiters ≡ none)
      × ((resp.error ≡ none) ↔ (
          (env.session_error ≡ none)
          × (env.start_error ≡ none)
          × (env.wait_end ≡ clean)
          × (env.arrival ≡ response)))
unfolding open_spool pipe_error
run_cmd_verdict me now timer env p p' resp off e =
    let (p1, p2, got, spool, q, said, gone) = run_cmd_parts me now timer env p p' resp e in
    let unspooled = spool ∙ off in
    let is = session_lem me env p1 p1 p2 false got (rw (unspooled, open_spool) refl) q in
    (
      gone,
      rw
          (said
            ∙ ap (first_of env.arrival) (
                is
                ∙ ap (λ b. responded env.session_error (pipe_error b env) env b p1.tee false)
                    unspooled))
          (plain_started env p1.tee false env.session_error env.start_error env.arrival),
    )

open_spool_lem :
    (me : Str) (files : SpoolEnv) (p : Program)
    → p.spool ≡ true
    → (files.create_out ≡ none) × (files.create_err ≡ none) × (files.create_ret ≡ none)
    → open_spool me files p ≡ ok (p, true)
unfolding open_spool spool_handles Methods.get_ptr handle
open_spool_lem me files p on (a, b, c) = ground arith

spooled_started :
    (env : RunEnv) (teeing : Bool) (session outs errs start : Option Str) (a : Arrival)
    → ((first_of a (
          responded session
            (pipe_error true (record env { stdout_pipe_error = outs; stderr_pipe_error = errs }))
            (record env { start_error = start })
            true
            teeing
            true)).error
        ≡ none)
      ↔ ((session ≡ none)
          × (start ≡ none)
          × ((outs ≡ none) × (errs ≡ none) × (env.ret_write_error ≡ none))
          × (a ≡ response))
unfolding final_error pipe_error
spooled_started env teeing none none none none response =
    (λ q. (refl, refl, (refl, refl, q), refl), λ (_, _, (_, _, w), _). w)
spooled_started env teeing (some err) outs errs start response =
    (λ q. ground arith, λ q. ground arith)
spooled_started env teeing none (some err) errs start response =
    (λ q. ground arith, λ q. ground arith)
spooled_started env teeing none none (some err) start response =
    (λ q. ground arith, λ q. ground arith)
spooled_started env teeing none none none (some err) response =
    (λ q. ground arith, λ q. ground arith)
spooled_started env teeing session outs errs start organic = (λ q. ground arith, λ q. ground arith)
spooled_started env teeing session outs errs start aborted = (λ q. ground arith, λ q. ground arith)

-- The three spool files can be created.
abbrev pub CanSpool : SpoolEnv → Type 0
CanSpool files = (files.create_out ≡ none) × (files.create_err ≡ none) × (files.create_ret ≡ none)

-- What is asked of the end of a run: of one that is not spooled that the command ends well, and of
-- one that is spooled that its pipes are made and its exit code is written.
abbrev pub EndsWell : Bool → RunEnv → Type 0
EndsWell false env = env.wait_end ≡ clean
EndsWell true env =
    (env.stdout_pipe_error ≡ none) × (env.stderr_pipe_error ≡ none) × (env.ret_write_error ≡ none)

-- With the spool files open, a command that fails is no error of its run.
pub run_cmd_spooled :
    (me : Str) (now timer : ℕ) (env : RunEnv) (p p' : Program) (resp : RunResponse)
    → p.spool ≡ true
    → CanSpool env.spool_env
    → run_cmd me now timer env p ≡ ok (p', resp)
    → (resp.error ≡ none) ↔ (
        (env.session_error ≡ none)
        × (env.start_error ≡ none)
        × EndsWell true env
        × (env.arrival ≡ response))
run_cmd_spooled me now timer env p p' resp on files e =
    let (p1, p2, got, spool, q, said, gone) = run_cmd_parts me now timer env p p' resp e in
    let spooled = spool ∙ on in
    let is =
      session_lem me env p1 p1 p2 true got (open_spool_lem me env.spool_env p1 spooled files) q in
    rw
      (said
        ∙ ap (first_of env.arrival) (
            is
            ∙ ap (λ b. responded env.session_error (pipe_error b env) env b p1.tee true) spooled))
      (spooled_started env p1.tee env.session_error env.stdout_pipe_error env.stderr_pipe_error
        env.start_error env.arrival)
