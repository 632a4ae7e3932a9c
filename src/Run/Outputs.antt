-- ===== src/Run/Outputs.antt =====
-- run.go: the output of a run, and a run on one host with a muted output.
use metassh.Base.{
  ℕ, ◌<◌, ◌≡◌, refl, ap, ◌∙◌, inl, inr, Bool, true, false, Option, none, some, [], if◌then◌else◌,
  Bool-cases, Str, str_eq, lookup, ok, blocked,
}
use metassh.Store.Types.{ConnInfo}
use metassh.Store.Races.{get_conn_info_alone}
use metassh.Fleet.Proxy.{Arrival, response, organic, aborted}
use metassh.Fleet.Resolve.{reach}
use metassh.Run.Program.{Program}
use metassh.Run.Command.{RunResponse, RunEnv, open_spool, pipe_error, first_of, run_cmd}
use metassh.Run.Parts.{responded, session_lem, run_cmd_parts}
use metassh.Run.Everywhere.{Runs, run_one}
use metassh.Run.Ends.{run_cmd_plain}
use metassh.Run.Statuses.{set_run_status_lem, status_of, not_zero}

-- The output that the requester of a run gets, without spooling.
abbrev spoken_by : Option Str → Option Str → Arrival → Str → Str
spoken_by none none response out = out
spoken_by none none organic out = []
spoken_by none none aborted out = []
spoken_by none (some err) a out = []
spoken_by (some err) start a out = []

abbrev pub spoken : RunEnv → Str
spoken env = spoken_by env.session_error env.start_error env.arrival env.written_out

plain_output :
    (env : RunEnv) (teeing opened : Bool) (session start : Option Str) (a : Arrival)
    → (first_of a
        (responded session none (record env { start_error = start }) false teeing opened)).std_out
      ≡ spoken_by session start a env.written_out
plain_output env teeing opened none none response = refl
plain_output env teeing opened none none organic = refl
plain_output env teeing opened none none aborted = refl
plain_output env teeing opened none (some err) response = refl
plain_output env teeing opened none (some err) organic = refl
plain_output env teeing opened none (some err) aborted = refl
plain_output env teeing opened (some err) start response = refl
plain_output env teeing opened (some err) start organic = refl
plain_output env teeing opened (some err) start aborted = refl

run_cmd-spoken :
    (me : Str) (now timer : ℕ) (env : RunEnv) (p p' : Program) (resp : RunResponse)
    → p.spool ≡ false
    → run_cmd me now timer env p ≡ ok (p', resp)
    → resp.std_out ≡ spoken env
unfolding open_spool pipe_error
run_cmd-spoken me now timer env p p' resp off e =
    let (p1, p2, got, spool, q, said, gone) = run_cmd_parts me now timer env p p' resp e in
    let unspooled = spool ∙ off in
    let is = session_lem me env p1 p1 p2 false got (rw (unspooled, open_spool) refl) q in
    ap (λ (r : RunResponse). r.std_out)
      (said
        ∙ ap (first_of env.arrival) (
            is
            ∙ ap (λ b. responded env.session_error (pipe_error b env) env b p1.tee false)
                unspooled))
    ∙ plain_output env p1.tee false env.session_error env.start_error env.arrival

-- A muted run on one host is the unmuted one if it has no output, and waits for good otherwise.
pub run_one-quiet :
    (runs : Runs) (h : Str) (ci : ConnInfo) (p : Program)
    → lookup h p.net.world.state.conn ≡ some ci
    → 0 < p.net.listeners ci.req_chan
    → p.spool ≡ false
    → run_one runs true h p
      ≡ (if str_eq (spoken (runs.runs_on h)) [] then run_one runs false h p else blocked)
unfolding run_one reach
run_one-quiet runs h ci p there listened off =
    let env = runs.runs_on h in
    let (p1, resp, e, _, _) = run_cmd_plain h (runs.started_at h) (runs.timer h) env p off in
    let out = run_cmd-spoken h (runs.started_at h) (runs.timer h) env p p1 resp off e in
    rw (get_conn_info_alone h p.net.world, there)
      (rw (not_zero (p.net.listeners ci.req_chan) listened) (
        rw e (
          rw (set_run_status_lem (status_of runs h resp) p1) (
            rw (← out) (elim (Bool-cases (str_eq resp.std_out [])) [
              | inl silent ↦ rw silent refl
              | inr loud ↦ rw loud refl
            ])))))
