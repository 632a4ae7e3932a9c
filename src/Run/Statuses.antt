-- ===== src/Run/Statuses.antt =====
-- run.go: the statuses that a run on all connections leaves.
use metassh.Base.{
  ℕ, ◌<◌, ◌≡◌, refl, ap, ◌∙◌, ◌↔◌, Bool, true, false, not, Option, none, some, [], ◌∷◌, ◌++◌, arith,
  ◌==◌, if◌then◌else◌, Str, str_eq, str_eq_refl, is_some, lookup, modify, lookup-modify, ok,
}
use metassh.Store.Types.{HostInfo, ConnInfo, RunStatus, State}
use metassh.Store.Serializer.{handle, with_run}
use metassh.Store.Methods.{Job, ◌>>>◌, done}
use metassh.Store.Methods
use metassh.Store.Races.{get_conn_info_alone}
use metassh.Fleet.Net.{Net}
use metassh.Fleet.Proxy.{response}
use metassh.Fleet.Resolve.{reach}
use metassh.Run.Program.{Program, Printed, result, on_state, say}
use metassh.Run.Command.{RunResponse, RunEnv, clean, run_cmd}
use metassh.Run.Everywhere.{Runs, run_one}
use metassh.Run.Ends.{run_cmd_plain}
use metassh.Run.Steady.{run_cmd-Keeps}

-- Everything goes well on a host, and in time.
abbrev pub GoesWell : RunEnv → Type 0
GoesWell env =
    (env.session_error ≡ none)
    × (env.start_error ≡ none)
    × (env.wait_end ≡ clean)
    × (env.arrival ≡ response)

-- The target is as the run of its command leaves it.
abbrev pub IsReported : Runs → Str → HostInfo → HostInfo → Type 0
IsReported runs h hi hi' =
    (hi'.run_once ≡ true)
    × (hi'.run_time ≡ runs.elapsed h)
    × ((hi'.run_ok ≡ true) ↔ GoesWell (runs.runs_on h))
    × (hi'.connected_ok ≡ hi.connected_ok)

-- A connection that is not a proxy's is listened to.
abbrev pub IsListened : Program → Type 0
IsListened p =
    (h : Str) (ci : ConnInfo)
    → lookup h p.net.world.state.conn ≡ some ci
    → 0 < p.net.listeners ci.req_chan

-- One host after another: the connections stay, its target is reported, the others stay.
abbrev pub Reports : Runs → Str → Program → Program → Type 0
Reports runs h p p' =
    (p'.net.world.state.conn ≡ p.net.world.state.conn)
    × (p'.net.listeners ≡ p.net.listeners)
    × (p'.spool ≡ false)
    × ((hi : HostInfo)
        → lookup h p.net.world.state.targets ≡ some hi
        → (hi' : HostInfo) × (lookup h p'.net.world.state.targets ≡ some hi')
          × IsReported runs h hi hi')
    × ((j : Str)
        → str_eq h j ≡ false
        → lookup j p'.net.world.state.targets ≡ lookup j p.net.world.state.targets)

no_error : (o : Option Str) → (not (is_some o) ≡ true) ↔ (o ≡ none)
no_error none = (λ e. refl, λ e. refl)
no_error (some err) = (λ e. cc, λ e. cc)

abbrev pub status_of : Runs → Str → RunResponse → RunStatus
status_of runs h resp = record {
  host_name = h;
  run_ok = not (is_some resp.error);
  run_once = true;
  run_time = runs.elapsed h;
  last_error = resp.error;
  cmd_output = resp.std_out;
}

-- The state with the status filed, if its target is still one.
abbrev filed : RunStatus → State → State
filed srs s =
    if is_some (lookup srs.host_name s.targets)
    then record s { targets = modify srs.host_name (with_run srs) s.targets }
    else s

filed-conn : (srs : RunStatus) (s : State) → (filed srs s).conn ≡ s.conn
filed-conn srs s = ground arith

filed-there :
    (srs : RunStatus) (s : State) (hi : HostInfo)
    → lookup srs.host_name s.targets ≡ some hi
    → lookup srs.host_name (filed srs s).targets ≡ some (with_run srs hi)
filed-there srs s hi e = ground (
  arith,
  e,
  str_eq_refl srs.host_name,
  lookup-modify srs.host_name srs.host_name (with_run srs) s.targets,
)

filed-apart :
    (srs : RunStatus) (s : State) (j : Str)
    → str_eq srs.host_name j ≡ false
    → lookup j (filed srs s).targets ≡ lookup j s.targets
filed-apart srs s j apart =
    ground (arith, apart, lookup-modify srs.host_name j (with_run srs) s.targets)

abbrev pub statused : RunStatus → Program → Program
statused srs p = record p {
  net = record (p.net) { world = record (p.net.world) { state = filed srs p.net.world.state } };
}

pub set_run_status_lem :
    (srs : RunStatus) (p : Program)
    → on_state (Methods.set_run_status srs) p ≡ ok (statused srs p, tt)
unfolding Methods.set_run_status handle
set_run_status_lem srs p = refl

-- What is printed of the response changes nothing else.
abbrev shown : Bool → Printed → Job Program (Unit {0})
shown silent out = if silent then done tt else say out

shown_lem :
    (silent : Bool) (out : Printed) (p : Program)
    → (p' : Program) × (shown silent out p ≡ ok (p', tt)) × (p'.net ≡ p.net) × (p'.spool ≡ p.spool)
shown_lem true out p = (p, refl, refl, refl)
shown_lem false out p = (record p { printed = p.printed ++ (out ∷ []) }, refl, refl, refl)

pub not_zero : (n : ℕ) → 0 < n → (n == 0) ≡ false
not_zero n h = ground arith

run_one_lem :
    (runs : Runs) (h : Str) (ci : ConnInfo) (p p1 p2 : Program) (resp : RunResponse)
    → lookup h p.net.world.state.conn ≡ some ci
    → 0 < p.net.listeners ci.req_chan
    → run_cmd h (runs.started_at h) (runs.timer h) (runs.runs_on h) p ≡ ok (p1, resp)
    → shown
        (str_eq resp.std_out [])
        (result h (runs.elapsed h) resp.exit_code resp.error resp.std_out)
        (statused (status_of runs h resp) p1)
      ≡ ok (p2, tt)
    → run_one runs false h p ≡ ok (p2, tt)
unfolding run_one reach
run_one_lem runs h ci p p1 p2 resp there listened e f =
    rw (get_conn_info_alone h p.net.world, there)
      (rw (not_zero (p.net.listeners ci.req_chan) listened)
        (rw e (rw (set_run_status_lem (status_of runs h resp) p1) f)))

-- A run on one connected host, with an output that is not muted, comes to an end and reports it.
pub run_one-Reports :
    (runs : Runs) (h : Str) (ci : ConnInfo) (p : Program)
    → lookup h p.net.world.state.conn ≡ some ci
    → 0 < p.net.listeners ci.req_chan
    → p.spool ≡ false
    → (p' : Program) × (run_one runs false h p ≡ ok (p', tt)) × Reports runs h p p'
unfolding run_one reach Methods.set_run_status handle
run_one-Reports runs h ci p there listened off =
    let env = runs.runs_on h in
    let (p1, resp, e, _, verdict) = run_cmd_plain h (runs.started_at h) (runs.timer h) env p off in
    let same = run_cmd-Keeps h (runs.started_at h) (runs.timer h) env p p1 resp e in
    let srs = status_of runs h resp in
    let printed = result h (runs.elapsed h) resp.exit_code resp.error resp.std_out in
    let (p2, f, net, spool) = shown_lem (str_eq resp.std_out []) printed (statused srs p1) in
    let st = p1.net.world.state in
    let (fine, well) = no_error resp.error in
    let (come, go) = verdict in
    (
      p2,
      run_one_lem runs h ci p p1 p2 resp there listened e f,
      (
        ap (λ (n : Net). n.world.state.conn) net ∙ filed-conn srs st ∙ same.conn,
        ap (λ (n : Net). n.listeners) net ∙ same.listeners,
        spool ∙ same.unspooled off,
        λ hi at_h. (
          with_run srs hi,
          ap (λ (n : Net). lookup h n.world.state.targets) net
              ∙ filed-there srs st hi (ap (lookup h) same.targets ∙ at_h),
          (refl, refl, (λ q. come (fine q), λ q. well (go q)), refl),
        ),
        λ j apart.
            ap (λ (n : Net). lookup j n.world.state.targets) net
            ∙ filed-apart srs st j apart
            ∙ ap (lookup j) same.targets,
      ),
    )
