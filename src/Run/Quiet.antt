-- ===== src/Run/Quiet.antt =====
-- run.go: `runEverywhere` with a muted output, which is what `run -q` gives it.
use metassh.Base.{
  ◌≡◌, refl, sym, ap, ◌∙◌, ◌≢◌, inl, inr, Bool, true, false, not, Option, none, some, List, [], ◌∷◌,
  arith, if◌then◌else◌, Bool-cases, Str, str_eq, str_eq_refl, str_eq_cases, Dict, lookup, keys,
  Outcome, ok, blocked, ◌>>=◌, Result, value, failure,
}
use mathlib.Core.Path.{subst}
use metassh.Store.Types.{ConnInfo}
use metassh.Store.Serializer.{handle}
use metassh.Store.Methods.{Job, ◌>>>◌, done}
use metassh.Store.Methods
use metassh.Store.Races.{get_conn_info_alone}
use metassh.Run.Program.{Program, on_state}
use metassh.Run.Everywhere.{Runs, run_one, run_each, run_everywhere}
use metassh.Run.Statuses.{IsListened, Reports, run_one-Reports}
use metassh.Run.Outputs.{spoken, run_one-quiet}
use metassh.Run.Reported.{is_sent, is_among, is_among-keys, run_one-IsListened}

sent_host :
    (conn : Dict ConnInfo) (h : Str)
    → is_sent conn h ≡ true
    → (ci : ConnInfo) × (lookup h conn ≡ some ci) × (ci.is_proxy ≡ false)
sent_host conn h on = go (lookup h conn) refl on
  where
    go :
        (o : Option ConnInfo)
        → lookup h conn ≡ o
        → (elim o as (λ _. Bool) [ none ↦ false | some ci ↦ not ci.is_proxy ]) ≡ true
        → (ci : ConnInfo) × (lookup h conn ≡ some ci) × (ci.is_proxy ≡ false)
    go none e q = cc
    go (some ci) e q = (ci, e, ground arith)

run_each-skip :
    (runs : Runs) (quiet : Bool) (h : Str) (hs : List Str) (p : Program)
    → is_sent p.net.world.state.conn h ≡ false
    → run_each runs quiet (h ∷ hs) p ≡ run_each runs quiet hs p
unfolding run_each
run_each-skip runs quiet h hs p off = go (lookup h p.net.world.state.conn) refl off
  where
    go :
        (o : Option ConnInfo)
        → lookup h p.net.world.state.conn ≡ o
        → (elim o as (λ _. Bool) [ none ↦ false | some ci ↦ not ci.is_proxy ]) ≡ false
        → run_each runs quiet (h ∷ hs) p ≡ run_each runs quiet hs p
    go none e q = rw (get_conn_info_alone h p.net.world, e) refl
    go (some ci) e q =
        let proxy : ci.is_proxy ≡ true = ground arith in
        rw (get_conn_info_alone h p.net.world, e, proxy) refl

run_each-send :
    (runs : Runs) (quiet : Bool) (h : Str) (hs : List Str) (p : Program)
    → is_sent p.net.world.state.conn h ≡ true
    → run_each runs quiet (h ∷ hs) p ≡ (run_one runs quiet h p >>= λ r. run_each runs quiet hs r.0)
unfolding run_each
run_each-send runs quiet h hs p on =
    let (ci, e, host) = sent_host p.net.world.state.conn h on in
    let found : on_state (Methods.get_conn_info h) p ≡ ok (p, value ci) =
      rw (get_conn_info_alone h p.net.world, e) refl in
    ap
      (λ (o : Outcome (Program × Result ConnInfo)). o >>= λ r.
        ((elim r.1 as (λ _. Job Program (Unit {0})) [
          | failure err ↦ done tt
          | value cj ↦ if cj.is_proxy then done tt else run_one runs quiet h
        ])
            >>> λ _. run_each runs quiet hs)
          r.0)
      found
    ∙ ap (λ b. ((if b then done tt else run_one runs quiet h) >>> λ _. run_each runs quiet hs) p)
        host

-- A host that is sent the command and has no output is passed.
pass_lem :
    (runs : Runs) (h : Str) (p : Program)
    → p.spool ≡ false
    → IsListened p
    → is_sent p.net.world.state.conn h ≡ true
    → str_eq (spoken (runs.runs_on h)) [] ≡ true
    → (p1 : Program) × ((quiet : Bool) → run_one runs quiet h p ≡ ok (p1, tt)) × Reports runs h p p1
pass_lem runs h p off listened on silent =
    let (ci, there, _) = sent_host p.net.world.state.conn h on in
    let (p1, e, rep) = run_one-Reports runs h ci p there (listened h ci there) off in
    let same = run_one-quiet runs h ci p there (listened h ci there) off in
    let muted : run_one runs true h p ≡ ok (p1, tt) = same ∙ rw silent e in
    (p1, (λ quiet. both quiet p1 e muted), rep)
  where
    both :
        (quiet : Bool) (p1 : Program)
        → run_one runs false h p ≡ ok (p1, tt)
        → run_one runs true h p ≡ ok (p1, tt)
        → run_one runs quiet h p ≡ ok (p1, tt)
    both true p1 e m = m
    both false p1 e m = e

-- At a host that is sent the command and has output, a muted run waits for good.
stop_lem :
    (runs : Runs) (h : Str) (p : Program)
    → p.spool ≡ false
    → IsListened p
    → is_sent p.net.world.state.conn h ≡ true
    → str_eq (spoken (runs.runs_on h)) [] ≡ false
    → run_one runs true h p ≡ blocked
stop_lem runs h p off listened on loud =
    let (ci, there, _) = sent_host p.net.world.state.conn h on in
    let same = run_one-quiet runs h ci p there (listened h ci there) off in rw loud at same

abbrev Silent : Runs → Dict ConnInfo → Type 0
Silent runs conn = (h : Str) → is_sent conn h ≡ true → spoken (runs.runs_on h) ≡ []

run_each-Silent :
    (runs : Runs) (hs : List Str) (p : Program)
    → p.spool ≡ false
    → IsListened p
    → Silent runs p.net.world.state.conn
    → run_each runs true hs p ≡ run_each runs false hs p
unfolding run_each
run_each-Silent runs [] p off listened silent = refl
run_each-Silent runs (h ∷ hs) p off listened silent =
    elim (Bool-cases (is_sent p.net.world.state.conn h)) [
      | inl on ↦
          let (p1, e, rep) =
            pass_lem runs h p off listened on (rw (silent h on) (str_eq_refl [])) in
          let rest =
            run_each-Silent runs hs p1 rep.2 (run_one-IsListened runs h p p1 rep listened)
              (subst (Silent runs) (sym rep.0) silent) in
          run_each-send runs true h hs p on
          ∙ ap (λ o. o >>= λ r. run_each runs true hs r.0) (e true)
          ∙ rest
          ∙ sym (
              run_each-send runs false h hs p on
              ∙ ap (λ o. o >>= λ r. run_each runs false hs r.0) (e false))
      | inr unsent ↦
          run_each-skip runs true h hs p unsent
          ∙ run_each-Silent runs hs p off listened silent
          ∙ sym (run_each-skip runs false h hs p unsent)
    ]

run_each-loud :
    (runs : Runs) (j : Str) (hs : List Str) (p : Program)
    → p.spool ≡ false
    → IsListened p
    → is_sent p.net.world.state.conn j ≡ true
    → is_among j hs ≡ true
    → str_eq (spoken (runs.runs_on j)) [] ≡ false
    → run_each runs true hs p ≡ blocked
run_each-loud runs j [] p off listened on among loud = cc
run_each-loud runs j (h ∷ hs) p off listened on among loud =
    let conn = p.net.world.state.conn in
    elim (str_eq_cases h j) [
      | inl (hit, same) ↦
          let on_h : is_sent conn h ≡ true = ap (is_sent conn) same ∙ on in
          let loud_h : str_eq (spoken (runs.runs_on h)) [] ≡ false =
            ap (λ k. str_eq (spoken (runs.runs_on k)) []) same ∙ loud in
          run_each-send runs true h hs p on_h
          ∙ ap (λ o. o >>= λ r. run_each runs true hs r.0)
              (stop_lem runs h p off listened on_h loud_h)
      | inr (miss, _) ↦
          let later : is_among j hs ≡ true = rw miss at among in
          elim (Bool-cases (is_sent conn h)) [
            | inr unsent ↦
                run_each-skip runs true h hs p unsent
                ∙ run_each-loud runs j hs p off listened on later loud
            | inl on_h ↦ elim (Bool-cases (str_eq (spoken (runs.runs_on h)) [])) [
              | inl silent ↦
                  let (p1, e, rep) = pass_lem runs h p off listened on_h silent in
                  let on1 : is_sent p1.net.world.state.conn j ≡ true =
                    ap (λ c. is_sent c j) rep.0 ∙ on in
                  run_each-send runs true h hs p on_h
                  ∙ ap (λ o. o >>= λ r. run_each runs true hs r.0) (e true)
                  ∙ run_each-loud runs j hs p1 rep.2 (run_one-IsListened runs h p p1 rep listened)
                      on1 later loud
              | inr loud_h ↦
                  run_each-send runs true h hs p on_h
                  ∙ ap (λ o. o >>= λ r. run_each runs true hs r.0)
                      (stop_lem runs h p off listened on_h loud_h)
            ]
          ]
    ]

-- A muted run, without spooling and with a listener on every connection, does what an unmuted one
-- does if no host that is sent the command has output, and waits for good as soon as one has.
pub run_everywhere_quiet :
    (runs : Runs) (p : Program)
    → p.spool ≡ false
    → IsListened p
    → (((h : Str) → is_sent p.net.world.state.conn h ≡ true → spoken (runs.runs_on h) ≡ [])
        → run_everywhere runs true p ≡ run_everywhere runs false p)
      × ((h : Str)
          → is_sent p.net.world.state.conn h ≡ true
          → spoken (runs.runs_on h) ≢ []
          → run_everywhere runs true p ≡ blocked)
unfolding run_everywhere Methods.get_conn_keys handle
run_everywhere_quiet runs p off listened =
    let conn = p.net.world.state.conn in
    (
      λ silent. run_each-Silent runs (keys conn) p off listened silent,
      λ h on loud.
          let (ci, there, _) = sent_host conn h on in
          run_each-loud runs h (keys conn) p off listened on (is_among-keys h ci conn there)
            (elim (str_eq_cases (spoken (runs.runs_on h)) []) [
              | inl (_, none_left) ↦ absurd (loud none_left)
              | inr (miss, _) ↦ miss
            ]),
    )
