-- ===== src/Run/Steady.antt =====
-- run.go: what a run leaves alone.
use metassh.Base.{
  ℕ, ◌≡◌, refl, ap, ◌∙◌, Bool, false, Option, none, some, arith, Str, Outcome, ok, bind-ok,
  ok_injective,
}
use mathlib.Core.Path.{subst}
use metassh.Store.Types.{WaitInfo, state_start_session, state_running, state_done}
use metassh.Store.Serializer.{handle}
use metassh.Store.Methods.{Act, Job, ◌>>>◌, done}
use metassh.Store.Methods
use metassh.Run.Program.{Program, on_state}
use metassh.Run.Spool.{SpoolEnv}
use metassh.Run.Command.{RunEnv, failed, open_spool, pipe_error, run_started, run_session, run_cmd}

-- The targets, the connections and their listeners are as before, and spooling is not turned on.
pub record Same (p p' : Program) : Type 0 where
  pub targets : p'.net.world.state.targets ≡ p.net.world.state.targets
  pub conn : p'.net.world.state.conn ≡ p.net.world.state.conn
  pub listeners : p'.net.listeners ≡ p.net.listeners
  pub unspooled : p.spool ≡ false → p'.spool ≡ false

Same-trans : (p q r : Program) → Same p q → Same q r → Same p r
Same-trans p q r a b = record {
  targets = b.targets ∙ a.targets;
  conn = b.conn ∙ a.conn;
  listeners = b.listeners ∙ a.listeners;
  unspooled = λ e. b.unspooled (a.unspooled e);
}

abbrev pub Keeps : {A : Type 0} → Job Program A → Type 0
Keeps {A} job = (p p' : Program) (a : A) → job p ≡ ok (p', a) → Same p p'

pub done-Keeps : {A : Type 0} (a : A) → Keeps (done a)
done-Keeps {A} a p p' a' e =
    subst (Same p) (ap (λ (x : Program × A). x.0) (ok_injective e))
      (record { targets = refl; conn = refl; listeners = refl; unspooled = λ q. q })

pub then-Keeps :
    {A B : Type 0} (m : Job Program A) (k : A → Job Program B)
    → Keeps m
    → ((a : A) → Keeps (k a))
    → Keeps (m >>> k)
then-Keeps m k h g p p' b e =
    let (r, e1, e2) = bind-ok (m p) _ e in Same-trans p r.0 p' (h p r.0 r.1 e1) (g r.1 r.0 p' b e2)

option-Keeps :
    {X A : Type 0} (o : Option X) (n : Job Program A) (s : X → Job Program A)
    → Keeps n
    → ((x : X) → Keeps (s x))
    → Keeps (elim o as (λ _. Job Program A) [ none ↦ n | some x ↦ s x ])
option-Keeps none n s p q = p
option-Keeps (some x) n s p q = q x

wait_info-Keeps : (wi : WaitInfo) → Keeps (on_state (Methods.set_run_wait_info wi))
unfolding Methods.set_run_wait_info Methods.get_ptr handle
wait_info-Keeps wi p p' a e = ground arith

wait_state-Keeps : (me st : Str) → Keeps (on_state (Methods.set_run_wait_state me st))
unfolding Methods.set_run_wait_state Methods.get_ptr handle
wait_state-Keeps me st p p' a e = ground arith

wait_gone-Keeps : (me : Str) → Keeps (on_state (Methods.delete_run_wait_info me))
unfolding Methods.delete_run_wait_info Methods.get_ptr handle
wait_gone-Keeps me p p' a e = ground arith

open_spool-Keeps : (me : Str) (env : SpoolEnv) → Keeps (open_spool me env)
unfolding open_spool Methods.get_ptr handle
open_spool-Keeps me env p p' a e = ground arith

run_started-Keeps :
    (me : Str) (env : RunEnv) (spooling teeing opened : Bool)
    → Keeps (run_started me env spooling teeing opened)
unfolding run_started
run_started-Keeps me env spooling teeing opened =
    then-Keeps (on_state (Methods.set_run_wait_state me state_start_session)) _
      (wait_state-Keeps me state_start_session)
      λ _.
        option-Keeps env.start_error _ _
          (then-Keeps (on_state (Methods.set_run_wait_state me state_running)) _
            (wait_state-Keeps me state_running)
            λ _.
              then-Keeps (on_state (Methods.set_run_wait_state me state_done)) _
                (wait_state-Keeps me state_done) λ _. done-Keeps _)
          λ err. done-Keeps _

option-Lands :
    {X A : Type 0} (o : Option X) (n : Outcome (Program × A)) (s : X → Outcome (Program × A))
    (p : Program)
    → ((p' : Program) (a : A) → n ≡ ok (p', a) → Same p p')
    → ((x : X) (p' : Program) (a : A) → s x ≡ ok (p', a) → Same p p')
    → (p' : Program) (a : A)
    → (elim o as (λ _. Outcome (Program × A)) [ none ↦ n | some x ↦ s x ]) ≡ ok (p', a)
    → Same p p'
option-Lands none n s p h g = h
option-Lands (some x) n s p h g = g x

run_session-Keeps : (me : Str) (env : RunEnv) → Keeps (run_session me env)
unfolding run_session
run_session-Keeps me env =
    then-Keeps (open_spool me env.spool_env) _ (open_spool-Keeps me env.spool_env) λ opened p.
      option-Lands env.session_error _ _ p
        (option-Lands (pipe_error p.spool env) _ _ p
          (run_started-Keeps me env p.spool p.tee opened p) λ err. done-Keeps (failed err) p)
        λ err. done-Keeps (failed err) p

-- A run changes neither a target nor a connection, and does not turn spooling on.
pub run_cmd-Keeps : (me : Str) (now timer : ℕ) (env : RunEnv) → Keeps (run_cmd me now timer env)
unfolding run_cmd
run_cmd-Keeps me now timer env =
    then-Keeps (on_state (Methods.set_run_wait_info _)) _ (wait_info-Keeps _) λ _.
      then-Keeps (run_session me env) _ (run_session-Keeps me env) λ resp.
        then-Keeps (on_state (Methods.delete_run_wait_info me)) _ (wait_gone-Keeps me)
          λ _. done-Keeps _
