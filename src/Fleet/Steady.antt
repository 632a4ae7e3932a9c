-- ===== src/Fleet/Steady.antt =====
-- proxy.go: what a proxied connection leaves alone.
use metassh.Base.{
  ℕ, ◌≡◌, sym, ap, ◌∙◌, inl, inr, false, Option, none, some, arith, Option-cases, Str, ok, bind-ok,
  ok_injective, Result, value, failure,
}
use metassh.Store.Types.{World, WaitInfo, state_establishing, state_new_client, state_done}
use metassh.Store.Serializer.{handle}
use metassh.Store.Methods.{Act, Job, ◌>>>◌, done}
use metassh.Store.Methods
use metassh.Fleet.Proxy.{ProxyEnv, copy_config, dial_through, answer, proxy_connect}

-- The parts of the state that steer connections.
pub record Same (w w' : World) : Type 0 where
  pub targets : w'.state.targets ≡ w.state.targets
  pub conn : w'.state.conn ≡ w.state.conn
  pub ptr : w'.state.ptr ≡ w.state.ptr
  pub config : w'.state.ssh_config ≡ w.state.ssh_config

Same-trans : (w v u : World) → Same w v → Same v u → Same w u
Same-trans w v u a b = record {
  targets = b.targets ∙ a.targets;
  conn = b.conn ∙ a.conn;
  ptr = b.ptr ∙ a.ptr;
  config = b.config ∙ a.config;
}

Keeps : {A : Type 0} → Act A → Type 0
Keeps {A} act = (w w' : World) (a : A) → act w ≡ ok (w', a) → Same w w'

done-Keeps : {A : Type 0} (a : A) → Keeps (done a)
unfolding Keeps
done-Keeps {A} a w w' a' e =
    let same = ap (λ (x : World × A). x.0) (sym (ok_injective e)) in
    record {
      targets = ap (λ (x : World). x.state.targets) same;
      conn = ap (λ (x : World). x.state.conn) same;
      ptr = ap (λ (x : World). x.state.ptr) same;
      config = ap (λ (x : World). x.state.ssh_config) same;
    }

then-Keeps :
    {A B : Type 0} (m : Act A) (k : A → Act B) → Keeps m → ((a : A) → Keeps (k a)) → Keeps (m >>> k)
unfolding Keeps
then-Keeps m k h g w w' b e =
    let (r, e1, e2) = bind-ok (m w) _ e in Same-trans w r.0 w' (h w r.0 r.1 e1) (g r.1 r.0 w' b e2)

option-Keeps :
    {X A : Type 0} (o : Option X) (n : Act A) (s : X → Act A)
    → Keeps n
    → ((x : X) → Keeps (s x))
    → Keeps (elim o as (λ _. Act A) [ none ↦ n | some x ↦ s x ])
option-Keeps none n s p q = p
option-Keeps (some x) n s p q = q x

copy_config-Keeps : Keeps copy_config
unfolding Keeps copy_config Methods.get_ssh_config handle
copy_config-Keeps w w' a e = elim (Option-cases w.state.ssh_config) [
  | inl missing ↦ ground arith
  | inr (c, there) ↦ ground arith
]

wait_state-Keeps : (h st : Str) → Keeps (Methods.set_conn_wait_state h st)
unfolding Keeps Methods.set_conn_wait_state Methods.get_ptr handle
wait_state-Keeps h st w w' a e = ground arith

wait_info-Keeps : (wi : WaitInfo) → Keeps (Methods.set_conn_wait_info wi)
unfolding Keeps Methods.set_conn_wait_info Methods.get_ptr handle
wait_info-Keeps wi w w' a e = ground arith

delete_info-Keeps : (h : Str) → Keeps (Methods.delete_conn_wait_info h)
unfolding Keeps Methods.delete_conn_wait_info Methods.get_ptr handle
delete_info-Keeps h w w' a e = ground arith

dial_through-Keeps : (target : Str) (env : ProxyEnv) → Keeps (dial_through false target env)
unfolding dial_through
dial_through-Keeps target env = then-Keeps copy_config _ copy_config-Keeps λ _.
    option-Keeps env.dial_error _ _
      (then-Keeps (Methods.set_conn_wait_state target state_establishing) _
        (wait_state-Keeps target state_establishing)
        λ _. then-Keeps (done tt) _ (done-Keeps tt) λ _.
          option-Keeps env.handshake_error _ _
            (then-Keeps (Methods.set_conn_wait_state target state_new_client) _
              (wait_state-Keeps target state_new_client)
              λ _.
                then-Keeps (Methods.set_conn_wait_state target state_done) _
                  (wait_state-Keeps target state_done) λ _. done-Keeps (value tt))
            λ err. done-Keeps (failure err))
      λ err. done-Keeps (failure err)

-- Without passwords a proxied connection leaves the connections, the names and the configuration
-- alone.
pub proxy_connect-Same :
    (now timeout : ℕ) (target : Str) (env : ProxyEnv) (w w' : World) (res : Result (Unit {0}))
    → proxy_connect false now timeout target env w ≡ ok (w', res)
    → Same w w'
unfolding proxy_connect Keeps
proxy_connect-Same now timeout target env =
    then-Keeps (Methods.set_conn_wait_info _) _ (wait_info-Keeps _) λ _.
      then-Keeps (dial_through false target env) _ (dial_through-Keeps target env) λ res.
        then-Keeps (Methods.delete_conn_wait_info target) _ (delete_info-Keeps target)
          λ _. done-Keeps (answer env.arrival res)
