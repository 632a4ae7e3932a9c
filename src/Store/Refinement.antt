-- ===== src/Store/Refinement.antt =====
-- state.go: the serializer keeps its promise on every request.
use metassh.Base.{
  ◌≡◌, refl, ap, ◌∙◌, Bool, true, false, Option, none, some, arith, if◌then◌else◌, Str, str_eq_iff,
  Dict, is_some, lookup, insert, delete, modify, lookup-insert, lookup-delete, lookup-modify, ok,
  ◌>>=◌,
}
use mathlib.Core.Path.{fun_ext}
use mathlib.Core.Option
use metassh.Store.Types.{
  HostInfo, ConnInfo, WaitInfo, State, Request, Reply, timeout_waiters, get_waiter_info,
  delete_conn_wait_info, delete_run_wait_info, set_conn_wait_info, set_run_wait_info,
  set_conn_wait_state, set_run_wait_state, set_requires_pw, get_ptr, set_connection_status,
  set_run_status, inc_proxy_count, get_auth_pass, set_auth_pass, get_ssh_config, set_ssh_config,
  set_host_info, set_conn_info, get_host_info, delete_host_info, clear_host_info, host_exists,
  get_conn_info, conn_exists, delete_conn_info, get_host_keys, get_conn_keys, silent, flag,
}
use metassh.Store.Serializer.{
  serve, with_connection, with_run, with_state, with_pw, with_proxy, or_else, deref,
}
use metassh.Store.View.{View, view, at, needs, promise, shown, seen}

module _ {ℓ} {V : Type ℓ} where
  insert-at :
      (k : Str) (v : V) (m : Dict V)
      → (λ j. lookup j (insert k v m)) ≡ at k (some v) (λ j. lookup j m)
  insert-at k v m = fun_ext (λ j. lookup-insert k j v m)

  delete-at : (k : Str) (m : Dict V) → (λ j. lookup j (delete k m)) ≡ at k none (λ j. lookup j m)
  delete-at k m = fun_ext (λ j. lookup-delete k j m)

  modify-at :
      (k : Str) (f : V → V) (m : Dict V)
      → (λ j. lookup j (modify k f m)) ≡ at k (Option.map f (lookup k m)) (λ j. lookup j m)
  modify-at k f m = fun_ext (λ j. ground (arith, lookup-modify k j f m, str_eq_iff k j))

  -- A modification under a guard is one of the map with its entry, if any.
  guarded-at :
      (k : Str) (f : V → V) (m : Dict V)
      → (λ j. lookup j (if is_some (lookup k m) then modify k f m else m))
        ≡ at k (Option.map f (lookup k m)) (λ j. lookup j m)
  guarded-at k f m = fun_ext (λ j. ground (arith, lookup-modify k j f m, str_eq_iff k j))

  guarded-insert :
      (k : Str) (v : V) (m : Dict V)
      → (λ j. lookup j (if is_some (lookup k m) then m else insert k v m))
        ≡ at k (some (or_else (lookup k m) v)) (λ j. lookup j m)
  guarded-insert k v m = fun_ext (λ j. ground (arith, lookup-insert k j v m, str_eq_iff k j))

-- A change of the state under a guard, seen field by field.
if_targets :
    (b : Bool) (m : Dict HostInfo) (s : State)
    → view (if b then record s { targets = m } else s)
      ≡ record (view s) { targets = λ j. lookup j (if b then m else s.targets) }
if_targets true m s = refl
if_targets false m s = refl

if_conn_waiters :
    (b : Bool) (m : Dict WaitInfo) (s : State)
    → view (if b then record s { conn_waiters = m } else s)
      ≡ record (view s) { conn_waiters = λ j. lookup j (if b then m else s.conn_waiters) }
if_conn_waiters true m s = refl
if_conn_waiters false m s = refl

if_run_waiters :
    (b : Bool) (m : Dict WaitInfo) (s : State)
    → view (if b then record s { run_waiters = m } else s)
      ≡ record (view s) { run_waiters = λ j. lookup j (if b then m else s.run_waiters) }
if_run_waiters true m s = refl
if_run_waiters false m s = refl

if_conn :
    (b : Bool) (m : Dict ConnInfo) (s : State)
    → view (if b then s else record s { conn = m })
      ≡ record (view s) { conn = λ j. lookup j (if b then s.conn else m) }
if_conn true m s = refl
if_conn false m s = refl

-- A dereference panics on both sides, or both go on.
deref-needs :
    {A : Type 0} (o : Option A) (k : A → State × Reply) (k' : A → View × Option Reply)
    → ((a : A) → o ≡ some a → (view (k a).0, shown (k a).1) ≡ k' a)
    → seen (deref o >>= λ a. ok (k a)) ≡ needs o k'
deref-needs none k k' h = refl
deref-needs (some a) k k' h = ap ok (h a refl)

-- A request does to the state what it promises on the view, panics included.
pub serve-Refines : (req : Request) (s : State) → seen (serve req s) ≡ promise req (view s)
unfolding serve lookup
serve-Refines timeout_waiters s = refl
serve-Refines (get_waiter_info now) s = refl
serve-Refines (delete_conn_wait_info h) s =
    ap (λ m. ok (record (view s) { conn_waiters = m }, some silent)) (delete-at h s.conn_waiters)
serve-Refines (delete_run_wait_info h) s =
    ap (λ m. ok (record (view s) { run_waiters = m }, some silent)) (delete-at h s.run_waiters)
serve-Refines (set_conn_wait_info wi) s =
    ap (λ m. ok (record (view s) { conn_waiters = m }, some silent))
      (insert-at wi.host_name wi s.conn_waiters)
serve-Refines (set_run_wait_info wi) s =
    ap (λ m. ok (record (view s) { run_waiters = m }, some silent))
      (insert-at wi.host_name wi s.run_waiters)
serve-Refines (set_conn_wait_state h st) s =
    ap (λ v. ok (v, some silent))
      (if_conn_waiters (is_some (lookup h s.conn_waiters)) (modify h (with_state st) s.conn_waiters)
        s)
    ∙ ap (λ m. ok (record (view s) { conn_waiters = m }, some silent))
        (guarded-at h (with_state st) s.conn_waiters)
serve-Refines (set_run_wait_state h st) s =
    ap (λ v. ok (v, some silent))
      (if_run_waiters (is_some (lookup h s.run_waiters)) (modify h (with_state st) s.run_waiters) s)
    ∙ ap (λ m. ok (record (view s) { run_waiters = m }, some silent))
        (guarded-at h (with_state st) s.run_waiters)
serve-Refines (set_requires_pw h) s = deref-needs (lookup h s.targets) _ _ λ hi e.
    ap (λ m. (record (view s) { targets = m }, some silent))
      (modify-at h with_pw s.targets
        ∙ ap (λ o. at h (Option.map with_pw o) (λ j. lookup j s.targets)) e)
serve-Refines (get_ptr h) s = refl
serve-Refines (set_connection_status scs) s =
    ap (λ v. ok (v, some silent))
      (if_targets (is_some (lookup scs.host_name s.targets))
        (modify scs.host_name (with_connection scs) s.targets) s)
    ∙ ap (λ m. ok (record (view s) { targets = m }, some silent))
        (guarded-at scs.host_name (with_connection scs) s.targets)
serve-Refines (set_run_status srs) s =
    ap (λ v. ok (v, some silent))
      (if_targets (is_some (lookup srs.host_name s.targets))
        (modify srs.host_name (with_run srs) s.targets) s)
    ∙ ap (λ m. ok (record (view s) { targets = m }, some silent))
        (guarded-at srs.host_name (with_run srs) s.targets)
serve-Refines (inc_proxy_count h) s = deref-needs (lookup h s.conn) _ _ λ ci e.
    ap (λ m. (record (view s) { conn = m }, some silent))
      (modify-at h with_proxy s.conn
        ∙ ap (λ o. at h (Option.map with_proxy o) (λ j. lookup j s.conn)) e)
serve-Refines get_auth_pass s = refl
serve-Refines (set_auth_pass p) s = refl
serve-Refines get_ssh_config s = refl
serve-Refines (set_ssh_config c) s = refl
serve-Refines (set_host_info hi) s =
    ap
      (λ m. ok (
        record (view s) {
          targets = m;
          ptr = λ j. lookup j (insert hi.ip_address hi.host_name s.ptr);
        },
        some silent,
      ))
      (insert-at hi.host_name hi s.targets)
    ∙ ap
        (λ m. ok (
          record (view s) {
            targets = at hi.host_name (some hi) (λ j. lookup j s.targets);
            ptr = m;
          },
          some silent,
        ))
        (insert-at hi.ip_address hi.host_name s.ptr)
serve-Refines (set_conn_info ci) s =
    ap (λ v. ok (v, some silent))
      (if_conn (is_some (lookup ci.host_name s.conn)) (insert ci.host_name ci s.conn) s)
    ∙ ap (λ m. ok (record (view s) { conn = m }, some silent))
        (guarded-insert ci.host_name ci s.conn)
serve-Refines (get_host_info h) s = deref-needs (lookup h s.targets) _ _ λ hi e. refl
serve-Refines (delete_host_info h) s =
    ap (λ m. ok (record (view s) { targets = m }, some (flag true))) (delete-at h s.targets)
serve-Refines clear_host_info s = refl
serve-Refines (host_exists h) s = refl
serve-Refines (get_conn_info h) s = deref-needs (lookup h s.conn) _ _ λ ci e. refl
serve-Refines (conn_exists h) s = refl
serve-Refines (delete_conn_info h) s =
    ap (λ m. ok (record (view s) { conn = m }, some (flag true))) (delete-at h s.conn)
serve-Refines get_host_keys s = refl
serve-Refines get_conn_keys s = refl
