-- ===== src/Store/Races.antt =====
-- state.go: what a client of the serializer sees, alone and with other clients in between.
use metassh.Base.{
  ◌≡◌, refl, ap, ◌↔◌, Bool, true, Option, none, some, List, [], ◌∷◌, ◌++◌, arith, if◌then◌else◌,
  Str, bytes, str_eq, str_eq_iff, is_some, lookup, delete, lookup-insert, lookup-insert_self,
  Outcome, ok, panic, ◌>>=◌, bind-ok, ok_injective, Result, value, failure,
}
use metassh.Store.Types.{HostInfo, ConnInfo, State, Request, World}
use metassh.Store.Serializer.{handle, or_else}
use metassh.Store.Waiters.{timeout_waiters_reach_all}
use metassh.Store.Methods
use metassh.Store.Methods.{Act, ◌>>>◌, done, ask, to_host}

-- Requests of other clients, one after another; their replies go elsewhere.
unfoldable pub handle_all : List Request → World → Outcome World
handle_all [] w = ok w
handle_all (req ∷ reqs) w = handle req w >>= λ r. handle_all reqs r.0

-- `GetHostInfo` asks twice; between the two exchanges the serializer takes `reqs`.
unfoldable pub get_host_info_amid : List Request → Str → Act (Result HostInfo)
get_host_info_amid reqs h w = Methods.host_exists h w >>= λ r. handle_all reqs r.0 >>= λ w'.
    (if r.1
        then ask to_host (Request.get_host_info h) >>> (λ hi. done (value hi))
        else done (failure (bytes "Host '" ++ h ++ bytes "' does not exit.")))
      w'

-- With nobody in between this is the method.
amid_nothing : (h : Str) (w : World) → get_host_info_amid [] h w ≡ Methods.get_host_info h w
unfolding get_host_info_amid Methods.get_host_info handle_all
amid_nothing h w = refl

-- Alone, `GetHostInfo` returns the entry or an error, and changes nothing.
pub get_host_info_alone :
    (h : Str) (w : World)
    → Methods.get_host_info h w
      ≡ ok (
        w,
        elim (lookup h w.state.targets) [
          | some hi ↦ value hi
          | none ↦ failure (bytes "Host '" ++ h ++ bytes "' does not exit.")
        ],
      )
unfolding Methods.get_host_info handle
get_host_info_alone h w = ground arith

-- With other requests in between, `GetHostInfo` takes the program down exactly when the host is
-- there at the first exchange and gone at the second.
pub get_host_info_amid_panics :
    (reqs : List Request) (h : Str) (w w' : World)
    → handle_all reqs w ≡ ok w'
    → (get_host_info_amid reqs h w ≡ panic)
      ↔ (is_some (lookup h w.state.targets) ≡ true) × (lookup h w'.state.targets ≡ none)
unfolding get_host_info_amid Methods.host_exists handle
get_host_info_amid_panics reqs h w w' e = (λ p. ground arith, λ p. ground arith)

-- The name under which a link is filed: its reverse lookup, or itself.
abbrev pub ptr_of : Str → State → Str
ptr_of ip s = or_else (lookup ip s.ptr) ip

-- What `SetHostInfo` stores, `GetHostInfo` and `GetPTR` find.
pub set_host_info_found :
    (hi : HostInfo) (w w' : World)
    → Methods.set_host_info hi w ≡ ok (w', tt)
    → (Methods.get_host_info hi.host_name w' ≡ ok (w', value hi))
      × (Methods.get_ptr hi.ip_address w' ≡ ok (w', hi.host_name))
unfolding Methods.set_host_info Methods.get_host_info Methods.get_ptr handle
set_host_info_found hi w w' e = ground (
  arith,
  lookup-insert_self hi.host_name hi w.state.targets,
  lookup-insert_self hi.ip_address hi.host_name w.state.ptr,
)

-- `SetConnInfo` files a connection under the reverse lookup of its name; one that is there already
-- stays as it is, and so do all the others.
pub set_conn_info_first_wins :
    (ci : ConnInfo) (w w' : World) (j : Str)
    → Methods.set_conn_info ci w ≡ ok (w', tt)
    → let name = ptr_of ci.host_name w.state in
      lookup j w'.state.conn ≡ (
        if str_eq name j
        then some (or_else (lookup name w.state.conn) (record ci { host_name = name }))
        else lookup j w.state.conn)
unfolding Methods.set_conn_info handle
set_conn_info_first_wins ci w w' j e =
    let name = ptr_of ci.host_name w.state in
    ground
      (arith, str_eq_iff name j, lookup-insert name j (record ci { host_name = name }) w.state.conn)

abbrev pub lookup_result {ℓ} : {A : Type ℓ} → Option A → Str → Result A
lookup_result none err = failure err
lookup_result (some a) err = value a

pub get_conn_info_alone :
    (h : Str) (w : World)
    → Methods.get_conn_info h w
      ≡ ok (
        w,
        lookup_result
            (lookup h w.state.conn)
            (bytes "Connection '" ++ h ++ bytes "' does not exist."),
      )
unfolding Methods.get_conn_info handle
get_conn_info_alone h w = ground arith

pub delete_conn_info_alone :
    (h : Str) (w : World)
    → Methods.delete_conn_info h w
      ≡ ok (record w { state = record (w.state) { conn = delete h w.state.conn } }, tt)
unfolding Methods.delete_conn_info handle
delete_conn_info_alone h w = refl

pub timeout_waiters_state :
    (w w' : World) → Methods.timeout_waiters w ≡ ok (w', tt) → w'.state ≡ w.state
unfolding Methods.timeout_waiters
timeout_waiters_state w w' e =
    let ((w1, b), p, q) = bind-ok (ask Methods.to_flag Request.timeout_waiters w) _ e in
    let ((w2, r), p', q') = bind-ok (handle Request.timeout_waiters w) _ p in
    let (b', p'', q'') = bind-ok (Methods.to_flag r) _ q' in
    let first : w1 ≡ w' = ap (λ (x : World × Unit {0}). x.0) (ok_injective q) in
    let second : w2 ≡ w1 = ap (λ (x : World × Bool). x.0) (ok_injective q'') in
    rw (← first, ← second) (timeout_waiters_reach_all w w2 r p').3
