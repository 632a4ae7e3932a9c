-- ===== src/Fleet/Returns.antt =====
-- proxy.go, resolve.go and connect.go: when a connection attempt comes back.
use metassh.Base.{
  ℕ, zero, suc, ◌+◌, ◌≡◌, refl, inl, inr, Bool, true, false, ◌&&◌, some, [], ◌∷◌, arith,
  Option-cases, Str, is_some, lookup, ok, Ends, Ends-bind, option_job-Ends, if_job-Ends,
}
use metassh.Store.Types.{
  state_establishing, state_new_client, state_done, HostInfo, ConnInfo, World,
}
use metassh.Store.Serializer.{handle}
use metassh.Store.Methods
use metassh.Store.Races.{ptr_of, get_host_info_alone}
use metassh.Fleet.Net.{Net, Options}
use metassh.Fleet.Proxy.{ProxyEnv, pw_closure, copy_config, when, dial_through, proxy_connect}
use metassh.Fleet.Resolve.{
  Dial, connected, refused, late, Weather, spawn_remote, make_chan, after_dial, dial_once, dial_all,
  direct_link, resolve_after, resolve,
}
use metassh.Fleet.Connect.{connect_one, succeeded}
use metassh.Fleet.Reported.{targets}

-- What the configuration and the password ask of the state.
abbrev pub Ready : Bool → Str → World → Type 0
Ready password target w =
    (is_some w.state.ssh_config ≡ true)
    × (password ≡ true → is_some (lookup (ptr_of target w.state) w.state.targets) ≡ true)

pub copy_config_lem : (w : World) → is_some w.state.ssh_config ≡ true → copy_config w ≡ ok (w, tt)
unfolding copy_config Methods.get_ssh_config handle
copy_config_lem w e = ground arith

when-Ends :
    (b : Bool) (target : Str) (w : World)
    → (b ≡ true → is_some (lookup (ptr_of target w.state) w.state.targets) ≡ true)
    → Ends (when b (pw_closure target) w)
unfolding pw_closure Methods.get_ptr Methods.set_requires_pw Methods.get_auth_pass handle
when-Ends false target w e = (_, refl)
when-Ends true target w e = elim (Option-cases (lookup (ptr_of target w.state) w.state.targets)) [
  | inl gone ↦ ground (arith, e refl)
  | inr (hi, there) ↦ rw there (_, refl)
]

wait_state-Ends : (h st : Str) (w : World) → Ends (Methods.set_conn_wait_state h st w)
unfolding Methods.set_conn_wait_state Methods.get_ptr handle
wait_state-Ends h st w = (_, refl)

wait_state_keeps :
    (h st : Str) (w : World) (r : World × Unit {0})
    → Methods.set_conn_wait_state h st w ≡ ok r
    → (r.0.state.targets ≡ w.state.targets) × (r.0.state.ptr ≡ w.state.ptr)
unfolding Methods.set_conn_wait_state Methods.get_ptr handle
wait_state_keeps h st w r e = ground arith

dial_through-Ends :
    (password : Bool) (target : Str) (env : ProxyEnv) (w : World)
    → Ready password target w
    → Ends (dial_through password target env w)
unfolding dial_through
dial_through-Ends password target env w (c, t) = rw (copy_config_lem w c) (
    option_job-Ends env.dial_error _ _ w
      (Ends-bind (Methods.set_conn_wait_state target state_establishing w) _
        (wait_state-Ends target state_establishing w)
        λ r q.
          let (same, named) = wait_state_keeps target state_establishing w r q in
          Ends-bind (when (password && env.asks_password) (pw_closure target) r.0) _
            (when-Ends (password && env.asks_password) target r.0
              λ b. rw (same, named) (t (ground arith)))
            λ r1 _.
              option_job-Ends env.handshake_error _ _ r1.0
                (Ends-bind (Methods.set_conn_wait_state target state_new_client r1.0) _
                  (wait_state-Ends target state_new_client r1.0)
                  λ r2 _.
                    Ends-bind (Methods.set_conn_wait_state target state_done r2.0) _
                      (wait_state-Ends target state_done r2.0) λ r3 _. (_, refl))
                λ err. (_, refl))
      λ err. (_, refl))

-- With a configuration, and if passwords are on with the target among the targets, a proxied
-- connection comes back with an answer.
pub proxy_connect-Ends :
    (password : Bool) (now timeout : ℕ) (target : Str) (env : ProxyEnv) (w : World)
    → Ready password target w
    → Ends (proxy_connect password now timeout target env w)
unfolding proxy_connect Methods.set_conn_wait_info Methods.delete_conn_wait_info Methods.get_ptr
    handle
proxy_connect-Ends password now timeout target env w ready =
    Ends-bind (dial_through password target env _) _ (dial_through-Ends password target env _ ready)
      λ r _. (_, refl)

after_dial-Ends : (d : Dial) (ci : ConnInfo) (net : Net) → Ends (after_dial d ci net)
unfolding after_dial spawn_remote Methods.set_conn_info Methods.get_ptr handle
after_dial-Ends connected ci net = (_, refl)
after_dial-Ends (refused err) ci net = (_, refl)
after_dial-Ends late ci net = (_, refl)

dial_all-Ends :
    (opts : Options) (weather : Weather) (p : Bool) (link : Str) (c n id : ℕ) (net : Net)
    → opts.password ≡ false
    → Ends (dial_all opts weather p link c n id net)
unfolding dial_all dial_once
dial_all-Ends opts weather p link c zero id net off = (_, refl)
dial_all-Ends opts weather p link c (suc n) id net off =
    Ends-bind (dial_once opts weather p link c id net) _
      (rw off (after_dial-Ends (weather.direct link id).outcome _ net))
      λ r _. dial_all-Ends opts weather p link c n (id + 1) r.0 off

direct_link-Ends :
    (opts : Options) (weather : Weather) (p : Bool) (link : Str) (net : Net)
    → opts.password ≡ false
    → is_some net.world.state.ssh_config ≡ true
    → Ends (direct_link opts weather p link net)
unfolding direct_link make_chan Methods.conn_exists handle
direct_link-Ends opts weather p link net off c =
    if_job-Ends (is_some (lookup link net.world.state.conn)) _ _ net (_, refl)
      (rw (copy_config_lem net.world c) (
        Ends-bind (dial_all opts weather p link net.next_chan opts.bastion_conns 0 _) _
          (dial_all-Ends opts weather p link net.next_chan opts.bastion_conns 0 _ off)
          λ r _. (_, refl)))

and_off : (b c : Bool) → c ≡ false → (b && c) ≡ false
and_off b c e = ground arith

-- Without passwords, without a test command and with a configuration, the attempt to connect a
-- host whose chain is one link comes back.
pub connect_one-Ends :
    (opts : Options) (weather : Weather) (me link : Str) (hi : HostInfo) (net : Net)
    → opts.password ≡ false
    → opts.execute ≡ false
    → is_some net.world.state.ssh_config ≡ true
    → lookup me (targets net) ≡ some hi
    → hi.chain ≡ link ∷ []
    → Ends (connect_one opts weather me net)
unfolding connect_one resolve resolve_after Methods.set_connection_status handle
connect_one-Ends opts weather me link hi net off quiet c there one =
    rw (get_host_info_alone me net.world, there, one)
      (Ends-bind (resolve opts weather false (link ∷ []) net) _
        (Ends-bind (direct_link opts weather false link net) _
          (direct_link-Ends opts weather false link net off c) λ r _. (_, refl))
        λ r _. rw (and_off (succeeded r.1) opts.execute quiet) (_, refl))
