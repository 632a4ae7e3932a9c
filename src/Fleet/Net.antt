-- ===== src/Fleet/Net.antt =====
-- The goroutines that serve connections, beside the global state: how many of them listen on a
-- request channel, which channel address is free, and the clean-ups that were sent, in order.
use metassh.Base.{ℕ, Bool, List, ◌==◌, if◌then◌else◌, ok, ◌>>=◌}
use metassh.Store.Types.{World}
use metassh.Store.Methods.{Act, Job}

pub record Net : Type 0 where
  pub world : World
  pub listeners : ℕ → ℕ
  pub next_chan : ℕ
  pub cleaned : List ℕ

-- The options of `Config` that steer connections.
pub record Options : Type 0 where
  pub bastion_conns : ℕ
  pub password : Bool
  pub server : Bool
  pub execute : Bool

-- A method of the global state, among the goroutines.
abbrev pub on_world {ℓ} : {A : Type ℓ} → Act A → Job Net A
on_world act net = act net.world >>= λ r. ok (record net { world = r.0 }, r.1)

abbrev pub set_listeners : ℕ → ℕ → (ℕ → ℕ) → ℕ → ℕ
set_listeners c n f d = if c == d then n else f d
