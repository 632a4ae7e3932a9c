-- ===== src/Run/Program.antt =====
-- config.go and output.go: the settings that the commands change, beside the connections, and what
-- is printed.
use metassh.Base.{ℕ, Bool, Option, List, [], ◌∷◌, ◌++◌, Str, ok, ◌>>=◌}
use metassh.Output.Screen.{ℤ}
use metassh.Store.Methods.{Act, Job}
use metassh.Fleet.Net.{Net, on_world}

-- What `Out` and `Err` are given to print; `%` conversions are left to `fmt`, and the quantiles of
-- the samples to the package that estimates them.
pub data Printed : Type 0 where
  line : Str → Printed
  number : Str → ℤ → Printed
  took : Str → ℕ → Printed
  timed : Str → ℕ → ℕ → Printed
  named : Str → Str → ℕ → Printed
  quantiles : Str → List ℕ → Printed
  result : Str → ℕ → ℕ → Option Str → Str → Printed

-- A goroutine that a command starts and does not wait for.
pub data Task : Type 0 where
  run_task : Str → ℤ → Bool → Task
  connect_task : ℤ → Task

pub record Program : Type 0 where
  pub net : Net
  pub spool : Bool
  pub tee : Bool
  pub spool_dir : Str
  pub printed : List Printed
  pub spawned : List Task

abbrev pub on_net {ℓ} : {A : Type ℓ} → Job Net A → Job Program A
on_net job p = job p.net >>= λ r. ok (record p { net = r.0 }, r.1)

abbrev pub on_state {ℓ} : {A : Type ℓ} → Act A → Job Program A
on_state act = on_net (on_world act)

abbrev pub say : Printed → Job Program (Unit {0})
say out p = ok (record p { printed = p.printed ++ (out ∷ []) }, tt)

abbrev pub spawn : Task → Job Program (Unit {0})
spawn task p = ok (record p { spawned = p.spawned ++ (task ∷ []) }, tt)
