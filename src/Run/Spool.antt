-- ===== src/Run/Spool.antt =====
-- run.go: `spoolHandles`, the three files that keep a run's output.
use metassh.Base.{◌≡◌, ◌≢◌, ◌↔◌, ◌⊎◌, Option, none, some, ◌++◌, arith, Str, bytes}

-- How the calls on the files end; `none` is success.
pub record SpoolEnv : Type 0 where
  pub create_out : Option Str
  pub create_err : Option Str
  pub create_ret : Option Str
  pub close_out : Option Str
  pub close_err : Option Str

-- The paths of the open files.
pub record Handles : Type 0 where
  pub out_path : Str
  pub err_path : Str
  pub ret_path : Str

-- The three pointers, which are nil together, and the error.
pub record Spooled : Type 0 where
  pub handles : Option Handles
  pub spool_error : Option Str

abbrev pub spool_path : Str → Str → Str → Str
spool_path dir host ending = dir ++ bytes "/" ++ host ++ ending

-- After a file that cannot be created, the error of the last `Close` takes the place of its error.
unfoldable pub spool_handles : Str → Str → SpoolEnv → Spooled
spool_handles dir host env = elim env.create_out [
  | some e ↦ record { handles = none; spool_error = some e }
  | none ↦ elim env.create_err [
    | some e ↦ record { handles = none; spool_error = env.close_out }
    | none ↦ elim env.create_ret [
      | some e ↦ record { handles = none; spool_error = env.close_err }
      | none ↦ record {
        handles = some (record {
          out_path = spool_path dir host (bytes ".out");
          err_path = spool_path dir host (bytes ".err");
          ret_path = spool_path dir host (bytes ".ret");
        });
        spool_error = none;
      }
    ]
  ]
]

-- No error and no files: what comes of a second or third file that cannot be created, exactly when
-- the file before it closes well.
pub spool_handles_silent :
    (dir host : Str) (env : SpoolEnv)
    → ((spool_handles dir host env).handles ≡ none)
        × ((spool_handles dir host env).spool_error ≡ none)
      ↔ (env.create_out ≡ none)
        × (((env.create_err ≢ none) × (env.close_out ≡ none))
            ⊎ ((env.create_err ≡ none) × (env.create_ret ≢ none) × (env.close_err ≡ none)))
unfolding spool_handles
spool_handles_silent dir host env = (λ p. ground arith, λ p. ground arith)
