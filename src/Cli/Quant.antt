-- ===== src/Cli/Quant.antt =====
-- commands.go: `quant`. A `float64` and the package that estimates quantiles are a `Reals`.
use metassh.Base.{
  ℕ, Bool, not, ◌&&◌, ◌||◌, none, some, List, [], ◌∷◌, ◌++◌, if◌then◌else◌, Str, bytes, Dict,
  insert, Result, value, failure,
}
use metassh.Store.Methods.{Job, ◌>>>◌, done}
use metassh.Store.Methods
use metassh.Run.Program.{Program, named, on_state, say}
use metassh.Summary.SortMap.{at_key, sorted_rev_float_keys}
use metassh.Cli.Commands.{plain, help, Command}

-- How `reflectFlags` and `Parse` end: the flags, and the arguments that are left.
pub data Parsed (A : Type 0) : Type 0 where
  helped : Parsed A
  rejected : Str → Parsed A
  parsed : A → List Str → Parsed A

-- The error of the flags, or what follows them.
abbrev pub with_flags : {A : Type 0} → Parsed A → (A → List Str → Command) → Command
with_flags helped k = done (some help)
with_flags (rejected err) k = done (some (plain err))
with_flags (parsed flags rest) k = k flags rest

pub record QuantFlags : Type 0 where
  pub run_band : Bool
  pub connect_band : Bool

-- `strconv.ParseFloat`, the literals of the source, the order, `Duration.Seconds`, and the estimate
-- of a quantile of samples.
pub record Reals : Type 1 where
  pub Real : Type 0
  pub parse_float : Str → Result Real
  pub literal : Str → Real
  pub eq : Real → Real → Bool
  pub le : Real → Real → Bool
  pub lt : Real → Real → Bool
  pub seconds : ℕ → Real
  pub query : List ℕ → Real → Real

abbrev pub need_range : Str
need_range = bytes "Must specfy a range like, 0.95 0.99."

module _ (reals : Reals) where
  open reals use {Real, parse_float, literal, eq, le, lt, seconds, query}

  -- One band stands for the range up to the next one.
  unfoldable pub one_band : Real → Result (Real × Real)
  one_band start =
      if eq start (literal (bytes ".99"))
      then value (start, literal (bytes "1.0"))
      else if eq start (literal (bytes ".95"))
      then value (start, literal (bytes ".99"))
      else if eq start (literal (bytes ".90"))
      then value (start, literal (bytes ".95"))
      else if eq start (literal (bytes ".01"))
      then value (literal (bytes "0.0"), literal (bytes "0.1"))
      else failure need_range

  unfoldable pub two_bands : Real → Real → Result (Real × Real)
  two_bands start end =
      if lt end start
      then failure (bytes "First number must be smaller than second number.")
      else if le (literal (bytes "1")) start || lt (literal (bytes "1")) end
      then failure (bytes "Both start and end values must be <= 1.0")
      else value (start, end)

  abbrev pub then_real : Result Real → (Real → Result (Real × Real)) → Result (Real × Real)
  then_real (failure err) k = failure err
  then_real (value r) k = k r

  unfoldable pub range_of : List Str → Result (Real × Real)
  unfolding one_band two_bands
  range_of (b ∷ []) = then_real (parse_float b) one_band
  range_of (a ∷ b ∷ []) =
      then_real (parse_float a) λ start. then_real (parse_float b) λ end. two_bands start end
  range_of _ = failure need_range

  -- The samples of the first loop, for runs and for connections.
  unfoldable pub gather : List Str → List ℕ → List ℕ → Job Program (List ℕ × List ℕ)
  gather [] runs cons = done (runs, cons)
  gather (h ∷ hs) runs cons = on_state (Methods.get_host_info h) >>> λ found. elim found [
    | failure err ↦ gather hs runs cons
    | value hi ↦
        gather hs (if hi.run_ok && hi.run_once then runs ++ (hi.run_time ∷ []) else runs)
          (if hi.connected_ok then cons ++ (hi.connect_time ∷ []) else cons)
  ]

  abbrev pub within : List ℕ → Real × Real → ℕ → Bool
  within samples (start, end) t =
      le (query samples start) (seconds t) && le (seconds t) (query samples end)

  -- The results of the second loop.
  unfoldable pub select :
      List ℕ × List ℕ → Real × Real → List Str → Dict ℕ → Dict ℕ → Job Program (Dict ℕ × Dict ℕ)
  select samples range [] runs cons = done (runs, cons)
  select samples range (h ∷ hs) runs cons = on_state (Methods.get_host_info h) >>> λ found.
      elim found [
        | failure err ↦ select samples range hs runs cons
        | value hi ↦
            select samples range hs
              (if within samples.0 range hi.run_time then insert h hi.run_time runs else runs)
              (if within samples.1 range hi.connect_time
                then insert h hi.connect_time cons
                else cons)
      ]

  unfoldable pub say_results : Str → Dict ℕ → List Str → Job Program (Unit {0})
  say_results what m [] = done tt
  say_results what m (h ∷ hs) =
      say (named (what ++ bytes " time (%s): %05.5fs\n") h (at_key m h)) >>> λ _.
      say_results what m hs

  unfoldable pub output_results : Str → Dict ℕ → Job Program (Unit {0})
  unfolding sorted_rev_float_keys say_results
  output_results what m = say_results what m (sorted_rev_float_keys m)

  unfoldable pub quant : (List Str → Parsed QuantFlags) → List Str → Command
  unfolding range_of gather select output_results
  quant parse args = with_flags (parse args) λ flags bands.
      if not flags.run_band && not flags.connect_band
      then done (some (plain (bytes "Need to specify either -r or -c.")))
      else elim (range_of bands) as (λ _. Command) [
        | failure err ↦ done (some (plain err))
        | value range ↦ on_state Methods.get_host_keys >>> λ hk. gather hk [] [] >>> λ samples.
            select samples range hk [] [] >>> λ results.
            (if flags.connect_band then output_results (bytes "Connect") results.1 else done tt)
            >>> λ _.
                (if flags.run_band then output_results (bytes "Run") results.0 else done tt)
                >>> λ _. done none
      ]
