-- ===== src/SshConfig/Files.antt =====
-- sshconfig.go: the files of the process, as its calls of `os` and `ioutil` leave them. A file is
-- closed also where `Close` has an error; a failing `Remove` leaves the file where it is.
use metassh.Base.{without}
use metassh.Base.{
  ℕ, suc, ◌<◌, ◌≡◌, refl, ◌≢◌, Option, none, some, List, [], ◌∷◌, ◌++◌, arith, if◌then◌else◌, All,
  Str, str_eq, str_eq_iff,
}

-- The open files, by numbers that are given out once, the temporary keys on the disk, and what
-- `Out` printed.
pub record Os : Type 0 where
  pub open_files : List ℕ
  pub next_file : ℕ
  pub temp_files : List Str
  pub said : List Str

abbrev pub opened : Os → Os
opened os = record os { open_files = os.next_file ∷ os.open_files; next_file = suc os.next_file }

abbrev pub close_file : ℕ → Os → Os
close_file f os = record os { open_files = without f os.open_files }

-- `ioutil.TempFile`, which opens a new file.
abbrev pub temp_opened : Str → Os → Os
temp_opened name os = opened (record os { temp_files = name ∷ os.temp_files })

unfoldable pub without_name : Str → List Str → List Str
without_name name [] = []
without_name name (n ∷ names) =
    if str_eq name n then without_name name names else n ∷ without_name name names

abbrev pub remove_file : Option Str → Str → Os → Os
remove_file none name os = record os { temp_files = without_name name os.temp_files }
remove_file (some err) name os = os

abbrev pub prompt : Str → Os → Os
prompt text os = record os { said = os.said ++ (text ∷ []) }

-- No number above the ones given out is open.
abbrev pub Numbered : Os → Type 0
Numbered os = All (λ f. f < os.next_file) os.open_files

pub without_name-fresh :
    (name : Str) (names : List Str) → All (λ n. name ≢ n) names → without_name name names ≡ names
unfolding without_name
without_name-fresh name [] h = refl
without_name-fresh name (n ∷ names) (h, hs) =
    ground (arith, str_eq_iff name n, without_name-fresh name names hs)

pub All-lt_suc : (n : ℕ) (fs : List ℕ) → All (λ f. f < n) fs → All (λ f. f < suc n) fs
All-lt_suc n [] h = tt
All-lt_suc n (f ∷ fs) (h, hs) = (omega arith, All-lt_suc n fs hs)
