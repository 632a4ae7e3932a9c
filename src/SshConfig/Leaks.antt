-- ===== src/SshConfig/Leaks.antt =====
-- sshconfig.go: which files are open, and which keys are on the disk, once a key is loaded.
use metassh.Base.{
  ℕ, ◌<◌, ◌≡◌, refl, ◌≢◌, inl, inr, Option, none, some, List, [], ◌∷◌, arith, Bool-cases, All, Str,
  bytes, str_eq_refl, contains, Result, value, failure,
}
use mathlib.Core.Path.{subst}
use metassh.Base.{without, without-fresh}
use metassh.SshConfig.Files.{
  Os, opened, close_file, temp_opened, remove_file, Numbered, without_name, without_name-fresh,
  All-lt_suc,
}
use metassh.SshConfig.Keys.{
  KeyEnv, Opening, or_fail, strip_passphrase, use_copy, copy_key, keep_or_copy, read_key,
  get_private_key_file,
}
use metassh.SshConfig.Configs.{ClientConfig, get_ssh_config_file}

-- The files, with the one that is handed out.
abbrev pub returned : Result ℕ → List ℕ → List ℕ
returned (failure err) fs = fs
returned (value f) fs = f ∷ fs

abbrev pub IsNewFile : Result ℕ → List ℕ → Type 0
IsNewFile (failure err) fs = Unit {0}
IsNewFile (value f) fs = All (λ g. g < f) fs

abbrev pub Leaves : List ℕ → List Str → Opening → Type 0
Leaves fs temps (os, r) = (os.open_files ≡ returned r fs) × (os.temp_files ≡ temps) × IsNewFile r fs

close_opened :
    (os : Os) → Numbered os → (close_file os.next_file (opened os)).open_files ≡ os.open_files
unfolding without
close_opened os numbered = ground (arith, without-fresh os.next_file os.open_files numbered)

close_opened-Numbered : (os : Os) → Numbered os → Numbered (close_file os.next_file (opened os))
close_opened-Numbered os numbered =
    rw (close_opened os numbered) (All-lt_suc os.next_file os.open_files numbered)

-- No temporary key has the name that a new one gets.
abbrev pub IsNewName : Result Str → List Str → Type 0
IsNewName (failure err) temps = Unit {0}
IsNewName (value temp) temps = All (λ n. temp ≢ n) temps

or_fail-Leaves :
    (fs : List ℕ) (temps : List Str) (err : Option Str) (left : Os) (rest : Opening)
    → Leaves fs temps (left, failure [])
    → Leaves fs temps rest
    → Leaves fs temps (or_fail err left rest)
or_fail-Leaves fs temps (some err) left rest p q = p
or_fail-Leaves fs temps none left rest p q = q

module _ (env : KeyEnv) (key_name : Str) (removed : env.remove_error ≡ none) where
  remove-Leaves :
      (temp : Str) (temps : List Str) (os : Os)
      → All (λ n. temp ≢ n) temps
      → os.temp_files ≡ temp ∷ temps
      → (remove_file env.remove_error temp os).temp_files ≡ temps
  unfolding without_name
  remove-Leaves temp temps os fresh e =
      rw (removed, remove_file) (rw e (rw (str_eq_refl temp) (without_name-fresh temp temps fresh)))

  strip-Leaves :
      (temp : Str) (temps : List Str) (os : Os)
      → Numbered os
      → All (λ n. temp ≢ n) temps
      → os.temp_files ≡ temp ∷ temps
      → Leaves os.open_files temps (strip_passphrase env key_name temp os)
  unfolding strip_passphrase without_name
  strip-Leaves temp temps os numbered fresh e =
      ground (arith, removed, e, str_eq_refl temp, without_name-fresh temp temps fresh)

  use_copy-Leaves :
      (temp : Str) (os : Os)
      → Numbered os
      → All (λ n. temp ≢ n) os.temp_files
      → Leaves os.open_files os.temp_files (use_copy env key_name temp os)
  unfolding use_copy without_name without
  use_copy-Leaves temp os numbered fresh =
      let copied = close_file os.next_file (temp_opened temp os) in
      ground (
        arith,
        removed,
        str_eq_refl temp,
        without_name-fresh temp os.temp_files fresh,
        without-fresh os.next_file os.open_files numbered,
        strip-Leaves temp os.temp_files copied (close_opened-Numbered os numbered) fresh refl,
      )

  copy-Leaves :
      (name : Result Str) (os : Os)
      → env.temp_name ≡ name
      → Numbered os
      → IsNewName name os.temp_files
      → Leaves os.open_files os.temp_files (copy_key env key_name os)
  unfolding copy_key
  copy-Leaves (failure err) os e numbered fresh = ground (arith, e)
  copy-Leaves (value temp) os e numbered fresh =
      ground (arith, e, use_copy-Leaves temp os numbered fresh)

  keep_or_copy-Leaves :
      (buf : Str) (os : Os)
      → Numbered os
      → IsNewName env.temp_name os.temp_files
      → Leaves os.open_files os.temp_files (keep_or_copy env key_name buf os.next_file (opened os))
  unfolding keep_or_copy
  keep_or_copy-Leaves buf os numbered fresh =
      let shut = close_file os.next_file (opened os) in
      elim (Bool-cases (contains buf (bytes "ENCRYPTED"))) [
        | inl encrypted ↦ rw encrypted (
            or_fail-Leaves os.open_files os.temp_files env.close_error shut _
              (close_opened os numbered, refl, tt)
              (subst (λ l. Leaves l os.temp_files (copy_key env key_name shut))
                (close_opened os numbered)
                (copy-Leaves env.temp_name shut refl (close_opened-Numbered os numbered) fresh)))
        | inr clear ↦ rw clear (refl, refl, numbered)
      ]

  read-Leaves :
      (contents : Result Str) (os : Os)
      → env.contents ≡ contents
      → Numbered os
      → IsNewName env.temp_name os.temp_files
      → Leaves os.open_files os.temp_files (read_key env key_name os.next_file (opened os))
  unfolding read_key
  read-Leaves (failure err) os e numbered fresh =
      rw (e, read_key) (close_opened os numbered, refl, tt)
  read-Leaves (value buf) os e numbered fresh =
      rw (e, read_key)
        (or_fail-Leaves os.open_files os.temp_files env.seek_error _ _
          (close_opened os numbered, refl, tt) (keep_or_copy-Leaves buf os numbered fresh))

  -- If `os.Remove` has no error, the name of a new temporary file is not taken, and no number above
  -- those given out is open: however the loading of a key ends, no file is left open but those from
  -- before and the one that it hands out, which is new, and no copy of the key is left on the disk.
  pub get_private_key_file-Leaves :
      (os : Os)
      → Numbered os
      → IsNewName env.temp_name os.temp_files
      → Leaves os.open_files os.temp_files (get_private_key_file env key_name os)
  unfolding get_private_key_file
  get_private_key_file-Leaves os numbered fresh =
      or_fail-Leaves os.open_files os.temp_files env.open_error os _ (refl, refl, tt)
        (read-Leaves env.contents os refl numbered fresh)

abbrev pub use_key :
    {Signer : Type 0}
    → (Str → Result Signer)
    → Str
    → Result Str
    → Opening
    → Os × Result (ClientConfig Signer)
use_key parse user contents (os, failure err) = (os, failure err)
use_key parse user contents (os, value f) = get_ssh_config_file parse user contents f os

-- The key of the client, loaded and used as `main` does.
abbrev pub config_from_key :
    {Signer : Type 0}
    → KeyEnv
    → (Str → Result Signer)
    → Str
    → Result Str
    → Str
    → Os
    → Os × Result (ClientConfig Signer)
config_from_key env parse user contents key_name os =
    use_key parse user contents (get_private_key_file env key_name os)

closes :
    {Signer : Type 0} (parse : Str → Result Signer) (user : Str) (contents : Result Str)
    (fs : List ℕ) (temps : List Str) (loaded : Opening)
    → Leaves fs temps loaded
    → ((use_key parse user contents loaded).0.open_files ≡ fs)
      × ((use_key parse user contents loaded).0.temp_files ≡ temps)
unfolding without get_ssh_config_file
closes parse user contents fs temps (os, failure err) (e, t, n) = (e, t)
closes parse user contents fs temps (os, value f) (e, t, n) =
    (rw e (ground (arith, without-fresh f fs n)), t)

-- Whatever fails while the client's key is loaded and parsed, its files are closed in the end.
pub config_from_key_closes :
    {Signer : Type 0} (env : KeyEnv) (parse : Str → Result Signer) (user : Str)
    (contents : Result Str) (key_name : Str) (os : Os)
    → env.remove_error ≡ none
    → Numbered os
    → IsNewName env.temp_name os.temp_files
    → ((config_from_key env parse user contents key_name os).0.open_files ≡ os.open_files)
      × ((config_from_key env parse user contents key_name os).0.temp_files ≡ os.temp_files)
config_from_key_closes env parse user contents key_name os removed numbered fresh =
    closes parse user contents os.open_files os.temp_files (get_private_key_file env key_name os)
      (get_private_key_file-Leaves env key_name removed os numbered fresh)
