-- ===== src/SshConfig/Keys.antt =====
-- sshconfig.go: `getPrivateKeyFile`. What the calls of the system answer is a `KeyEnv`; debug
-- messages are left out.
use metassh.Base.{
  ℕ, Option, none, some, ◌++◌, if◌then◌else◌, Str, bytes, contains, Result, value, failure,
}
use metassh.SshConfig.Files.{Os, opened, close_file, temp_opened, remove_file, prompt}

pub record KeyEnv : Type 0 where
  pub open_error : Option Str
  pub contents : Result Str
  pub seek_error : Option Str
  pub close_error : Option Str
  pub temp_name : Result Str
  pub write_error : Option Str
  pub temp_close_error : Option Str
  pub password : Result Str
  pub start_error : Option Str
  pub wait_error : Option Str
  pub reopen_error : Option Str
  pub remove_error : Option Str

abbrev pub Opening : Type 0
Opening = Os × Result ℕ

-- The error of a call that failed, from the state in which the deferred calls leave the process.
abbrev pub or_fail : Option Str → Os → Opening → Opening
or_fail (some err) left rest = (left, failure err)
or_fail none left rest = rest

-- From the prompt on, with the copy of the key closed. The deferred `os.Remove` is the last call.
unfoldable pub strip_passphrase : KeyEnv → Str → Str → Os → Opening
strip_passphrase env key_name temp os =
    let asked =
      prompt (bytes "\n") (prompt (bytes "Passphrase for " ++ key_name ++ bytes ": ") os) in
    let gone = remove_file env.remove_error temp asked in
    elim env.password as (λ _. Opening) [
      | failure err ↦ (gone, failure err)
      | value pw ↦ or_fail env.start_error gone (
          or_fail env.wait_error gone (
            or_fail env.reopen_error gone
              (remove_file env.remove_error temp (opened asked), value asked.next_file)))
    ]

-- With a new temporary file open. A `Write` that fails leaves the copy to the deferred `Close`.
unfoldable pub use_copy : KeyEnv → Str → Str → Os → Opening
unfolding strip_passphrase
use_copy env key_name temp os =
    let os1 = temp_opened temp os in
    let copied = close_file os.next_file os1 in
    or_fail env.write_error (close_file os.next_file (remove_file env.remove_error temp os1)) (
      or_fail env.temp_close_error (remove_file env.remove_error temp copied)
        (strip_passphrase env key_name temp copied))

-- The copy of an encrypted key.
unfoldable pub copy_key : KeyEnv → Str → Os → Opening
unfolding use_copy
copy_key env key_name os = elim env.temp_name [
  | failure err ↦ (os, failure err)
  | value temp ↦ use_copy env key_name temp os
]

-- An encrypted key is closed and copied.
unfoldable pub keep_or_copy : KeyEnv → Str → Str → ℕ → Os → Opening
unfolding copy_key
keep_or_copy env key_name buf f os =
    if contains buf (bytes "ENCRYPTED")
    then or_fail env.close_error (close_file f os) (copy_key env key_name (close_file f os))
    else (os, value f)

-- With the file `f` of the key open.
unfoldable pub read_key : KeyEnv → Str → ℕ → Os → Opening
unfolding keep_or_copy
read_key env key_name f os = elim env.contents [
  | failure err ↦ (close_file f os, failure err)
  | value buf ↦ or_fail env.seek_error (close_file f os) (keep_or_copy env key_name buf f os)
]

unfoldable pub get_private_key_file : KeyEnv → Str → Os → Opening
unfolding read_key
get_private_key_file env key_name os =
    or_fail env.open_error os (read_key env key_name os.next_file (opened os))
