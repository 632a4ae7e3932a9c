-- ===== src/SshConfig/Examples.antt =====
-- sshconfig.go: the theorems at an encrypted key, and at one that ssh-keygen does not strip.
use metassh.Base.{
  ℕ, ◌≡◌, refl, ◌≢◌, none, [], ◌∷◌, arith, Str, bytes, str_eq, str_eq_iff, contains, Result, value,
  failure,
}
use metassh.Base.{without}
use metassh.SshConfig.Files.{Os, without_name}
use metassh.SshConfig.Keys.{KeyEnv, get_private_key_file}
use metassh.SshConfig.Leaks.{Leaves, get_private_key_file-Leaves}

abbrev sealed : KeyEnv
sealed = record {
  open_error = none;
  contents = value (bytes "Proc-Type: 4,ENCRYPTED");
  seek_error = none;
  close_error = none;
  temp_name = value (bytes "key2");
  write_error = none;
  temp_close_error = none;
  password = value (bytes "secret");
  start_error = none;
  wait_error = none;
  reopen_error = none;
  remove_error = none;
}

-- No key is one.
abbrev parse : Str → Result ℕ
parse s = failure s

abbrev std : Os
std = record {
  open_files = 2 ∷ 1 ∷ 0 ∷ [];
  next_file = 3;
  temp_files = bytes "key1" ∷ [];
  said = [];
}

apart : bytes "key2" ≢ bytes "key1"
unfolding str_eq
apart e = let (_, back) = str_eq_iff (bytes "key2") (bytes "key1") in cc (back e)

get_private_key_file-Leaves_example :
    Leaves (2 ∷ 1 ∷ 0 ∷ []) (bytes "key1" ∷ []) (get_private_key_file sealed (bytes "id") std)
get_private_key_file-Leaves_example =
    get_private_key_file-Leaves sealed (bytes "id") refl std (omega arith) (apart, tt)

unsealed : get_private_key_file sealed (bytes "id") std ≡ (
  record std {
    open_files = 5 ∷ 2 ∷ 1 ∷ 0 ∷ [];
    next_file = 6;
    said = bytes "Passphrase for id: " ∷ bytes "\n" ∷ [];
  },
  value 5,
)
unfolding get_private_key_file without without_name contains str_eq
unsealed = refl
