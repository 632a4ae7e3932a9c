-- ===== src/Server/Setup.antt =====
-- server.go: `NewSSHServer`. The parser of keys is an argument.
use metassh.Base.{ℕ, Bool, false, Str, Result, value, failure}
use metassh.SshConfig.Files.{Os}
use metassh.SshConfig.Configs.{ServerConfig, get_ssh_server_config}

pub record SshServer (Signer : Type 0) : Type 0 where
  pub readline_session : Bool
  pub ssh_config : ServerConfig Signer

unfoldable pub new_ssh_server :
    {Signer : Type 0} → (Str → Result Signer) → Result Str → ℕ → Os → Os × Result (SshServer Signer)
unfolding get_ssh_server_config
new_ssh_server parse contents f os =
    let (os1, config) = get_ssh_server_config parse contents f os in
    (
      os1,
      elim config [
        | failure err ↦ failure err
        | value c ↦ value (record { readline_session = false; ssh_config = c })
      ],
    )
