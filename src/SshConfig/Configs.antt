-- ===== src/SshConfig/Configs.antt =====
-- sshconfig.go: signers, and the configurations of client and server. The parser of keys, and the
-- connection to the agent, are arguments; what else a configuration holds is not used.
use metassh.Base.{ℕ, Bool, true, Option, none, some, Str, Result, value, failure}
use metassh.SshConfig.Files.{Os, opened, close_file}

pub data Auth (Signer : Type 0) : Type 0 where
  agent : Auth Signer
  public_key : Signer → Auth Signer

pub record ClientConfig (Signer : Type 0) : Type 0 where
  pub user : Str
  pub auth : Auth Signer

pub record ServerConfig (Signer : Type 0) : Type 0 where
  pub no_client_auth : Bool
  pub host_key : Signer

module _ {Signer : Type 0} (parse : Str → Result Signer) where
  -- The file is closed however the function returns.
  unfoldable pub make_signer : Result Str → ℕ → Os → Os × Result Signer
  make_signer contents f os =
      (close_file f os, elim contents [ failure err ↦ failure err | value buf ↦ parse buf ])

  unfoldable pub get_ssh_config_file : Str → Result Str → ℕ → Os → Os × Result (ClientConfig Signer)
  unfolding make_signer
  get_ssh_config_file user contents f os =
      let (os1, signer) = make_signer contents f os in
      (
        os1,
        elim signer [
          | failure err ↦ failure err
          | value key ↦ value (record { user = user; auth = public_key key })
        ],
      )

  unfoldable pub get_ssh_server_config : Result Str → ℕ → Os → Os × Result (ServerConfig Signer)
  unfolding make_signer
  get_ssh_server_config contents f os =
      let (os1, signer) = make_signer contents f os in
      (
        os1,
        elim signer [
          | failure err ↦ failure err
          | value key ↦ value (record { no_client_auth = true; host_key = key })
        ],
      )

-- The socket of the agent stays open.
unfoldable pub get_ssh_config_agent :
    {Signer : Type 0} → Str → Option Str → Os → Os × Result (ClientConfig Signer)
get_ssh_config_agent user none os = (opened os, value (record { user = user; auth = agent }))
get_ssh_config_agent user (some err) os = (os, failure err)
