-- ===== src/Fleet/Json.antt =====
-- json.go: `LoadFile` and `LoadBlob`. `json.Unmarshal` is the argument: the servers that it finds, or its error.
use metassh.Base.{
  ℕ, ◌+◌, false, none, List, [], ◌∷◌, if◌then◌else◌, Str, split_on, Result, value, failure,
}
use metassh.Store.Types.{HostInfo}
use metassh.Store.Methods.{Act, ◌>>>◌, done}
use metassh.Store.Methods

pub record Server : Type 0 where
  pub name : Str
  pub chain : Str

abbrev pub host_of : Server → HostInfo
host_of srv = record {
  host_name = srv.name;
  ip_address = [];
  chain = split_on 32 srv.chain;
  requires_pw = false;
  connected_ok = false;
  connect_time = 0;
  run_time = 0;
  run_ok = false;
  run_once = false;
  last_error = none;
}

unfoldable pub load_servers : List Server → ℕ → Act ℕ
load_servers [] count = done count
load_servers (srv ∷ srvs) count = Methods.host_exists srv.name >>> λ exists.
    if exists
    then load_servers srvs count
    else (Methods.set_host_info (host_of srv) >>> λ _. load_servers srvs (count + 1))

unfoldable pub load_blob : Result (List Server) → Act (Result ℕ)
unfolding load_servers
load_blob (failure err) = done (failure err)
load_blob (value srvs) = load_servers srvs 0 >>> λ n. done (value n)

-- What `ioutil.ReadFile` returns is an argument, and so is `json.Unmarshal`.
unfoldable pub load_file : (Str → Result (List Server)) → Result Str → Act (Result ℕ)
unfolding load_blob
load_file unmarshal (failure err) = done (failure err)
load_file unmarshal (value blob) = load_blob (unmarshal blob)
