-- ===== src/Store/Types.antt =====
-- state.go: the records kept in the global state, the requests and the replies.
-- A `time.Duration` and a `time.Time` are numbers of nanoseconds; a channel and a pointer to an
-- `ssh.ClientConfig` are known by their addresses.
use metassh.Base.{ℕ, Bool, Option, none, List, [], Str, bytes, Dict}

pub record HostInfo : Type 0 where
  pub host_name : Str
  pub ip_address : Str
  pub chain : List Str
  pub requires_pw : Bool
  pub connected_ok : Bool
  pub connect_time : ℕ
  pub run_time : ℕ
  pub run_ok : Bool
  pub run_once : Bool
  pub last_error : Option Str

pub record ConnInfo : Type 0 where
  pub host_name : Str
  pub is_proxy : Bool
  pub is_direct : Bool
  pub proxy_count : ℕ
  pub req_chan : ℕ

pub record WaiterInfo : Type 0 where
  pub conn_waiters : ℕ
  pub run_waiters : ℕ
  pub avg_conn_wait : ℕ
  pub avg_run_wait : ℕ
  pub conn_states : Dict ℕ
  pub run_states : Dict ℕ

pub record WaitInfo : Type 0 where
  pub host_name : Str
  pub state : Str
  pub start_time : ℕ
  pub timeout_chan : ℕ

pub record ConnectionStatus : Type 0 where
  pub host_name : Str
  pub connected_ok : Bool
  pub connect_time : ℕ
  pub last_error : Option Str

pub record RunStatus : Type 0 where
  pub host_name : Str
  pub run_ok : Bool
  pub run_once : Bool
  pub run_time : ℕ
  pub last_error : Option Str
  pub cmd_output : Str

abbrev pub state_dialing : Str
state_dialing = bytes "dialing connection"

abbrev pub state_establishing : Str
state_establishing = bytes "establishing new client connection"

abbrev pub state_new_client : Str
state_new_client = bytes "creating new client"

abbrev pub state_done : Str
state_done = bytes "done"

abbrev pub state_new_session : Str
state_new_session = bytes "creating new session"

abbrev pub state_start_session : Str
state_start_session = bytes "starting session"

abbrev pub state_running : Str
state_running = bytes "running"

-- The fields of `State`; its request channel is the argument of `handle`.
pub record State : Type 0 where
  pub targets : Dict HostInfo
  pub conn : Dict ConnInfo
  pub ptr : Dict Str
  pub conn_waiters : Dict WaitInfo
  pub run_waiters : Dict WaitInfo
  pub ssh_config : Option ℕ
  pub ssh_auth_pass : Str

abbrev pub new_state : State
new_state = record {
  targets = [];
  conn = [];
  ptr = [];
  conn_waiters = [];
  run_waiters = [];
  ssh_config = none;
  ssh_auth_pass = [];
}

-- The messages that the serializer's `switch` tells apart. A response channel is not a field: the
-- reply is a result of `handle`. `get_waiter_info` carries the time that the serializer reads.
pub data Request : Type 0 where
  timeout_waiters : Request
  get_waiter_info : ℕ → Request
  delete_conn_wait_info : Str → Request
  delete_run_wait_info : Str → Request
  set_conn_wait_info : WaitInfo → Request
  set_run_wait_info : WaitInfo → Request
  set_conn_wait_state : Str → Str → Request
  set_run_wait_state : Str → Str → Request
  set_requires_pw : Str → Request
  get_ptr : Str → Request
  set_connection_status : ConnectionStatus → Request
  set_run_status : RunStatus → Request
  inc_proxy_count : Str → Request
  get_auth_pass : Request
  set_auth_pass : Str → Request
  get_ssh_config : Request
  set_ssh_config : Option ℕ → Request
  set_host_info : HostInfo → Request
  set_conn_info : ConnInfo → Request
  get_host_info : Str → Request
  delete_host_info : Str → Request
  clear_host_info : Request
  host_exists : Str → Request
  get_conn_info : Str → Request
  conn_exists : Str → Request
  delete_conn_info : Str → Request
  get_host_keys : Request
  get_conn_keys : Request

-- What is sent back; `silent` for the requests that have no response channel.
pub data Reply : Type 0 where
  silent : Reply
  flag : Bool → Reply
  text : Str → Reply
  waiters : WaiterInfo → Reply
  host : HostInfo → Reply
  connection : ConnInfo → Reply
  config : Option ℕ → Reply
  names : List Str → Reply

-- The buffers of the `timeoutChan`s, which hold one value each.
abbrev pub Slots : Type 0
Slots = ℕ → Option Bool

pub record World : Type 0 where
  pub state : State
  pub slots : Slots
