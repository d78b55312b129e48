-- ===== src/Integrated/Library.antt =====
-- What internal/integrated/engines.go uses of the NPS library: its records, with the fields that the
-- code reads or writes, and its calls as operations on the library's state.
use cosmo_nps.Base.{Bool, Option, none, List, [], Result, ℤ, pos, false}
use cosmo_nps.Text.{Text}

-- npsfile.Flow
pub record Flow : Type 0 where
  pub inlet_flow : ℤ
  pub export_flow : ℤ
  pub flow_limit : ℤ

abbrev pub zero_flow : Flow
zero_flow = record { inlet_flow = pos 0; export_flow = pos 0; flow_limit = pos 0 }

-- npsfile.Client; `flow` is none for nil
pub record FileClient : Type 0 where
  pub id : ℤ
  pub verify_key : Text
  pub remark : Text
  pub status : Bool
  pub web_user_name : Text
  pub port_pool : Text
  pub config_conn_allow : Bool
  pub max_tunnel_num : ℤ
  pub rate_limit : ℤ
  pub flow : Option Flow
  pub no_display : Bool
  pub addr : Text
  pub version : Text
  pub is_connect : Bool
  pub now_conn : ℤ
  pub last_online_time : Text

-- npsfile.Tunnel; `client` is the id of the client that it points to
pub record FileTask : Type 0 where
  pub id : ℤ
  pub port : ℤ
  pub mode : Text
  pub status : Bool
  pub client : ℤ
  pub remark : Text
  pub target : Text
  pub flow : Option Flow
  pub password : Text

-- npsfile.Host
pub record FileHost : Type 0 where
  pub id : ℤ
  pub host : Text
  pub target : Text
  pub header_change : Text
  pub host_change : Text
  pub remark : Text
  pub location : Text
  pub flow : Option Flow
  pub scheme : Text
  pub client : ℤ
  pub is_close : Bool
  pub auto_https : Bool

abbrev pub zero_task : FileTask
zero_task = record {
  id = pos 0;
  port = pos 0;
  mode = [];
  status = false;
  client = pos 0;
  remark = [];
  target = [];
  flow = none;
  password = [];
}

abbrev pub zero_host : FileHost
zero_host = record {
  id = pos 0;
  host = [];
  target = [];
  header_change = [];
  host_change = [];
  remark = [];
  location = [];
  flow = none;
  scheme = [];
  client = pos 0;
  is_close = false;
  auto_https = false;
}

-- The library on its state `L`. `clients`, `tasks` and `hosts` are the values in the order of one Range.
-- The `mark` operations stand for the fields of a stored record that are set through its pointer.
-- An error is its text.
pub record Nps (L : Type 0) : Type 1 where
  pub is_open : L → Bool
  pub has_bridge : L → Bool
  pub is_running : ℤ → L → Bool
  pub clients : L → List FileClient
  pub tasks : L → List FileTask
  pub hosts : L → List FileHost
  pub fresh_client : Text → FileClient
  pub mark_client : FileClient → L → L
  pub mark_task : FileTask → L → L
  pub mark_host : FileHost → L → L
  pub new_client : FileClient → L → Result Text FileClient × L
  pub next_task_id : L → ℤ × L
  pub next_host_id : L → ℤ × L
  pub update_task : FileTask → L → Result Text (Unit {0}) × L
  pub add_task : FileTask → L → Result Text (Unit {0}) × L
  pub store_host : FileHost → L → L
  pub stop_server : ℤ → L → L
  pub del_task : ℤ → L → L
  pub del_host : ℤ → L → L
  pub del_client : ℤ → L → L
  pub del_client_connect : ℤ → L → L
  pub del_tunnel_and_host : ℤ → L → L
