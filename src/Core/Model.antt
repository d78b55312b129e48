-- ===== src/Core/Model.antt =====
-- The data model (internal/core/types.go, RuntimeConfig of internal/core/adapters.go). A time is the
-- number of nanoseconds since Go's zero time, which `IsZero` tests for.
use cosmo_nps.Base.{Bool, false, not, ◌&&◌, ◌||◌, List, [], ℤ, pos, ltb_ℤ, eqb_ℤ, if◌then◌else◌}
use cosmo_nps.Text.{Text, str, ◌==◌}
use cosmo_nps.Dict.{Dict}
use cosmo_nps.Core.Port.{PortRange}

abbrev pub Time : Type 0
Time = ℤ

abbrev pub zero_time : Time
zero_time = pos 0

abbrev pub is_zero : Time → Bool
is_zero t = eqb_ℤ t zero_time

-- t.After(u)
abbrev pub after : Time → Time → Bool
after t u = ltb_ℤ u t

abbrev pub engine_frp : Text
engine_frp = str "frp"

abbrev pub engine_nps : Text
engine_nps = str "nps"

abbrev pub role_admin : Text
role_admin = str "admin"

abbrev pub role_user : Text
role_user = str "user"

abbrev pub default_node_id : Text
default_node_id = str "local"

pub record User : Type 0 where
  pub name : Text
  pub password : Text
  pub password_hash : Text
  pub role : Text
  pub enabled : Bool
  pub port_pools : List PortRange
  pub domain_pools : List Text
  pub max_ports : ℤ
  pub frp_token : Text
  pub nps_verify_key : Text
  pub rate_limit : ℤ
  pub flow_limit : ℤ
  pub flow_used : ℤ
  pub expires_at : Time
  pub expired_at : Time
  pub created_at : Time
  pub updated_at : Time

pub record PublicUser : Type 0 where
  pub name : Text
  pub role : Text
  pub enabled : Bool
  pub port_pools : List PortRange
  pub domain_pools : List Text
  pub max_ports : ℤ
  pub has_password : Bool
  pub has_frp_token : Bool
  pub has_nps_verify_key : Bool
  pub rate_limit : ℤ
  pub flow_limit : ℤ
  pub flow_used : ℤ
  pub inlet_speed : ℤ
  pub export_speed : ℤ
  pub expires_at : Time
  pub expired_at : Time
  pub created_at : Time
  pub updated_at : Time

pub record RuntimeConfig : Type 0 where
  pub server_addr : Text
  pub frp_server_port : ℤ
  pub frp_http_port : ℤ
  pub frp_https_port : ℤ
  pub nps_server_port : ℤ
  pub nps_http_proxy_port : ℤ
  pub nps_https_port : ℤ

pub record NodeStatus : Type 0 where
  pub online : Bool
  pub last_seen_at : Time
  pub last_sync_at : Time
  pub last_error : Text

pub record Node : Type 0 where
  pub id : Text
  pub name : Text
  pub token : Text
  pub public_addr : Text
  pub enabled : Bool
  pub frp_enabled : Bool
  pub nps_enabled : Bool
  pub port_pools : List PortRange
  pub domain_pools : List Text
  pub runtime : RuntimeConfig
  pub status : NodeStatus
  pub created_at : Time
  pub updated_at : Time

pub record Tunnel : Type 0 where
  pub id : Text
  pub user_name : Text
  pub node_id : Text
  pub engine : Text
  pub mode : Text
  pub remote_port : ℤ
  pub local_ip : Text
  pub local_port : ℤ
  pub domains : List Text
  pub remark : Text
  pub enabled : Bool
  pub created_at : Time
  pub updated_at : Time

pub record Database : Type 0 where
  pub users : Dict User
  pub nodes : Dict Node
  pub tunnels : Dict Tunnel

-- Go's zero values, from which the composite literals start
abbrev pub zero_user : User
zero_user = record {
  name = [];
  password = [];
  password_hash = [];
  role = [];
  enabled = false;
  port_pools = [];
  domain_pools = [];
  max_ports = pos 0;
  frp_token = [];
  nps_verify_key = [];
  rate_limit = pos 0;
  flow_limit = pos 0;
  flow_used = pos 0;
  expires_at = zero_time;
  expired_at = zero_time;
  created_at = zero_time;
  updated_at = zero_time;
}

abbrev pub zero_runtime : RuntimeConfig
zero_runtime = record {
  server_addr = [];
  frp_server_port = pos 0;
  frp_http_port = pos 0;
  frp_https_port = pos 0;
  nps_server_port = pos 0;
  nps_http_proxy_port = pos 0;
  nps_https_port = pos 0;
}

abbrev pub zero_status : NodeStatus
zero_status = record {
  online = false;
  last_seen_at = zero_time;
  last_sync_at = zero_time;
  last_error = [];
}

abbrev pub zero_node : Node
zero_node = record {
  id = [];
  name = [];
  token = [];
  public_addr = [];
  enabled = false;
  frp_enabled = false;
  nps_enabled = false;
  port_pools = [];
  domain_pools = [];
  runtime = zero_runtime;
  status = zero_status;
  created_at = zero_time;
  updated_at = zero_time;
}

unfoldable pub status_is_zero : NodeStatus → Bool
status_is_zero s =
    not s.online && is_zero s.last_seen_at && is_zero s.last_sync_at && s.last_error == []

-- Public(u): what the API shows of a user
unfoldable pub public : User → PublicUser
public u = record {
  name = u.name;
  role = u.role;
  enabled = u.enabled;
  port_pools = u.port_pools;
  domain_pools = u.domain_pools;
  max_ports = u.max_ports;
  has_password = not (u.password == []) || not (u.password_hash == []);
  has_frp_token = not (u.frp_token == []);
  has_nps_verify_key = not (u.nps_verify_key == []);
  rate_limit = u.rate_limit;
  flow_limit = u.flow_limit;
  flow_used = u.flow_used;
  inlet_speed = pos 0;
  export_speed = pos 0;
  expires_at = u.expires_at;
  expired_at = u.expired_at;
  created_at = u.created_at;
  updated_at = u.updated_at;
}

-- cfg.withDefaults()
unfoldable pub with_defaults : RuntimeConfig → RuntimeConfig
with_defaults c = record c {
  server_addr = if c.server_addr == [] then str "127.0.0.1" else c.server_addr;
  frp_server_port = if eqb_ℤ c.frp_server_port (pos 0) then pos 7000 else c.frp_server_port;
  nps_server_port = if eqb_ℤ c.nps_server_port (pos 0) then pos 8024 else c.nps_server_port;
}
