-- ===== src/Tests/Data.antt =====
-- Test data: an outside, and a store with one user, the default node and one tunnel.
use cosmo_nps.Base.{ℕ, suc, ◌%◌, true, some, none, List, [], ◌∷◌, pos, length, arith}
use cosmo_nps.Text.{str}
use cosmo_nps.Text.Hex.{AreBytes}
use cosmo_nps.Core.Port.{PortRange}
use cosmo_nps.Core.Env.{Env, absent}
use cosmo_nps.Core.Model.{
  User, Node, Tunnel, Database, zero_user, zero_node, role_user, default_node_id, engine_nps,
}
use cosmo_nps.Store.Base.{Store}

-- a stand-in for SHA-256 that returns one byte
abbrev pub byte_sum : List ℕ → List ℕ
byte_sum bs = (length bs % 256) ∷ []

pub byte_sum-AreBytes : (bs : List ℕ) → AreBytes (byte_sum bs)
byte_sum-AreBytes bs = (omega arith, tt)

abbrev pub outside : Env
outside = record {
  now = pos 1000;
  random = λ i. some (suc i ∷ 171 ∷ []);
  nanos = λ i. pos i;
  sha256 = byte_sum;
  write = none;
}

abbrev pub web_range : PortRange
web_range = record { start = pos 8000; end = pos 8010 }

abbrev pub ssh_range : PortRange
ssh_range = record { start = pos 22; end = pos 22 }

abbrev pub alice : User
alice = record zero_user {
  name = str "alice";
  password = str "secret";
  role = role_user;
  enabled = true;
  port_pools = web_range ∷ [];
  domain_pools = str "*.example.com" ∷ [];
  max_ports = pos 2;
}

abbrev pub home : Node
home = record zero_node {
  id = default_node_id;
  name = str "Local Node";
  token = str "t";
  enabled = true;
  nps_enabled = true;
}

abbrev pub web : Tunnel
web = record {
  id = [];
  user_name = str "alice";
  node_id = str "local";
  engine = engine_nps;
  mode = str "tcp";
  remote_port = pos 8001;
  local_ip = str "127.0.0.1";
  local_port = pos 80;
  domains = [];
  remark = [];
  enabled = true;
  created_at = pos 0;
  updated_at = pos 0;
}

abbrev pub team : Database
team = record {
  users = (str "alice", alice) ∷ [];
  nodes = (default_node_id, home) ∷ [];
  tunnels = (str "w", record web { id = str "w"; remote_port = pos 8002 }) ∷ [];
}

abbrev pub shop : Store
shop = record { db = team; file = absent }
