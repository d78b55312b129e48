-- ===== src/Control/Nodes.antt =====
-- The handlers of /api/nodes and the bundle of an agent (cmd/tunnel-control/main.go).
pub mod Bundle
use cosmo_nps.Base.{
  Bool, true, false, ◌&&◌, ◌||◌, not, Option, none, some, List, [], ◌∷◌, Result, ok, err, ◌>>=◌,
  if◌then◌else◌,
}
use cosmo_nps.Text.{Text, str, ◌==◌}
use cosmo_nps.Text.Scan.{trim_space, trim_prefix, contains_byte}
use cosmo_nps.Core.Port.{PortRange}
use cosmo_nps.Core.Env.{Env}
use cosmo_nps.Core.Model.{User, Node, Tunnel, RuntimeConfig, Time, zero_node, default_node_id}
use cosmo_nps.Store.Base.{Store}
use cosmo_nps.Store.Users.{all_users}
use cosmo_nps.Store.Nodes.{list_nodes, get_node, upsert_node, delete_node}
use cosmo_nps.Store.Tunnels.{list_tunnels}
use cosmo_nps.Control.Sessions.{
  Server, Reply, ApiError, bad_body, not_found, bad_token, unknown_node, node_required, is_admin,
  replying,
}
use cosmo_nps.Control.Users.{require_admin, chosen_ports, chosen_domains, or_true}
use cosmo_nps.Control.Usage.{filter_tunnels_by_node, users_for_tunnels}

-- the nodes that a user who is no admin sees, without their tokens
unfoldable pub shown_nodes : List Node → List Node
shown_nodes [] = []
shown_nodes (n ∷ ns) =
    let rest = shown_nodes ns in
    if n.id == default_node_id || not n.enabled then rest else record n { token = [] } ∷ rest

unfoldable pub list_nodes_handler : User → Store → List Node
list_nodes_handler user s =
    if is_admin (some user) then list_nodes s else shown_nodes (list_nodes s)

-- the body of upsertNode; `frpEnabled`, which the handler does not read, is left out
pub record NodeRequest : Type 0 where
  pub id : Text
  pub name : Text
  pub token : Text
  pub public_addr : Text
  pub enabled : Option Bool
  pub nps_enabled : Option Bool
  pub port_pool : Text
  pub port_pools : List PortRange
  pub domain_pool : Text
  pub domain_pools : List Text
  pub runtime : RuntimeConfig

unfoldable pub requested_node : NodeRequest → List PortRange → List Text → Node
requested_node req ports domains = record zero_node {
  id = req.id;
  name = req.name;
  token = req.token;
  public_addr = req.public_addr;
  enabled = or_true req.enabled;
  frp_enabled = false;
  nps_enabled = or_true req.nps_enabled;
  port_pools = ports;
  domain_pools = domains;
  runtime = req.runtime;
}

unfoldable pub read_node : NodeRequest → Result ApiError Node
read_node req = do
  ports ← chosen_ports req.port_pool req.port_pools
  domains ← chosen_domains req.domain_pool req.domain_pools
  ok (requested_node req ports domains)

unfoldable pub upsert_read_node : Env → Result ApiError Node → Server → Reply Node
upsert_read_node env (err e) a = (err e, a)
upsert_read_node env (ok n) a = replying a (upsert_node env n a.store)

unfoldable pub upsert_node_handler : Env → User → Option NodeRequest → Server → Reply Node
upsert_node_handler env user none a = require_admin user a (err bad_body, a)
upsert_node_handler env user (some req) a =
    require_admin user a (upsert_read_node env (read_node req) a)

unfoldable pub delete_node_handler : Env → User → Text → Server → Reply Unit
delete_node_handler env user path a =
    let id = trim_prefix path (str "/api/nodes/") in
    require_admin user a (
      if id == [] || contains_byte id b'/'
      then (err not_found, a)
      else replying a (delete_node env id a.store))

-- agentSyncBundle
pub record AgentSyncBundle : Type 0 where
  pub generated_at : Time
  pub node : Node
  pub users : List User
  pub tunnels : List Tunnel

unfoldable pub bundle_for_node : Time → Store → Node → AgentSyncBundle
bundle_for_node now s node =
    let tunnels = filter_tunnels_by_node (list_tunnels s []) node.id in
    record {
      generated_at = now;
      node = node;
      users = users_for_tunnels (all_users s) tunnels;
      tunnels = tunnels;
    }

unfoldable pub admit_agent : Text → Option Node → Result ApiError Node
admit_agent token none = err unknown_node
admit_agent token (some n) =
    if not n.enabled
    then err unknown_node
    else if token == [] || (n.token == [] || not (token == n.token))
    then err bad_token
    else ok n

-- agentBundle with the parameter `node` and the Authorization header
unfoldable pub agent_bundle : Time → Text → Text → Store → Result ApiError AgentSyncBundle
agent_bundle now query header s =
    let id = trim_space query in
    if id == [] then err node_required else do
      n ← admit_agent (trim_space (trim_prefix header (str "Bearer "))) (get_node s id)
      ok (bundle_for_node now s n)
