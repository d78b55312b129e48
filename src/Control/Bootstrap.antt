-- ===== src/Control/Bootstrap.antt =====
-- What a client program gets at its start (clientBootstrap of cmd/tunnel-control/main.go).
pub mod Groups
pub mod Exact
use cosmo_nps.Base.{
  Bool, true, false, not, ◌&&◌, ◌||◌, Option, none, some, List, [], ◌∷◌, ◌++◌, Result, ok, err,
  if◌then◌else◌,
}
use cosmo_nps.Text.{Text, ◌==◌}
use cosmo_nps.Dict.{Dict, lookup, insert}
use cosmo_nps.Core.Model.{User, PublicUser, Node, Tunnel, RuntimeConfig, Time, public}
use cosmo_nps.Store.Base.{Store}
use cosmo_nps.Store.Users.{get_user}
use cosmo_nps.Store.Nodes.{list_nodes}
use cosmo_nps.Store.Tunnels.{list_tunnels}
use cosmo_nps.Control.Sessions.{ApiError, user_not_found, is_admin}
use cosmo_nps.Control.Usage.{or_default, runtime_for_node}

-- clientBootstrapNode
pub record BootstrapNode : Type 0 where
  pub id : Text
  pub name : Text
  pub runtime : RuntimeConfig
  pub tunnels : List Tunnel

-- clientBootstrapResponse, with the fields of clientBootstrapSecret
pub record BootstrapResponse : Type 0 where
  pub generated_at : Time
  pub user : PublicUser
  pub frp_token : Text
  pub nps_verify_key : Text
  pub nodes : List BootstrapNode

-- nodeByID
unfoldable pub node_by_id : List Node → Dict Node → Dict Node
node_by_id [] nodes = nodes
node_by_id (n ∷ ns) nodes = node_by_id ns (insert n.id n nodes)

abbrev pub group_of : Option (List Tunnel) → List Tunnel
group_of none = []
group_of (some ts) = ts

-- one round of the loop that fills `grouped`
unfoldable pub add_tunnel : Tunnel → Dict (List Tunnel) → Dict (List Tunnel)
add_tunnel t grouped =
    let id = or_default t.node_id in
    if t.enabled then insert id (group_of (lookup id grouped) ++ (t ∷ [])) grouped else grouped

unfoldable pub grouped_from : List Tunnel → Dict (List Tunnel) → Dict (List Tunnel)
grouped_from [] grouped = grouped
grouped_from (t ∷ ts) grouped = grouped_from ts (add_tunnel t grouped)

-- the entry of one group, in front of the rest
unfoldable pub cons_node :
    RuntimeConfig → Option Node → List Tunnel → List BootstrapNode → List BootstrapNode
cons_node runtime none ts rest = rest
cons_node runtime (some n) ts rest =
    if n.enabled
    then record { id = n.id; name = n.name; runtime = runtime_for_node n runtime; tunnels = ts }
      ∷ rest
    else rest

unfoldable pub nodes_from : RuntimeConfig → Dict Node → Dict (List Tunnel) → List BootstrapNode
nodes_from runtime nodes [] = []
nodes_from runtime nodes ((id, ts) ∷ grouped) =
    cons_node runtime (lookup id nodes) ts (nodes_from runtime nodes grouped)

unfoldable pub response_for : Time → RuntimeConfig → Store → User → BootstrapResponse
response_for now runtime s u = record {
  generated_at = now;
  user = public u;
  frp_token = u.frp_token;
  nps_verify_key = u.nps_verify_key;
  nodes =
      nodes_from runtime (node_by_id (list_nodes s) []) (grouped_from (list_tunnels s u.name) []);
}

-- `query` is the request's parameter `user`
unfoldable pub bootstrap_name : User → Text → Text
bootstrap_name current query =
    if is_admin (some current) && not (query == []) then query else current.name

unfoldable pub client_bootstrap :
    Time → RuntimeConfig → User → Text → Store → Result ApiError BootstrapResponse
client_bootstrap now runtime current query s = elim (get_user s (bootstrap_name current query)) [
  | none ↦ err user_not_found
  | some u ↦ if u.enabled then ok (response_for now runtime s u) else err user_not_found
]
