-- ===== src/Store/Nodes.antt =====
-- ListNodes, GetNode, UpsertNode, DeleteNode and UpdateNodeStatus.
use cosmo_nps.Base.{
  Bool, false, not, Option, none, some, List, [], ◌∷◌, Result, ok, err, ◌>>=◌, ◌>>◌, refuse,
  if◌then◌else◌, take,
}
use cosmo_nps.Text.{Text, ◌==◌}
use cosmo_nps.Text.Scan.{trim_space}
use cosmo_nps.Text.Order.{sort_by}
use cosmo_nps.Dict.{Dict, lookup, insert, delete, values}
use cosmo_nps.Core.Domain.{normalize_domains}
use cosmo_nps.Core.Env.{Env, random_secret}
use cosmo_nps.Core.Model.{Node, NodeStatus, Tunnel, zero_node, default_node_id}
use cosmo_nps.Store.Base.{
  StoreError, node_id_required, default_node, node_not_found, node_in_use, Store, Outcome, saving,
  checked, with_nodes, normalize_id, domain_error,
}
use cosmo_nps.Store.Rules.{tunnel_node_id}

unfoldable pub list_nodes : Store → List Node
list_nodes s = sort_by (λ n. n.id) (values s.nodes)

unfoldable pub get_node : Store → Text → Option Node
get_node s id = lookup (normalize_id id) s.nodes

-- the lines of UpsertNode before the lock
unfoldable pub prepare_node : Node → Result StoreError Node
prepare_node new = do
  let id = normalize_id new.id
  refuse (id == []) node_id_required
  domains ← domain_error (normalize_domains new.domain_pools)
  ok (record new {
    id = id;
    name = if new.name == [] then id else new.name;
    domain_pools = domains;
  })

abbrev pub node_or_new : Env → Text → Option Node → Node
node_or_new env id none = record zero_node { id = id; created_at = env.now }
node_or_new env id (some n) = n

-- the assignments of UpsertNode to the stored node
unfoldable pub merge_node : Env → Node → Node → Node
merge_node env new old = record old {
  name = new.name;
  token =
      if not (new.token == [])
      then new.token
      else if old.token == []
      then random_secret env 0
      else old.token;
  public_addr = trim_space new.public_addr;
  enabled = new.enabled;
  frp_enabled = false;
  nps_enabled = new.nps_enabled;
  port_pools = new.port_pools;
  domain_pools = new.domain_pools;
  runtime = new.runtime;
  updated_at = env.now;
}

unfoldable pub upsert_node : Env → Node → Store → Outcome Node
upsert_node env new s =
    checked (prepare_node new)
      (λ n.
        let merged = merge_node env n (node_or_new env n.id (lookup n.id s.nodes)) in
        saving env (with_nodes s (insert n.id merged s.nodes)) merged)
      s

-- the first tunnel that runs on the node
unfoldable pub tunnel_on : Text → Dict Tunnel → Option Tunnel
tunnel_on id [] = none
tunnel_on id ((_, t) ∷ m) =
    let rest = tunnel_on id m in if tunnel_node_id t == id then some t else rest

abbrev pub refuse_used : Text → Option Tunnel → Result StoreError (Unit {0})
refuse_used id none = ok tt
refuse_used id (some t) = err (node_in_use id t.id)

unfoldable pub delete_node : Env → Text → Store → Outcome Unit
delete_node env raw s =
    let id = normalize_id raw in
    checked (refuse (id == []) node_id_required >> refuse (id == default_node_id) default_node)
      (λ _. elim (lookup id s.nodes) [
        | none ↦ (ok tt, s)
        | some _ ↦
            checked (refuse_used id (tunnel_on id s.tunnels))
              (λ _. saving env (with_nodes s (delete id s.nodes)) tt) s
      ])
      s

unfoldable pub set_status : Env → Bool → Text → NodeStatus → NodeStatus
set_status env online last_error st = record st {
  online = online;
  last_sync_at = env.now;
  last_seen_at = if online then env.now else st.last_seen_at;
  last_error = if online then [] else take 500 (trim_space last_error);
}

abbrev pub found_node : Option Node → Text → Result StoreError Node
found_node none id = err (node_not_found id)
found_node (some n) id = ok n

unfoldable pub update_node_status : Env → Text → Bool → Text → Store → Outcome Unit
update_node_status env raw online last_error s =
    let id = normalize_id raw in
    checked (refuse (id == []) node_id_required >> found_node (lookup id s.nodes) id)
      (λ n.
        let changed = record n { status = set_status env online last_error n.status } in
        saving env (with_nodes s (insert id changed s.nodes)) tt)
      s
