-- ===== src/Control/Push.antt =====
-- The push of the bundles to the nodes' agents (pushRemoteNodes and the functions below it in
-- cmd/tunnel-control/main.go).
use cosmo_nps.Base.{
  ℕ, suc, Bool, true, false, not, ◌&&◌, ◌||◌, List, [], ◌∷◌, ◌++◌, Result, ok, err, if◌then◌else◌,
  ℤ, nat_eq,
}
use mathlib.Core.List.{reverse}
use cosmo_nps.Text.{Text, str, ◌==◌}
use cosmo_nps.Text.Scan.{trim_space, has_prefix, contains_byte}
use cosmo_nps.Text.Decimal.{itoa}
use cosmo_nps.Dict.{Dict}
use cosmo_nps.Core.Env.{Env}
use cosmo_nps.Core.Model.{Node, Time, default_node_id}
use cosmo_nps.Store.Base.{Store}
use cosmo_nps.Store.Nodes.{list_nodes, update_node_status}
use cosmo_nps.Control.Clients.{ClientStatus, set_remote_statuses}
use cosmo_nps.Control.Nodes.{AgentSyncBundle, bundle_for_node}

-- strings.TrimRight(s, "/")
abbrev pub drop_slashes : Text → Text
drop_slashes [] = []
drop_slashes (c ∷ s) = let rest = drop_slashes s in if nat_eq c b'/' then rest else c ∷ s

-- `join_host_port` is net.JoinHostPort
unfoldable pub agent_apply_url : (Text → Text → Text) → Text → ℤ → Text
agent_apply_url join_host_port public_addr port =
    let addr = reverse (drop_slashes (reverse (trim_space public_addr))) in
    if has_prefix addr (str "http://") || has_prefix addr (str "https://")
    then addr ++ str "/api/agent/apply"
    else if contains_byte addr b':' && not (contains_byte addr b']')
    then str "http://" ++ (addr ++ str "/api/agent/apply")
    else str "http://" ++ (join_host_port addr (itoa port) ++ str "/api/agent/apply")

-- the parts of apiServer that a push changes
pub record Pushed : Type 0 where
  pub store : Store
  pub remote : Dict (List ClientStatus)

-- a node that has an agent to push to
unfoldable pub is_pushed : Node → Bool
is_pushed n = not (
    n.id == default_node_id || (not n.enabled || (n.token == [] || trim_space n.public_addr == [])))

-- The request: the URL, the token and the bundle, and the clients that the agent answers with, or the
-- text of the error.
abbrev pub Send : Type 0
Send = Text → Text → AgentSyncBundle → Result Text (List ClientStatus)

module _ (send : Send) (join_host_port : Text → Text → Text) (port : ℤ) where
  unfoldable pub push_remote_node : Time → Node → Store → Result Text (List ClientStatus)
  push_remote_node now n s =
      send (agent_apply_url join_host_port n.public_addr port) n.token (bundle_for_node now s n)

  -- what is noted of a push; an error of UpdateNodeStatus is only logged
  unfoldable pub note_push : Env → Node → Result Text (List ClientStatus) → Pushed → Pushed
  note_push env n (err e) a = record {
    store = (update_node_status env n.id false e a.store).1;
    remote = set_remote_statuses n.id [] a.remote;
  }
  note_push env n (ok clients) a = record {
    store = (update_node_status env n.id true [] a.store).1;
    remote = set_remote_statuses n.id clients a.remote;
  }

  -- the loop over the nodes; `env i` is the outside of the i-th round
  unfoldable pub push_nodes : (ℕ → Env) → ℕ → List Node → Pushed → Pushed
  push_nodes env i [] a = a
  push_nodes env i (n ∷ ns) a =
      push_nodes env (suc i) ns
        (if is_pushed n then note_push (env i) n (push_remote_node (env i).now n a.store) a else a)

  unfoldable pub push_remote_nodes : (ℕ → Env) → Pushed → Pushed
  push_remote_nodes env a = push_nodes env 0 (list_nodes a.store) a
