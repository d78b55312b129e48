-- ===== src/Store/Invariant/NodeSteps.antt =====
-- UpsertNode, DeleteNode and UpdateNodeStatus keep the invariant.
use cosmo_nps.Base.{
  ◌≡◌, ◌≢◌, refl, ap, Bool, Option, none, some, [], ok, arith, inl, inr, Option-cases, refuse,
  refuse-eq-ok, ok-injective, ◌>>◌,
}
use cosmo_nps.Text.{Text, ◌==◌, eq_iff}
use cosmo_nps.Dict.{lookup, delete}
use cosmo_nps.Core.Env.{Env}
use cosmo_nps.Core.Model.{Node, Tunnel, Database, default_node_id}
use cosmo_nps.Store.Base.{
  node_id_required, default_node, Store, saving, checked, normalize_id, with_nodes,
}
use cosmo_nps.Store.Nodes.{
  prepare_node, node_or_new, merge_node, upsert_node, tunnel_on, refuse_used, delete_node,
  found_node, set_status, update_node_status,
}
use cosmo_nps.Store.Invariant.{WellFormed, checked-keeps, saving-WellFormed}
use cosmo_nps.Store.Invariant.Nodes.{insert_node-WellFormed, delete_node-WellFormed}

-- a new or stored node carries the id of its key
node_or_new-id :
    (env : Env) (id : Text) (db : Database)
    → WellFormed db
    → (node_or_new env id (lookup id db.nodes)).id ≡ id
node_or_new-id env id db wf = elim (Option-cases (lookup id db.nodes)) [
  | inl new ↦ rw new
  | inr (n, old) ↦ rw old (wf.nodes_named id n old)
]

found_node-ok : (o : Option Node) (id : Text) (n : Node) → found_node o id ≡ ok n → o ≡ some n
found_node-ok none id n h = absurd (cc h)
found_node-ok (some m) id n h = ap some (ok-injective h)

module _ (env : Env) (s : Store) (wf : WellFormed s.db) where
  pub upsert_node-WellFormed : (new : Node) → WellFormed (upsert_node env new s).1.db
  unfolding upsert_node merge_node
  upsert_node-WellFormed new = checked-keeps WellFormed (prepare_node new) _ s wf λ n _.
      saving-WellFormed env _ (merge_node env n (node_or_new env n.id (lookup n.id s.nodes))) (
        insert_node-WellFormed s.db n.id
          (merge_node env n (node_or_new env n.id (lookup n.id s.nodes)))
          (node_or_new-id env n.id s.db wf) wf)

  refuse_used-ok : (id : Text) (o : Option Tunnel) → refuse_used id o ≡ ok tt → o ≡ none
  refuse_used-ok id none h = refl
  refuse_used-ok id (some t) h = absurd (cc h)

  delete_found-WellFormed :
      (id : Text)
      → id ≢ default_node_id
      → WellFormed
          (checked
            (refuse_used id (tunnel_on id s.tunnels))
            (λ _. saving env (with_nodes s (delete id s.nodes)) tt)
            s).1.db
  delete_found-WellFormed id other =
      checked-keeps WellFormed (refuse_used id (tunnel_on id s.tunnels)) _ s wf λ _ free.
        saving-WellFormed env _ tt
          (delete_node-WellFormed s.db id other (refuse_used-ok id _ free) wf)

  pub delete_node-step : (raw : Text) → WellFormed (delete_node env raw s).1.db
  unfolding delete_node
  delete_node-step raw =
      let id = normalize_id raw in
      checked-keeps WellFormed
        (refuse (id == []) node_id_required >> refuse (id == default_node_id) default_node) _ s wf
        λ _ passed. elim (Option-cases (lookup id s.nodes)) [
          | inl missing ↦ rw missing wf
          | inr (n, found) ↦
              rw found (
                delete_found-WellFormed id (λ e. ground (arith, passed, eq_iff id default_node_id)))
        ]

  pub update_node_status-WellFormed :
      (raw : Text) (online : Bool) (last_error : Text)
      → WellFormed (update_node_status env raw online last_error s).1.db
  unfolding update_node_status
  update_node_status-WellFormed raw online last_error =
      let id = normalize_id raw in
      checked-keeps WellFormed
        (refuse (id == []) node_id_required >> found_node (lookup id s.nodes) id) _ s wf
        λ n passed.
          let (_, found) =
            refuse-eq-ok (id == []) node_id_required (found_node (lookup id s.nodes) id) passed in
          saving-WellFormed env _ tt (
            insert_node-WellFormed s.db id
              (record n { status = set_status env online last_error n.status })
              (wf.nodes_named id n (found_node-ok (lookup id s.nodes) id n found)) wf)
