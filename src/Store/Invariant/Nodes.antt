-- ===== src/Store/Invariant/Nodes.antt =====
-- Writing a node and deleting an unused node keep the invariant.
use cosmo_nps.Base.{◌≡◌, ◌≢◌, false, none, [], ◌∷◌, arith, inl, inr, ◌∙◌}
use cosmo_nps.Text.{Text, ◌==◌, eq_iff}
use cosmo_nps.Dict.{Dict, insert, delete}
use cosmo_nps.Dict.Laws.{
  lookup-insert-cases, lookup-insert-some, lookup-delete-some, lookup-delete_ne, insert-Distinct,
  delete-Distinct, Entries, Entries-lookup,
}
use cosmo_nps.Core.Model.{Node, Tunnel, Database, default_node_id}
use cosmo_nps.Store.Nodes.{tunnel_on}
use cosmo_nps.Store.Rules.{tunnel_node_id}
use cosmo_nps.Store.Invariant.{WellFormed}

pub insert_node-WellFormed :
    (db : Database) (k : Text) (n : Node)
    → n.id ≡ k
    → WellFormed db
    → WellFormed (record db { nodes = insert k n db.nodes })
insert_node-WellFormed db k n named wf = record {
  default_node =
      let (old, found) = wf.default_node in
      lookup-insert-some k default_node_id n old db.nodes found;
  users_distinct = wf.users_distinct;
  nodes_distinct = insert-Distinct k n db.nodes wf.nodes_distinct;
  tunnels_distinct = wf.tunnels_distinct;
  users_named = wf.users_named;
  nodes_named = λ j m h. elim (lookup-insert-cases k j n m db.nodes h) [
    | inl (at, is) ↦ rw (← is, ← at) named
    | inr (_, old) ↦ wf.nodes_named j m old
  ];
  tunnels_named = wf.tunnels_named;
  owned = wf.owned;
  placed = λ j t h.
      let (old, found) = wf.placed j t h in
      lookup-insert-some k (tunnel_node_id t) n old db.nodes found;
  shaped = wf.shaped;
  exclusive = wf.exclusive;
}

pub tunnel_on-none :
    (id : Text) (m : Dict Tunnel)
    → tunnel_on id m ≡ none
    → Entries (λ _ t. (tunnel_node_id t == id) ≡ false) m
unfolding tunnel_on
tunnel_on-none id [] h = tt
tunnel_on-none id ((k, t) ∷ m) h = (ground arith, tunnel_on-none id m (ground arith))

-- Deleting a node on which no tunnel runs keeps the invariant, the default node excepted.
pub delete_node-WellFormed :
    (db : Database) (id : Text)
    → id ≢ default_node_id
    → tunnel_on id db.tunnels ≡ none
    → WellFormed db
    → WellFormed (record db { nodes = delete id db.nodes })
delete_node-WellFormed db id other unused wf = record {
  default_node =
      let (n, found) = wf.default_node in
      (n, lookup-delete_ne id default_node_id db.nodes other ∙ found);
  users_distinct = wf.users_distinct;
  nodes_distinct = delete-Distinct id db.nodes wf.nodes_distinct;
  tunnels_distinct = wf.tunnels_distinct;
  users_named = wf.users_named;
  nodes_named = λ j m h. wf.nodes_named j m (lookup-delete-some id j m db.nodes h);
  tunnels_named = wf.tunnels_named;
  owned = wf.owned;
  placed = λ j t h.
      let (n, found) = wf.placed j t h in
      let elsewhere =
        Entries-lookup (λ _ t. (tunnel_node_id t == id) ≡ false) j t db.tunnels
          (tunnel_on-none id db.tunnels unused) h in
      (
        n,
        lookup-delete_ne id (tunnel_node_id t) db.nodes
              (λ e. ground (arith, eq_iff (tunnel_node_id t) id))
            ∙ found,
      );
  shaped = wf.shaped;
  exclusive = wf.exclusive;
}
