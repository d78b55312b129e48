-- ===== src/Client/Once.antt =====
-- Which clients syncAndStart of cmd/tunnel-client/main.go starts.
use cosmo_nps.Base.{
  ◌≡◌, ap, ◌∙◌, Bool, true, false, not, ◌&&◌, ◌||◌, inl, inr, List, [], ◌∷◌, ok, ltb, Bool-cases,
  or_assoc, any, any_iff, arith,
}
use cosmo_nps.Text.{Text, ◌==◌, eq_iff}
use cosmo_nps.Text.Order.{sort_by, mem-sort_by}
use cosmo_nps.Core.Domain.{member}
use cosmo_nps.Control.Bootstrap.{BootstrapNode, BootstrapResponse}
use cosmo_nps.Client.{
  StartedClient, ClientState, count_nps_tunnels, start_nps_client, start_node, start_nodes,
  tunnels_of_nodes, sync_and_start,
}

-- the nodes of the clients
unfoldable pub client_ids : List StartedClient → List Text
client_ids [] = []
client_ids (c ∷ cs) = c.node_id ∷ client_ids cs

abbrev pub NoRepeat : List Text → Type 0
NoRepeat [] = Unit
NoRepeat (x ∷ xs) = (member x xs ≡ false) × NoRepeat xs

-- The clients are those of the map, one for each key.
abbrev pub IsOnce : ClientState → Type 0
IsOnce a = (client_ids a.clients ≡ a.started) × NoRepeat a.started

-- the node is the named one, has NPS tunnels, and there is a key
unfoldable pub asks_for : Text → Text → BootstrapNode → Bool
asks_for key id n = (ltb 0 (count_nps_tunnels n.tunnels) && not (key == [])) && n.id == id

module _ (join_host_port : Text → Text → Text) (key : Text) where
  start_node-IsOnce :
      (n : BootstrapNode) (a : ClientState) → IsOnce a → IsOnce (start_node join_host_port key n a)
  unfolding start_node start_nps_client client_ids
  start_node-IsOnce n a once =
      elim (Bool-cases
        (ltb 0 (count_nps_tunnels n.tunnels) && (not (key == []) && not (member n.id a.started)))) [
          | inl new ↦ rw new (ap (λ ids. n.id ∷ ids) once.0, (ground arith, once.1))
          | inr old ↦ rw old once
        ]

  start_node-started :
      (n : BootstrapNode) (a : ClientState) (id : Text)
      → member id (start_node join_host_port key n a).started
        ≡ (member id a.started || asks_for key id n)
  unfolding start_node start_nps_client asks_for member
  start_node-started n a id = elim (Bool-cases (n.id == id)) [
    | inl same ↦
        let there : member n.id a.started ≡ member id a.started =
          ap (λ i. member i a.started) ((eq_iff n.id id).0 same) in
        ground arith
    | inr other ↦ ground arith
  ]

  start_nodes-IsOnce :
      (ns : List BootstrapNode) (a : ClientState)
      → IsOnce a
      → IsOnce (start_nodes join_host_port key ns a)
  unfolding start_nodes
  start_nodes-IsOnce [] a once = once
  start_nodes-IsOnce (n ∷ ns) a once = start_nodes-IsOnce ns _ (start_node-IsOnce n a once)

  start_nodes-started :
      (ns : List BootstrapNode) (a : ClientState) (id : Text)
      → member id (start_nodes join_host_port key ns a).started
        ≡ (member id a.started || any (asks_for key id) ns)
  unfolding start_nodes any
  start_nodes-started [] a id = ground arith
  start_nodes-started (n ∷ ns) a id =
      let first = start_node-started n a id in
      start_nodes-started ns (start_node join_host_port key n a) id
      ∙ ap (λ b. b || any (asks_for key id) ns) first
      ∙ or_assoc (member id a.started) (asks_for key id n) (any (asks_for key id) ns)

-- the order of the nodes does not matter
any-sort_by :
    (test : BootstrapNode → Bool) (by : BootstrapNode → Text) (ns : List BootstrapNode)
    → any test (sort_by by ns) ≡ any test ns
any-sort_by test by ns =
    let here = any_iff test ns in
    let there = any_iff test (sort_by by ns) in
    let to : any test (sort_by by ns) ≡ true → any test ns ≡ true =
      λ h. let (n, at, t) = there.0 h in here.1 (n, (mem-sort_by by n ns).0 at, t) in
    let fro : any test ns ≡ true → any test (sort_by by ns) ≡ true =
      λ h. let (n, at, t) = here.0 h in there.1 (n, (mem-sort_by by n ns).1 at, t) in
    ground (arith, to, fro)

-- Take a state in which the started clients are those of the map, one for each of its keys. After
-- syncAndStart with an answer of the control server the state is such a one again, and a node's id is in
-- the map exactly when it was before or some node of the answer has the id and an enabled NPS tunnel, and
-- the answer has a key.
pub sync_and_start-IsOnce :
    (join_host_port : Text → Text → Text) (r : BootstrapResponse) (a : ClientState) (id : Text)
    → IsOnce a
    → IsOnce (sync_and_start join_host_port (ok r) a).1
      × (member id (sync_and_start join_host_port (ok r) a).1.started
          ≡ (member id a.started || any (asks_for r.nps_verify_key id) r.nodes))
unfolding sync_and_start
sync_and_start-IsOnce join_host_port r a id once =
    let nodes = sort_by (λ (n : BootstrapNode). n.id) r.nodes in
    let shown = record a { tunnels = tunnels_of_nodes nodes } in
    (
      start_nodes-IsOnce join_host_port r.nps_verify_key nodes shown once,
      start_nodes-started join_host_port r.nps_verify_key nodes shown id
          ∙ ap (λ b. member id a.started || b)
              (any-sort_by (asks_for r.nps_verify_key id) (λ (n : BootstrapNode). n.id) r.nodes),
    )
