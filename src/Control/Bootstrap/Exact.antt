-- ===== src/Control/Bootstrap/Exact.antt =====
-- Which tunnels a client program gets.
use mathlib.Core.List.Memᴰ
use cosmo_nps.Base.{
  ◌≡◌, ◌≢◌, ◌↔◌, ◌⊎◌, inl, inr, refl, sym, ap, ◌∙◌, subst, true, some, [], Memᴰ, ok, err,
  Bool-cases, Option-cases, keep, mem-keep, and_iff, if◌then◌else◌, List,
}
use cosmo_nps.Text.{Text, ◌==◌, eq_iff, eq_refl}
use cosmo_nps.Dict.{Dict, lookup, values}
use cosmo_nps.Dict.Members.{mem-lookup}
use cosmo_nps.Core.Model.{User, Tunnel, RuntimeConfig, Time, Node, public}
use cosmo_nps.Store.Base.{Store}
use cosmo_nps.Store.Users.{get_user}
use cosmo_nps.Store.Nodes.{list_nodes}
use cosmo_nps.Store.Tunnels.{list_tunnels}
use cosmo_nps.Store.Tunnels.Listing.{mem-list_tunnels}
use cosmo_nps.Control.Sessions.{user_not_found, is_admin}
use cosmo_nps.Control.Usage.{or_default}
use cosmo_nps.Control.Bootstrap.{
  node_by_id, group_of, grouped_from, nodes_from, response_for, bootstrap_name, client_bootstrap,
}
use cosmo_nps.Control.Bootstrap.Groups.{
  Listed, IsOpen, in_group, grouped_from-group, grouped_from-Distinct, nodes_from-Listed,
  Listed-nodes_from,
}

module _ (runtime : RuntimeConfig) (nodes : Dict Node) (ts : List Tunnel) (t : Tunnel) where
  abbrev groups : Dict (List Tunnel)
  groups = grouped_from ts []

  own_group : (id : Text) → group_of (lookup id groups) ≡ keep (in_group id) ts
  unfolding lookup
  own_group id = grouped_from-group ts [] id

  Listed-IsOpen :
      Listed t (nodes_from runtime nodes groups)
      → Memᴰ t ts × (t.enabled ≡ true) × IsOpen (lookup (or_default t.node_id) nodes)
  Listed-IsOpen h =
      let (id, us, at, in_, is_open) = nodes_from-Listed runtime nodes groups t h in
      let found = (mem-lookup id us groups (grouped_from-Distinct ts [] tt)).0 at in
      let group : us ≡ keep (in_group id) ts = sym (ap group_of found) ∙ own_group id in
      let (there, fits) = (mem-keep (in_group id) ts t).0 (subst (λ l. Memᴰ t l) group in_) in
      let (on, here) = (and_iff t.enabled (or_default t.node_id == id)).0 fits in
      (
        there,
        on,
        subst (λ k. IsOpen (lookup k nodes)) (sym ((eq_iff (or_default t.node_id) id).0 here))
            is_open,
      )

  IsOpen-Listed :
      Memᴰ t ts
      → t.enabled ≡ true
      → IsOpen (lookup (or_default t.node_id) nodes)
      → Listed t (nodes_from runtime nodes groups)
  IsOpen-Listed there on is_open =
      let id = or_default t.node_id in
      let in_ : Memᴰ t (group_of (lookup id groups)) =
        subst (λ l. Memᴰ t l) (sym (own_group id))
          ((mem-keep (in_group id) ts t).1
            (there, (and_iff t.enabled (id == id)).1 (on, eq_refl id))) in
      elim (Option-cases (lookup id groups)) [
        | inl none_there ↦ absurd (Memᴰ.not-nil (subst (λ g. Memᴰ t (group_of g)) none_there in_))
        | inr (us, found) ↦
            Listed-nodes_from runtime nodes groups t id us
              ((mem-lookup id us groups (grouped_from-Distinct ts [] tt)).1 found)
              (subst (λ g. Memᴰ t (group_of g)) found in_) is_open
      ]

module _ (now : Time) (runtime : RuntimeConfig) (current : User) (query : Text) (s : Store)
    (u : User) (stored : get_user s (bootstrap_name current query) ≡ some u) (on : u.enabled ≡ true)
    (named : u.name ≢ []) where
  -- A request for an enabled stored user with a name is answered with that user's public data, frp token and NPS key. The tunnels
  -- of the answer's nodes are exactly the stored tunnels of that user that are enabled and whose node is
  -- listed and enabled. Only an admin gets the data of another user than the request's own.
  pub client_bootstrap-exact :
      (t : Tunnel)
      → (client_bootstrap now runtime current query s ≡ ok (response_for now runtime s u))
        × (((response_for now runtime s u).user ≡ public u)
            × ((response_for now runtime s u).frp_token ≡ u.frp_token)
            × ((response_for now runtime s u).nps_verify_key ≡ u.nps_verify_key))
        × (Listed t (response_for now runtime s u).nodes ↔ (
            (Memᴰ t (values s.tunnels) × (t.user_name ≡ u.name))
            × (t.enabled ≡ true)
            × IsOpen (lookup (or_default t.node_id) (node_by_id (list_nodes s) []))))
        × ((bootstrap_name current query ≡ current.name) ⊎ (is_admin (some current) ≡ true))
  unfolding client_bootstrap response_for bootstrap_name
  client_bootstrap-exact t =
      let nodes = node_by_id (list_nodes s) [] in
      let ts = list_tunnels s u.name in
      let stored_one = mem-list_tunnels s u.name t named in
      (
        rw (stored, client_bootstrap)
            (ap (λ b. if b then ok (response_for now runtime s u) else err user_not_found) on),
        (refl, refl, refl),
        (
          (λ h.
              let (there, up, is_open) = Listed-IsOpen runtime nodes ts t h in
              (stored_one.0 there, up, is_open)),
          λ (there, up, is_open). IsOpen-Listed runtime nodes ts t (stored_one.1 there) up is_open,
        ),
        elim (Bool-cases (is_admin (some current))) [
          | inl admin ↦ inr admin
          | inr plain ↦ inl (rw plain refl)
        ],
      )
