-- ===== src/Control/Nodes/Bundle.antt =====
-- What an agent gets, and who gets it.
use cosmo_nps.Base.{
  ◌≡◌, ◌≢◌, ◌↔◌, refl, sym, ◌∙◌, true, Option, none, some, List, [], ◌∷◌, Memᴰ, ok, inl, inr,
  Bool-cases, arith, keep, mem-keep, any, any_iff, >>=-eq-ok, ok-injective, subst,
}
use cosmo_nps.Text.{Text, str, ◌==◌, eq_iff}
use cosmo_nps.Text.Scan.{trim_space, trim_prefix}
use cosmo_nps.Text.Order.{mem-sort_by}
use cosmo_nps.Dict.{values}
use cosmo_nps.Core.Model.{User, Node, Tunnel, Time}
use cosmo_nps.Store.Base.{Store}
use cosmo_nps.Store.Users.{all_users}
use cosmo_nps.Store.Nodes.{get_node}
use cosmo_nps.Store.Tunnels.{list_tunnels}
use cosmo_nps.Store.Tunnels.Listing.{list_tunnels-all}
use cosmo_nps.Control.Usage.{or_default, filter_tunnels_by_node, owns_one, users_for_tunnels}
use cosmo_nps.Control.Nodes.{AgentSyncBundle, bundle_for_node, admit_agent, agent_bundle}

filter-keep :
    (id : Text) (ts : List Tunnel)
    → filter_tunnels_by_node ts id ≡ keep (λ t. or_default t.node_id == or_default id) ts
unfolding filter_tunnels_by_node keep
filter-keep id [] = refl
filter-keep id (t ∷ ts) = rw (filter-keep id ts) refl

owns_one-any :
    (name : Text) (ts : List Tunnel) → owns_one name ts ≡ any (λ t. t.user_name == name) ts
unfolding owns_one any
owns_one-any name [] = refl
owns_one-any name (t ∷ ts) = rw (owns_one-any name ts) refl

users-keep :
    (us : List User) (ts : List Tunnel)
    → users_for_tunnels us ts ≡ keep (λ u. owns_one u.name ts) us
unfolding users_for_tunnels keep
users-keep [] ts = refl
users-keep (u ∷ us) ts = rw (users-keep us ts) refl

bundle-tunnels :
    (now : Time) (s : Store) (n : Node) (t : Tunnel)
    → Memᴰ t (bundle_for_node now s n).tunnels
      ↔ (Memᴰ t (values s.tunnels) × (or_default t.node_id ≡ or_default n.id))
unfolding bundle_for_node
bundle-tunnels now s n t =
    let here = mem-keep (λ t. or_default t.node_id == or_default n.id) (list_tunnels s []) t in
    let all = mem-sort_by (λ t. t.id) t (values s.tunnels) in
    let eq = eq_iff (or_default t.node_id) (or_default n.id) in
    rw (filter-keep n.id (list_tunnels s []), list_tunnels-all s)
      (
        (λ at.
            let (there, same) = (rw (list_tunnels-all s) at here.0) at in (all.0 there, eq.0 same)),
        λ h. (rw (list_tunnels-all s) at here.1) (all.1 h.0, eq.1 h.1),
      )

users_for_tunnels-members :
    (us : List User) (ts : List Tunnel) (u : User)
    → Memᴰ u (users_for_tunnels us ts)
      ↔ (Memᴰ u us × ((t : Tunnel) × Memᴰ t ts × (t.user_name ≡ u.name)))
users_for_tunnels-members us ts u =
    let here = mem-keep (λ (v : User). owns_one v.name ts) us u in
    let owner = any_iff (λ t. t.user_name == u.name) ts in
    rw (users-keep us ts) (
      (λ at.
          let (there, owns) = here.0 at in
          let (t, in_, same) = owner.0 (sym (owns_one-any u.name ts) ∙ owns) in
          (there, (t, in_, (eq_iff t.user_name u.name).0 same))),
      λ (there, (t, in_, same)).
          here.1
            (there, owns_one-any u.name ts ∙ owner.1 (t, in_, (eq_iff t.user_name u.name).1 same)),
    )

bundle-users :
    (now : Time) (s : Store) (n : Node) (u : User)
    → Memᴰ u (bundle_for_node now s n).users ↔ (
        Memᴰ u (values s.users)
        × ((t : Tunnel) × Memᴰ t (bundle_for_node now s n).tunnels × (t.user_name ≡ u.name)))
unfolding bundle_for_node all_users
bundle-users now s n u =
    let here = users_for_tunnels-members (all_users s) (bundle_for_node now s n).tunnels u in
    let all = mem-sort_by (λ v. v.name) u (values s.users) in
    (
      (λ at. let (there, owner) = here.0 at in (all.0 there, owner)),
      λ (there, owner). here.1 (all.1 there, owner),
    )

admit_agent-ok :
    (token : Text) (found : Option Node) (n : Node)
    → admit_agent token found ≡ ok n
    → (found ≡ some n) × (n.enabled ≡ true) × (n.token ≢ []) × (token ≡ n.token)
unfolding admit_agent
admit_agent-ok token none n h = cc
admit_agent-ok token (some m) n h = ground (arith, eq_iff token m.token, eq_iff m.token [])

-- what a bundle is for the request's parameter, header and a tunnel and a user
abbrev pub IsDelivery : Text → Text → Store → Tunnel → User → AgentSyncBundle → Type 0
IsDelivery query header s t u b =
    (get_node s (trim_space query) ≡ some b.node)
    × (b.node.enabled ≡ true)
    × (b.node.token ≢ [])
    × (trim_space (trim_prefix header (str "Bearer ")) ≡ b.node.token)
    × (Memᴰ t b.tunnels
        ↔ (Memᴰ t (values s.tunnels) × (or_default t.node_id ≡ or_default b.node.id)))
    × (Memᴰ u b.users
        ↔ (Memᴰ u (values s.users) × ((t : Tunnel) × Memᴰ t b.tunnels × (t.user_name ≡ u.name))))

bundle_for_node-IsDelivery :
    (now : Time) (query header : Text) (s : Store) (n : Node) (t : Tunnel) (u : User)
    → admit_agent (trim_space (trim_prefix header (str "Bearer "))) (get_node s (trim_space query))
      ≡ ok n
    → IsDelivery query header s t u (bundle_for_node now s n)
unfolding bundle_for_node
bundle_for_node-IsDelivery now query header s n t u h =
    let token = trim_space (trim_prefix header (str "Bearer ")) in
    let (at, on, named, same) = admit_agent-ok token (get_node s (trim_space query)) n h in
    (at, on, named, same, bundle-tunnels now s n t, bundle-users now s n u)

-- An agent that gets a bundle has named an enabled node and given its token, which is not empty. The
-- bundle holds exactly the stored tunnels of that node, and exactly the stored users that one of these
-- tunnels names.
pub agent_bundle-IsDelivery :
    (now : Time) (query header : Text) (s : Store) (b : AgentSyncBundle) (t : Tunnel) (u : User)
    → agent_bundle now query header s ≡ ok b
    → IsDelivery query header s t u b
unfolding agent_bundle
agent_bundle-IsDelivery now query header s b t u h =
    let token = trim_space (trim_prefix header (str "Bearer ")) in
    let found = get_node s (trim_space query) in
    elim (Bool-cases (trim_space query == [])) [
      | inl none_given ↦ absurd (cc (rw (none_given, agent_bundle) at h))
      | inr given ↦
          let (n, admitted, is) =
            >>=-eq-ok (admit_agent token found) (λ n. ok (bundle_for_node now s n))
              (rw (given, agent_bundle) at h) in
          subst (IsDelivery query header s t u) (ok-injective is)
            (bundle_for_node-IsDelivery now query header s n t u admitted)
    ]
