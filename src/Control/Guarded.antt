-- ===== src/Control/Guarded.antt =====
-- What a user who is no admin can do and see through the handlers of users and nodes.
use cosmo_nps.Base.{
  ◌≡◌, ◌∙◌, refl, Bool, true, false, Option, none, some, List, [], ◌∷◌, err, All, Bool-cases, inl,
  inr, arith,
}
use cosmo_nps.Text.{Text, ◌==◌}
use cosmo_nps.Dict.{Dict}
use cosmo_nps.Core.Env.{Env}
use cosmo_nps.Core.Model.{User, PublicUser, Node, Time, public, default_node_id}
use cosmo_nps.Store.Nodes.{list_nodes}
use cosmo_nps.Control.Sessions.{Server, admin_required, is_admin}
use cosmo_nps.Control.Traffic.{TrafficState, Meters}
use cosmo_nps.Control.Users.{
  UserRequest, upsert_user_handler, delete_user_handler, user_action, list_users_handler,
  add_speeds, attach_traffic, attach_user_traffic,
}
use cosmo_nps.Control.Nodes.{
  NodeRequest, upsert_node_handler, delete_node_handler, list_nodes_handler, shown_nodes,
}

-- a node as a user who is no admin sees it
abbrev pub IsShown : Node → Type 0
IsShown n = (n.token ≡ []) × (n.enabled ≡ true) × ((n.id == default_node_id) ≡ false)

shown_nodes-IsShown : (ns : List Node) → All IsShown (shown_nodes ns)
unfolding shown_nodes
shown_nodes-IsShown [] = tt
shown_nodes-IsShown (n ∷ ns) = ground (arith, shown_nodes-IsShown ns)

add_speeds-name : (state : TrafficState) (u : PublicUser) → (add_speeds state u).name ≡ u.name
unfolding add_speeds
add_speeds-name state u = elim (Bool-cases (state.item == u.name)) [
  | inl own ↦ rw own refl
  | inr other ↦ rw other refl
]

attach_traffic-name :
    (states : Dict TrafficState) (u : PublicUser) → (attach_traffic states u).name ≡ u.name
unfolding attach_traffic
attach_traffic-name [] u = refl
attach_traffic-name ((_, state) ∷ rest) u =
    attach_traffic-name rest (add_speeds state u) ∙ add_speeds-name state u

module _ (user : User) (plain : is_admin (some user) ≡ false) where
  -- For a user who is no admin, the requests to put or delete a user, to reset a user's flow, and to
  -- put or delete a node are refused and change nothing; the list of users holds that user only; and
  -- the nodes that are listed are enabled, are not the default node, and come without their tokens.
  pub plain_user-shut_out :
      (time_parse : Text → Text → Option Time) (env : Env) (synced : Bool) (path : Text)
      (body : Option UserRequest) (form : Option NodeRequest) (a : Server) (m : Meters)
      → (upsert_user_handler time_parse env synced user body a ≡ (err admin_required, a))
        × (delete_user_handler env synced user path a ≡ (err admin_required, a))
        × (user_action env user path m ≡ (err admin_required, m))
        × (upsert_node_handler env user form a ≡ (err admin_required, a))
        × (delete_node_handler env user path a ≡ (err admin_required, a))
        × ((u : PublicUser) × (list_users_handler user m ≡ u ∷ []) × (u.name ≡ user.name))
        × All IsShown (list_nodes_handler user a.store)
  unfolding upsert_user_handler delete_user_handler user_action upsert_node_handler
      delete_node_handler list_users_handler list_nodes_handler attach_user_traffic public
  plain_user-shut_out time_parse env synced path body form a m = (
    elim body
        as (λ b. upsert_user_handler time_parse env synced user b a ≡ (err admin_required, a)) [
          | none ↦ rw plain refl
          | some req ↦ rw plain refl
        ],
    rw plain refl,
    rw plain refl,
    elim form as (λ b. upsert_node_handler env user b a ≡ (err admin_required, a)) [
      | none ↦ rw plain refl
      | some req ↦ rw plain refl
    ],
    rw plain refl,
    (
      attach_traffic m.user_traffic (public user),
      rw plain refl,
      attach_traffic-name m.user_traffic (public user),
    ),
    rw plain (shown_nodes-IsShown (list_nodes a.store)),
  )
