-- ===== src/Control/Tunnels.antt =====
-- The handlers of /api/tunnels (cmd/tunnel-control/main.go): who may list, create, change and delete.
pub mod Isolation
use cosmo_nps.Base.{
  Bool, true, false, not, ◌&&◌, ◌||◌, Option, none, some, List, [], ◌∷◌, Result, ok, err,
  if◌then◌else◌,
}
use cosmo_nps.Text.{Text, str, ◌==◌}
use cosmo_nps.Text.Scan.{trim_prefix, contains_byte}
use cosmo_nps.Core.Env.{Env}
use cosmo_nps.Core.Model.{User, Tunnel}
use cosmo_nps.Store.Base.{Outcome}
use cosmo_nps.Store.Tunnels.{list_tunnels, create_tunnel, update_tunnel, delete_tunnel}
use cosmo_nps.Control.Sessions.{
  Server, Reply, ApiError, bad_body, not_found, other_tunnel, sync_failed, is_admin, replying,
}

-- `query` is the request's parameter `user`
unfoldable pub list_for : User → Text → Server → List Tunnel
list_for user query a =
    if is_admin (some user) then list_tunnels a.store query else list_tunnels a.store user.name

unfoldable pub has_id : Text → List Tunnel → Bool
has_id id [] = false
has_id id (t ∷ ts) = t.id == id || has_id id ts

-- only an admin acts for another user
unfoldable pub on_behalf : User → Tunnel → Tunnel
on_behalf user req = if is_admin (some user) then req else record req { user_name = user.name }

unfoldable pub may_change : User → Text → Server → Bool
may_change user id a = is_admin (some user) || has_id id (list_tunnels a.store user.name)

-- The end of the handlers: the store's error, or what the engines answer. `synced` is false where
-- syncEmbeddedNPS fails.
unfoldable pub after_sync : Bool → {A : Type 0} → Reply A → Reply A
after_sync synced (ok x, a) = if synced then (ok x, a) else (err sync_failed, a)
after_sync synced (err e, a) = (err e, a)

unfoldable pub create_handler : Env → Bool → User → Option Tunnel → Server → Reply Tunnel
create_handler env synced user none a = (err bad_body, a)
create_handler env synced user (some req) a =
    after_sync synced (replying a (create_tunnel env (on_behalf user req) a.store))

-- the id at the end of the path
unfoldable pub path_id : Text → Option Text
path_id path =
    let id = trim_prefix path (str "/api/tunnels/") in
    if id == [] || contains_byte id b'/' then none else some id

unfoldable pub update_at : Env → Bool → User → Text → Option Tunnel → Server → Reply Tunnel
update_at env synced user id none a = (err bad_body, a)
update_at env synced user id (some req) a =
    if may_change user id a
    then after_sync synced (replying a (update_tunnel env id (on_behalf user req) a.store))
    else (err other_tunnel, a)

unfoldable pub update_handler : Env → Bool → User → Text → Option Tunnel → Server → Reply Tunnel
update_handler env synced user path body a = elim (path_id path) [
  | none ↦ (err not_found, a)
  | some id ↦ update_at env synced user id body a
]

unfoldable pub delete_at : Env → Bool → User → Text → Server → Reply Unit
delete_at env synced user id a =
    if may_change user id a
    then after_sync synced (replying a (delete_tunnel env id a.store))
    else (err other_tunnel, a)

unfoldable pub delete_handler : Env → Bool → User → Text → Server → Reply Unit
delete_handler env synced user path a = elim (path_id path) [
  | none ↦ (err not_found, a)
  | some id ↦ delete_at env synced user id a
]
