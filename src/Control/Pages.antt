-- ===== src/Control/Pages.antt =====
-- The handlers that show data and change none but the log (listLogs, clearLogs, runtimeInfo, diagnostics,
-- userConfig and enforceUserExpiry of cmd/tunnel-control/main.go).
use cosmo_nps.Base.{
  Bool, false, not, ◌&&◌, Option, none, some, List, [], ◌∷◌, ◌++◌, Result, ok, err, ◌>>=◌,
  if◌then◌else◌, ℤ, pos, leb_ℤ,
}
use cosmo_nps.Text.{Text, str, ◌==◌}
use cosmo_nps.Text.Scan.{trim_prefix, trim_space}
use cosmo_nps.Text.Split.{split, split2}
use cosmo_nps.Text.Decimal.{atoi}
use cosmo_nps.Core.Clients.{render_npc_command}
use cosmo_nps.Core.Frp.{FrpcError, render_frpc}
use cosmo_nps.Core.Env.{Env}
use cosmo_nps.Core.Model.{User, Node, Tunnel, RuntimeConfig}
use cosmo_nps.Store.Base.{Store}
use cosmo_nps.Store.Users.{all_users, get_user}
use cosmo_nps.Store.Users.Expiry.{enforce_user_expiry}
use cosmo_nps.Store.Nodes.{list_nodes, get_node}
use cosmo_nps.Store.Tunnels.{list_tunnels}
use cosmo_nps.Control.Sessions.{
  ApiError, not_found, admin_required, own_config_only, user_not_found, unknown_node, bad_limit,
  is_admin,
}
use cosmo_nps.Control.Log.{LogEntry, LogBuffer, list, clear}
use cosmo_nps.Control.Usage.{
  ResourceUsage, filter_users_by_name, filter_tunnels_by_user, filter_tunnels_by_node,
  runtime_for_node, resource_usage_for,
}

-- the limit of listLogs
unfoldable pub log_limit : Text → Result ApiError ℤ
log_limit raw = if raw == [] then ok (pos 300) else elim (atoi raw) [
  | none ↦ err bad_limit
  | some n ↦ if leb_ℤ n (pos 0) then err bad_limit else ok n
]

unfoldable pub list_logs : User → Text → Text → LogBuffer → Result ApiError (List LogEntry)
list_logs user raw query logs =
    if is_admin (some user)
    then log_limit raw >>= (λ limit. ok (list limit query logs))
    else err admin_required

-- clearLogs; the line that it logs afterwards comes back as a chunk
unfoldable pub clear_logs : User → LogBuffer → Result ApiError (Unit {0}) × LogBuffer
clear_logs user logs =
    if is_admin (some user) then (ok tt, clear logs) else (err admin_required, logs)

-- the nodes of runtimeInfo, for an admin
unfoldable pub runtime_nodes : User → Store → Option (List Node)
runtime_nodes user s = if is_admin (some user) then some (list_nodes s) else none

unfoldable pub diagnostics : User → Store → List ResourceUsage
diagnostics user s =
    if is_admin (some user)
    then resource_usage_for (all_users s) (list_tunnels s [])
    else resource_usage_for (filter_users_by_name (all_users s) user.name)
        (filter_tunnels_by_user (list_tunnels s []) user.name)

-- what userConfig answers: a text, or the error of a renderer
pub data Page : Type 0 where
  page : Text → Page
  no_frpc : FrpcError → Page
  no_npc : Text → Page
  -- renderTunnelClientHelp with the user's name
  client_help : Text → Page
  no_key : Page

abbrev pub frpc_page : Result FrpcError Text → Page
frpc_page (ok text) = page text
frpc_page (err e) = no_frpc e

abbrev pub npc_page : Result Text Text → Page
npc_page (ok text) = page (text ++ str "\n")
npc_page (err e) = no_npc e

-- the node of the parameter `node`, none for an empty one
unfoldable pub asked_node : Text → Store → Result ApiError (Option Node)
asked_node query s =
    if query == []
    then ok none
    else elim (get_node s query) [ none ↦ err unknown_node | some n ↦ ok (some n) ]

abbrev pub runtime_of : Option Node → RuntimeConfig → RuntimeConfig
runtime_of none runtime = runtime
runtime_of (some n) runtime = runtime_for_node n runtime

abbrev pub tunnels_of : Option Node → List Tunnel → List Tunnel
tunnels_of none ts = ts
tunnels_of (some n) ts = filter_tunnels_by_node ts n.id

module _ (quote : Text → Text) (runtime : RuntimeConfig) where
  -- the file of a user that the path names
  unfoldable pub config_page : User → Text → Text → Store → Result ApiError Page
  config_page u file query s =
      if file == str "frpc.toml"
      then asked_node query s >>= (λ n. ok (
          frpc_page
            (render_frpc quote u (tunnels_of n (list_tunnels s u.name)) (runtime_of n runtime))))
      else if file == str "npc-command"
      then asked_node query s >>= (λ n. ok (npc_page (render_npc_command u (runtime_of n runtime))))
      else if file == str "tunnel-client"
      then ok (client_help u.name)
      else if file == str "nps-key"
      then ok (if u.nps_verify_key == [] then no_key else page (u.nps_verify_key ++ str "\n"))
      else err not_found

  unfoldable pub config_of : User → Text → Text → Text → Store → Result ApiError Page
  config_of user name file query s =
      if not (is_admin (some user)) && not (user.name == name)
      then err own_config_only
      else elim (get_user s name) [
        | none ↦ err user_not_found
        | some u ↦ config_page u file query s
      ]

  -- the two parts of the path
  abbrev pub config_at : User → List Text → Text → Store → Result ApiError Page
  config_at user (name ∷ file ∷ []) query s = config_of user name file query s
  config_at user [] query s = err not_found
  config_at user (_ ∷ []) query s = err not_found
  config_at user (_ ∷ _ ∷ _ ∷ _) query s = err not_found

  unfoldable pub user_config : User → Text → Text → Store → Result ApiError Page
  user_config user path query s =
      config_at user (split b'/' (trim_prefix path (str "/api/users/"))) query s

-- the part of a forwarded header in front of the first comma, or the value that it replaces
unfoldable pub forwarded_or : Text → Text → Text
forwarded_or header value =
    let given = trim_space header in if given == [] then value else (split2 b',' given).0

unfoldable pub request_base_url : Bool → Text → Text → Text → Text
request_base_url tls host forwarded_proto forwarded_host =
    forwarded_or forwarded_proto (if tls then str "https" else str "http")
    ++ (str "://" ++ forwarded_or forwarded_host host)

-- enforceUserExpiry: true where the engines are synchronised; an error is only logged
unfoldable pub expiry_round : Env → Store → Bool × Store
expiry_round env s =
    let (r, s1) = enforce_user_expiry env env.now (pos 604800000000000) s in
    (elim r [ ok changed ↦ changed | err _ ↦ false ], s1)
