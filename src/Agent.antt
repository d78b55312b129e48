-- ===== src/Agent.antt =====
-- cmd/tunnel-agent/main.go: a node's agent takes the bundle of its node from the control server and
-- brings its own NPS in line with it. The start of the servers and the tickers are not modelled.
pub mod Delivered
pub mod Config
use cosmo_nps.Base.{
  Bool, true, false, not, ◌&&◌, ◌||◌, Option, none, some, List, [], ◌∷◌, ◌++◌, Result, ok, err,
  if◌then◌else◌, map, ℕ, pos, ℤ, length, nat_eq,
}
use cosmo_nps.Text.{Text, str, ◌==◌}
use cosmo_nps.Text.Scan.{trim_space, trim_prefix}
use cosmo_nps.Control.Clients.{ClientStatus}
use cosmo_nps.Control.Traffic.{Traffic, TrafficReport}
use cosmo_nps.Control.Nodes.{AgentSyncBundle}
use cosmo_nps.Integrated.Library.{Nps}
use cosmo_nps.Integrated.Sync.{sync_nps_state}
use cosmo_nps.Integrated.Traffic.{collect_nps_traffic}

-- why the agent fails: the request's error, or a bundle of another node
pub data AgentError : Type 0 where
  request_failed : Text → AgentError
  wrong_node : Text → AgentError
  sync_failed : Text → AgentError
  invalid_token : AgentError

abbrev pub bearer_header : Text → Text
bearer_header token = str "Bearer " ++ token

module _ {L : Type 0} (nps : Nps L) where
  abbrev pub synced : Result Text (Unit {0}) × L → Result AgentError (Unit {0}) × L
  synced (ok _, l) = (ok tt, l)
  synced (err e, l) = (err (sync_failed e), l)

  unfoldable pub apply_bundle : Text → AgentSyncBundle → L → Result AgentError (Unit {0}) × L
  apply_bundle node_id b l =
      if not (b.node.id == []) && not (b.node.id == node_id)
      then (err (wrong_node b.node.id), l)
      else synced (sync_nps_state nps b.users b.tunnels l)

  -- syncOnce: `fetch` is the request with the parameter `node` and the Authorization header, up to the
  -- decoded body
  unfoldable pub sync_once :
      (Text → Text → Result Text AgentSyncBundle)
      → Text
      → Text
      → L
      → Result AgentError (Unit {0}) × L
  sync_once fetch node_id token l = elim (fetch node_id (bearer_header token)) [
    | err e ↦ (err (request_failed e), l)
    | ok b ↦ apply_bundle node_id b l
  ]

  -- the handler of /api/agent/apply up to its reply; the body is an error if it does not decode
  unfoldable pub apply_handler :
      Text → Text → Text → Result Text AgentSyncBundle → L → Result AgentError (Unit {0}) × L
  apply_handler node_id node_token header body l =
      let token = trim_space (trim_prefix header (str "Bearer ")) in
      if token == [] || not (token == node_token)
      then (err invalid_token, l)
      else elim body [ err e ↦ (err (request_failed e), l) | ok b ↦ apply_bundle node_id b l ]

  -- the report of reportTrafficOnce; none where it sends nothing
  unfoldable pub traffic_report : Text → L → Option TrafficReport
  traffic_report node_id l =
      let (tunnels, users) = collect_nps_traffic nps l in
      if nat_eq (length tunnels) 0 && nat_eq (length users) 0
      then none
      else some (record { node_id = node_id; tunnels = tunnels; users = users })

-- runtimeClientStatuses: what NPS answers, as of this node
unfoldable pub agent_statuses : Text → List ClientStatus → List ClientStatus
agent_statuses node_id = map {A = ClientStatus} (λ c. record c { node_id = node_id })
