-- ===== src/Control/Clients.antt =====
-- The states of the users' clients (clientStatusesFor and its relatives of cmd/tunnel-control/main.go,
-- with ClientStatus of internal/integrated/engines.go).
pub mod Online
use cosmo_nps.Base.{
  ℕ, suc, ◌+◌, Bool, true, false, not, ◌&&◌, ◌||◌, Option, none, some, List, [], ◌∷◌, ◌++◌, map,
  if◌then◌else◌, ℤ, pos,
}
use cosmo_nps.Text.{Text, str, ◌==◌}
use cosmo_nps.Dict.{Dict, lookup, insert, delete}
use cosmo_nps.Core.Model.{
  User, Tunnel, Time, zero_time, is_zero, after, engine_frp, engine_nps, default_node_id,
}
use cosmo_nps.Store.Base.{Store}
use cosmo_nps.Store.Users.{all_users}
use cosmo_nps.Store.Tunnels.{list_tunnels}
use cosmo_nps.Control.Sessions.{is_admin}
use cosmo_nps.Control.Usage.{filter_users_by_name, filter_tunnels_by_user}

-- integrated.ClientStatus
pub record ClientStatus : Type 0 where
  pub node_id : Text
  pub user_name : Text
  pub engine : Text
  pub client_id : Text
  pub client_ip : Text
  pub hostname : Text
  pub version : Text
  pub online : Bool
  pub connected_at : Time
  pub last_seen_at : Time
  pub disconnected_at : Time
  pub current_conns : ℤ

abbrev pub zero_client : ClientStatus
zero_client = record {
  node_id = [];
  user_name = [];
  engine = [];
  client_id = [];
  client_ip = [];
  hostname = [];
  version = [];
  online = false;
  connected_at = zero_time;
  last_seen_at = zero_time;
  disconnected_at = zero_time;
  current_conns = pos 0;
}

-- clientRuntimeStatus
pub record RuntimeStatus : Type 0 where
  pub node_id : Text
  pub user_name : Text
  pub engine : Text
  pub state : Text
  pub online : Bool
  pub client_id : Text
  pub client_ip : Text
  pub hostname : Text
  pub version : Text
  pub connected_at : Text
  pub last_seen_at : Text
  pub disconnected_at : Text
  pub current_conns : ℤ
  pub tunnel_total : ℕ
  pub tunnel_online : ℕ

-- clientTunnelCount
pub record TunnelCount : Type 0 where
  pub total : ℕ
  pub online : ℕ

abbrev pub zero_count : TunnelCount
zero_count = record { total = 0; online = 0 }

-- setRemoteClientStatuses on the map from nodes to the statuses that they sent
unfoldable pub set_remote_statuses :
    Text → List ClientStatus → Dict (List ClientStatus) → Dict (List ClientStatus)
set_remote_statuses node_id [] remote = delete node_id remote
set_remote_statuses node_id (c ∷ cs) remote = insert node_id (c ∷ cs) remote

-- runtimeClientStatuses: `frp` and `nps` are what the engines answer
unfoldable pub runtime_statuses : List ClientStatus → List ClientStatus → List ClientStatus
runtime_statuses frp nps =
    map {A = ClientStatus} (λ c. record c { node_id = default_node_id }) (frp ++ nps)

unfoldable pub append_remote : List ClientStatus → Dict (List ClientStatus) → List ClientStatus
append_remote statuses [] = statuses
append_remote statuses ((_, more) ∷ rest) = append_remote (statuses ++ more) rest

unfoldable pub all_client_statuses :
    List ClientStatus → List ClientStatus → Dict (List ClientStatus) → List ClientStatus
all_client_statuses frp nps remote = append_remote (runtime_statuses frp nps) remote

unfoldable pub better_client_status : ClientStatus → ClientStatus → Bool
better_client_status candidate current =
    if candidate.online && not current.online || not candidate.online && current.online
    then candidate.online
    else after candidate.last_seen_at current.last_seen_at

unfoldable pub status_key : Text → Text → Text
status_key user_name engine = user_name ++ (0 ∷ engine)

-- the entry of one status in liveByUserEngine
unfoldable pub improve : ClientStatus → Option ClientStatus → ClientStatus
improve c none = c
improve c (some current) = if better_client_status c current then c else current

unfoldable pub live_from : Dict ClientStatus → List ClientStatus → Dict ClientStatus
live_from best [] = best
live_from best (c ∷ cs) =
    let key = status_key c.user_name c.engine in
    live_from
      (if c.user_name == [] || c.engine == []
        then best
        else insert key (improve c (lookup key best)) best)
      cs

-- `count` of the entry, which is the zero count where there is none
abbrev pub count_of : Option TunnelCount → TunnelCount
count_of none = zero_count
count_of (some n) = n

unfoldable pub count_from : Dict TunnelCount → List Tunnel → Dict TunnelCount
count_from counts [] = counts
count_from counts (t ∷ ts) =
    let key = status_key t.user_name t.engine in
    let old = count_of (lookup key counts) in
    count_from
      (if t.enabled then insert key (record old { total = suc old.total }) counts else counts) ts

-- `format` is Format(time.RFC3339) of the package `time`
module _ (format : Time → Text) where
  unfoldable pub status_time : Time → Text
  status_time t = if is_zero t then [] else format t

  offline_status : Text → Text → Bool → ClientStatus → TunnelCount → RuntimeStatus
  offline_status user_name engine embedded live count = record {
    node_id = live.node_id;
    user_name = user_name;
    engine = engine;
    state = if embedded then str "offline" else str "unknown";
    online = false;
    client_id = [];
    client_ip = [];
    hostname = [];
    version = [];
    connected_at = [];
    last_seen_at = [];
    disconnected_at = [];
    current_conns = pos 0;
    tunnel_total = count.total;
    tunnel_online = count.online;
  }

  live_status : Text → Text → Bool → ClientStatus → TunnelCount → RuntimeStatus
  unfolding status_time
  live_status user_name engine embedded live count = record {
    node_id = live.node_id;
    user_name = user_name;
    engine = engine;
    state = if live.online then str "online" else if embedded then str "offline" else str "unknown";
    online = live.online;
    client_id = live.client_id;
    client_ip = live.client_ip;
    hostname = live.hostname;
    version = live.version;
    connected_at = status_time live.connected_at;
    last_seen_at = status_time live.last_seen_at;
    disconnected_at = status_time live.disconnected_at;
    current_conns = live.current_conns;
    tunnel_total = count.total;
    tunnel_online = if live.online then count.total else count.online;
  }

  unfoldable pub build_status : Text → Text → Bool → ClientStatus → TunnelCount → RuntimeStatus
  unfolding offline_status live_status
  build_status user_name engine embedded live count =
      if live.user_name == []
      then offline_status user_name engine embedded live count
      else live_status user_name engine embedded live count

  -- the status of one engine of a user, from the two maps
  unfoldable pub status_of :
      Bool → Dict ClientStatus → Dict TunnelCount → Text → Text → RuntimeStatus
  status_of embedded live counts name engine =
      let key = status_key name engine in
      build_status name engine embedded (elim (lookup key live) [ none ↦ zero_client | some c ↦ c ])
        (count_of (lookup key counts))

  unfoldable pub statuses_from :
      Bool → Dict ClientStatus → Dict TunnelCount → List User → List RuntimeStatus
  statuses_from embedded live counts [] = []
  statuses_from embedded live counts (u ∷ us) =
      let rest = statuses_from embedded live counts us in
      let keyed =
        if u.nps_verify_key == []
        then rest
        else status_of embedded live counts u.name engine_nps ∷ rest in
      if u.frp_token == [] then keyed else status_of embedded live counts u.name engine_frp ∷ keyed

  unfoldable pub client_statuses_for :
      List User → List Tunnel → Bool → List ClientStatus → List RuntimeStatus
  client_statuses_for users tunnels embedded live =
      statuses_from embedded (live_from [] live) (count_from [] tunnels) users

  -- listClients
  unfoldable pub list_clients : Bool → List ClientStatus → User → Store → List RuntimeStatus
  list_clients embedded live current s =
      if is_admin (some current)
      then client_statuses_for (all_users s) (list_tunnels s []) embedded live
      else client_statuses_for (filter_users_by_name (all_users s) current.name)
          (filter_tunnels_by_user (list_tunnels s []) current.name) embedded live
