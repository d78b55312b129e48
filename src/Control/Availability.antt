-- ===== src/Control/Availability.antt =====
-- Whether a tunnel can be reached (availabilityFor and the functions below it in
-- cmd/tunnel-control/main.go). The messages are texts of Unicode code points, not of UTF-8 bytes.
pub mod Reachable
use cosmo_nps.Base.{
  ℕ, suc, Bool, true, false, not, ◌&&◌, ◌||◌, Option, none, some, List, [], ◌∷◌, ◌++◌, Result, ok,
  err, if◌then◌else◌, ℤ, pos, ◌+ℤ◌, ltb_ℤ, leb_ℤ,
}
use cosmo_nps.Text.{Text, str, ◌==◌}
use cosmo_nps.Text.Scan.{trim_space, trim_prefix}
use cosmo_nps.Text.Split.{split2}
use cosmo_nps.Text.Decimal.{itoa}
use cosmo_nps.Dict.{Dict}
use cosmo_nps.Core.Model.{
  User, Tunnel, RuntimeConfig, Time, engine_frp, engine_nps, default_node_id,
}
use cosmo_nps.Store.Base.{Store}
use cosmo_nps.Store.Tunnels.{list_tunnels}
use cosmo_nps.Control.Sessions.{is_admin}
use cosmo_nps.Control.Traffic.{TrafficState, int64}
use cosmo_nps.Control.Usage.{or_default, filter_tunnels_by_user, runtime_for_tunnel}
use cosmo_nps.Control.Clients.{
  ClientStatus, RuntimeStatus, zero_client, better_client_status, build_status,
}
use cosmo_nps.Control.Probe.{Probe, Net, simple_probe, probe_tunnel_entry}

pub record TunnelAvailability : Type 0 where
  pub tunnel_id : Text
  pub user_name : Text
  pub engine : Text
  pub mode : Text
  pub state : Text
  pub message : Text
  pub client_state : Text
  pub entry : Probe
  pub checked_at : Text
  pub inlet_flow : ℤ
  pub export_flow : ℤ
  pub inlet_speed : ℤ
  pub export_speed : ℤ

-- the state and the message
unfoldable pub summarize : Text → Probe → Text × Text
summarize client entry =
    if entry.state == str "down"
    then (str "down", str "服务端入口异常")
    else if client == str "offline"
    then (str "down", str "客户端离线")
    else if entry.state == str "warning"
    then (str "warning", entry.message)
    else if client == str "online" && entry.state == str "ok"
    then (str "ok", str "客户端在线，入口可访问")
    else if client == str "online" && entry.state == str "unknown"
    then (str "warning", entry.message)
    else if client == str "unknown" && entry.state == str "ok"
    then (str "warning", str "入口可访问，客户端状态未知")
    else if client == str "unknown"
    then (str "unknown", str "客户端状态未知")
    else (str "warning", str "可用性需要关注")

-- the result with the entry and the summary
availability : Net → Tunnel → Text → Probe → Text × Text → TunnelAvailability
availability net t client_state entry (state, message) = record {
  tunnel_id = t.id;
  user_name = t.user_name;
  engine = t.engine;
  mode = t.mode;
  state = state;
  message = message;
  client_state = client_state;
  entry = entry;
  checked_at = net.now;
  inlet_flow = pos 0;
  export_flow = pos 0;
  inlet_speed = pos 0;
  export_speed = pos 0;
}

abbrev pub known_state : Text → Text
known_state state = if state == [] then str "unknown" else state

unfoldable pub check_availability :
    Net → Tunnel → RuntimeStatus → RuntimeConfig → TunnelAvailability
unfolding availability
check_availability net t client runtime =
    let client_state = known_state client.state in
    if not t.enabled
    then availability net t client_state (simple_probe (str "disabled") [] (str "未检测"))
        (str "disabled", str "隧道已停用")
    else let entry = probe_tunnel_entry net t runtime in
      availability net t client_state entry (summarize client_state entry)

-- whether a live status is of the tunnel's client
unfoldable pub is_for : Tunnel → ClientStatus → Bool
is_for t c =
    (c.user_name == t.user_name && c.engine == t.engine)
    && (c.node_id == [] || c.node_id == or_default t.node_id)

-- one round of the loop of clientStatusForTunnel
unfoldable pub choose : Tunnel → ClientStatus → ClientStatus → ClientStatus
choose t best c =
    if is_for t c && (best.user_name == [] || better_client_status c best) then c else best

unfoldable pub best_for : Tunnel → ClientStatus → List ClientStatus → ClientStatus
best_for t best [] = best
best_for t best (c ∷ cs) = best_for t (choose t best c) cs

module _ (format : Time → Text) where
  unfoldable pub client_status_for_tunnel : Tunnel → List ClientStatus → RuntimeStatus
  client_status_for_tunnel t live =
      build_status format t.user_name t.engine (or_default t.node_id == default_node_id)
        (best_for t zero_client live) (record { total = 1; online = 0 })

  -- availabilityFor: `net i` is what the network answers to the i-th goroutine
  unfoldable pub availability_for :
      (ℕ → Net)
      → ℕ
      → List Tunnel
      → List ClientStatus
      → (Tunnel → RuntimeConfig)
      → List TunnelAvailability
  availability_for net i [] live runtime_for = []
  availability_for net i (t ∷ ts) live runtime_for =
      check_availability (net i) t (client_status_for_tunnel t live) (runtime_for t)
      ∷ availability_for net (suc i) ts live runtime_for

-- the loop over a.tunnelTraffic for one entry of the list
unfoldable pub add_traffic : Dict TrafficState → TunnelAvailability → TunnelAvailability
add_traffic [] a = a
add_traffic ((_, state) ∷ rest) a = add_traffic rest (
    if state.item == a.tunnel_id
    then record a {
      inlet_flow = int64 (a.inlet_flow +ℤ state.inlet_flow);
      export_flow = int64 (a.export_flow +ℤ state.export_flow);
      inlet_speed = int64 (a.inlet_speed +ℤ state.inlet_speed);
      export_speed = int64 (a.export_speed +ℤ state.export_speed);
    }
    else a)

unfoldable pub add_traffics : Dict TrafficState → List TunnelAvailability → List TunnelAvailability
add_traffics states [] = []
add_traffics states (a ∷ rest) = add_traffic states a ∷ add_traffics states rest

-- listAvailability
unfoldable pub list_availability :
    (Time → Text)
    → (ℕ → Net)
    → List ClientStatus
    → RuntimeConfig
    → Dict TrafficState
    → User
    → Store
    → List TunnelAvailability
list_availability format net live runtime traffic current s =
    let tunnels =
      if is_admin (some current)
      then list_tunnels s []
      else filter_tunnels_by_user (list_tunnels s []) current.name in
    add_traffics traffic (availability_for format net 0 tunnels live (runtime_for_tunnel s runtime))
