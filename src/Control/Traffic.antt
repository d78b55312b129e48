-- ===== src/Control/Traffic.antt =====
-- Traffic reports of the nodes (reportTraffic of cmd/tunnel-control/main.go): the counters per tunnel
-- and per user, and the quota.
pub mod Counted
pub mod Quota
use cosmo_nps.Base.{
  ℕ, suc, ◌+◌, ◌-◌, ◌%◌, ◌^◌, Bool, true, false, not, ◌&&◌, ◌||◌, Option, none, some, List, [], ◌∷◌,
  ◌++◌, Result, ok, err, if◌then◌else◌, ℤ, pos, negsuc, ◌+ℤ◌, ◌-ℤ◌, ◌*ℤ◌, ltb_ℤ, leb_ℤ, ltb,
}
use cosmo_nps.Text.{Text, str, ◌==◌}
use cosmo_nps.Text.Scan.{trim_space, trim_prefix}
use cosmo_nps.Dict.{Dict, lookup, insert}
use cosmo_nps.Core.Env.{Env}
use cosmo_nps.Core.Model.{User, Node, Time, zero_user}
use cosmo_nps.Store.Base.{Store}
use cosmo_nps.Store.Users.{get_user, upsert_user}
use cosmo_nps.Store.Nodes.{get_node}
use cosmo_nps.Control.Sessions.{ApiError, bad_body, bad_token, unknown_node}

-- an int64 result, wrapped around
abbrev pub signed64 : ℕ → ℤ
signed64 n = if ltb n (2 ^ 63) then pos n else negsuc (2 ^ 64 - 1 - n)

unfoldable pub int64 : ℤ → ℤ
int64 (pos n) = signed64 (n % 2 ^ 64)
int64 (negsuc n) = signed64 (2 ^ 64 - 1 - n % 2 ^ 64)

-- TunnelTraffic and UserTraffic: the totals of one tunnel or one user
pub record Traffic : Type 0 where
  pub item : Text
  pub inlet_flow : ℤ
  pub export_flow : ℤ

pub record TrafficReport : Type 0 where
  pub node_id : Text
  pub tunnels : List Traffic
  pub users : List Traffic

-- tunnelTrafficState and userTrafficState, of the same fields
pub record TrafficState : Type 0 where
  pub node_id : Text
  pub item : Text
  pub last_inlet_flow : ℤ
  pub last_export_flow : ℤ
  pub last_seen_at : Time
  pub inlet_flow : ℤ
  pub export_flow : ℤ
  pub inlet_speed : ℤ
  pub export_speed : ℤ

unfoldable pub traffic_key : Text → Text → Text
traffic_key node_id item = node_id ++ (0 ∷ item)

unfoldable pub first_state : Text → Time → Traffic → TrafficState
first_state node_id now traffic = record {
  node_id = node_id;
  item = traffic.item;
  last_inlet_flow = traffic.inlet_flow;
  last_export_flow = traffic.export_flow;
  last_seen_at = now;
  inlet_flow = traffic.inlet_flow;
  export_flow = traffic.export_flow;
  inlet_speed = pos 0;
  export_speed = pos 0;
}

-- the bytes since the last report; none after a counter has gone back
unfoldable pub delta : ℤ → ℤ → ℤ
delta new old = if leb_ℤ old new then int64 (new -ℤ old) else pos 0

-- `per_second bytes nanos` is the quotient that Go computes in float64 and cuts to an int64.
module _ (per_second : ℤ → ℤ → ℤ) where
  unfoldable pub speed : Time → TrafficState → ℤ → ℤ → ℤ → ℤ
  speed now state new old current =
      let elapsed = now -ℤ state.last_seen_at in
      if ltb_ℤ (pos 500000000) elapsed
      then (if leb_ℤ old new then per_second (int64 (new -ℤ old)) elapsed else pos 0)
      else current

  unfoldable pub next_state : Time → Traffic → TrafficState → TrafficState
  next_state now traffic state = record state {
    inlet_speed = speed now state traffic.inlet_flow state.inlet_flow state.inlet_speed;
    export_speed = speed now state traffic.export_flow state.export_flow state.export_speed;
    last_inlet_flow = state.inlet_flow;
    last_export_flow = state.export_flow;
    inlet_flow = traffic.inlet_flow;
    export_flow = traffic.export_flow;
    last_seen_at = now;
  }

  abbrev pub advance : Text → Time → Traffic → Option TrafficState → TrafficState
  advance node_id now traffic none = first_state node_id now traffic
  advance node_id now traffic (some state) = next_state now traffic state

  -- the entry of one item, new or changed
  unfoldable pub track : Text → Time → Traffic → Dict TrafficState → Dict TrafficState
  track node_id now traffic states =
      let key = traffic_key node_id traffic.item in
      insert key (advance node_id now traffic (lookup key states)) states

  -- the loop over req.Tunnels
  unfoldable pub track_all : Text → Time → List Traffic → Dict TrafficState → Dict TrafficState
  track_all node_id now [] states = states
  track_all node_id now (traffic ∷ more) states =
      track_all node_id now more (track node_id now traffic states)

-- `user.FlowLimit * 1024 * 1024 * 1024`
unfoldable pub limit_bytes : User → ℤ
limit_bytes u = int64 (int64 (int64 (u.flow_limit *ℤ pos 1024) *ℤ pos 1024) *ℤ pos 1024)

unfoldable pub new_used : User → ℤ → ℤ → ℤ
new_used u delta_in delta_out = int64 (int64 (u.flow_used +ℤ delta_in) +ℤ delta_out)

unfoldable pub over_quota : User → ℤ → Bool
over_quota u used = ltb_ℤ (pos 0) (limit_bytes u) && leb_ℤ (limit_bytes u) used

-- the user that goes to UpsertUser
unfoldable pub charged : User → ℤ → User
charged u used = record zero_user {
  name = u.name;
  role = u.role;
  enabled = if over_quota u used && u.enabled then false else u.enabled;
  port_pools = u.port_pools;
  domain_pools = u.domain_pools;
  max_ports = u.max_ports;
  frp_token = u.frp_token;
  nps_verify_key = u.nps_verify_key;
  rate_limit = u.rate_limit;
  flow_limit = u.flow_limit;
  flow_used = used;
  expires_at = u.expires_at;
}

-- Whether the user was switched off, and the store. An error of UpsertUser is ignored.
unfoldable pub charge : Env → Text → ℤ → ℤ → Store → Bool × Store
charge env name delta_in delta_out s =
    if ltb_ℤ (pos 0) delta_in || ltb_ℤ (pos 0) delta_out
    then elim (get_user s name) [
      | none ↦ (false, s)
      | some u ↦
          let used = new_used u delta_in delta_out in
          (over_quota u used && u.enabled, (upsert_user env (charged u used) s).1)
    ]
    else (false, s)

-- the deltas of one user's report and the charge; nothing is charged for a first report
unfoldable pub charge_since : Env → Traffic → Option TrafficState → Store → Bool × Store
charge_since env traffic none s = (false, s)
charge_since env traffic (some state) s =
    charge env traffic.item (delta traffic.inlet_flow state.inlet_flow)
      (delta traffic.export_flow state.export_flow) s

-- the maps of the server that a report changes
pub record Meters : Type 0 where
  pub store : Store
  pub tunnel_traffic : Dict TrafficState
  pub user_traffic : Dict TrafficState

unfoldable pub admit_report : Text → Node → Result ApiError (Unit {0})
admit_report token node = if node.token == token then ok tt else err unknown_node

-- the token of the Authorization header
unfoldable pub bearer : Text → Text
bearer header = trim_prefix (trim_space header) (str "Bearer ")

module _ (per_second : ℤ → ℤ → ℤ) where
  -- The loop over req.Users; `env i` is the outside of the i-th charge. The result is `dirtyUsers`.
  unfoldable pub count_users : (ℕ → Env) → ℕ → Text → Time → List Traffic → Meters → Bool × Meters
  count_users env i node_id now [] meters = (false, meters)
  count_users env i node_id now (traffic ∷ more) meters =
      let key = traffic_key node_id traffic.item in
      let (dirty, store) =
        charge_since (env i) traffic (lookup key meters.user_traffic) meters.store in
      let (rest, done) = count_users env (suc i) node_id now more (record meters {
        store = store;
        user_traffic = track per_second node_id now traffic meters.user_traffic;
      }) in
      (dirty || rest, done)

  -- behind the decoding of the body: true where the engines have to be told
  unfoldable pub count_report :
      (ℕ → Env) → Time → Text → TrafficReport → Meters → Result ApiError Bool × Meters
  count_report env now token req meters = elim (get_node meters.store req.node_id) [
    | none ↦ (err unknown_node, meters)
    | some node ↦ elim (admit_report token node) [
      | err e ↦ (err e, meters)
      | ok _ ↦
          let (dirty, done) = count_users env 0 req.node_id now req.users (record meters {
            tunnel_traffic = track_all per_second req.node_id now req.tunnels meters.tunnel_traffic;
          }) in
          (ok dirty, done)
    ]
  ]

  -- reportTraffic with the Authorization header and the decoded body, none if it does not decode
  unfoldable pub report_traffic :
      (ℕ → Env) → Time → Text → Option TrafficReport → Meters → Result ApiError Bool × Meters
  report_traffic env now header body meters =
      if bearer header == [] then (err bad_token, meters) else elim body [
        | none ↦ (err bad_body, meters)
        | some req ↦ count_report env now (bearer header) req meters
      ]
