-- ===== src/Control/Users.antt =====
-- The handlers of /api/users (cmd/tunnel-control/main.go). A handler behind authMiddleware takes the
-- request's user, the decoded body (none if it does not decode), and whether the engines' files and the
-- embedded engines could be brought up to date (`synced`).
use cosmo_nps.Base.{
  Bool, true, ◌||◌, not, Option, none, some, List, [], ◌∷◌, Result, ok, err, ◌>>=◌, if◌then◌else◌,
  ℤ, pos, ◌+ℤ◌,
}
use cosmo_nps.Text.{Text, str, ◌==◌}
use cosmo_nps.Text.Scan.{trim_space, trim_prefix, contains_byte}
use cosmo_nps.Text.Split.{split2}
use cosmo_nps.Dict.{Dict}
use cosmo_nps.Core.Port.{PortRange, parse_port_ranges}
use cosmo_nps.Core.Domain.{parse_domain_pools}
use cosmo_nps.Core.Env.{Env}
use cosmo_nps.Core.Model.{User, PublicUser, Time, public, zero_time, zero_user}
use cosmo_nps.Store.Base.{Store}
use cosmo_nps.Store.Users.{list_users, get_user, upsert_user, delete_user, reset_user_flow}
use cosmo_nps.Control.Sessions.{
  Server, Reply, ApiError, bad_body, not_found, admin_required, bad_ports, bad_domains, bad_time,
  store_error, is_admin, replying,
}
use cosmo_nps.Control.Tunnels.{after_sync}
use cosmo_nps.Control.Traffic.{TrafficState, Meters, int64}

-- the body of upsertUser; `enabled` is a pointer
pub record UserRequest : Type 0 where
  pub name : Text
  pub password : Text
  pub role : Text
  pub enabled : Option Bool
  pub port_pool : Text
  pub port_pools : List PortRange
  pub domain_pool : Text
  pub domain_pools : List Text
  pub max_ports : ℤ
  pub frp_token : Text
  pub nps_verify_key : Text
  pub rate_limit : ℤ
  pub flow_limit : ℤ
  pub expires_at : Text

-- requireAdmin in front of a handler
abbrev pub require_admin : {A S : Type 0} → User → S → Result ApiError A × S → Result ApiError A × S
require_admin user a reply = if is_admin (some user) then reply else (err admin_required, a)

-- a pool that is given as a text goes before the list
unfoldable pub chosen_ports : Text → List PortRange → Result ApiError (List PortRange)
chosen_ports text ranges =
    if text == []
    then ok ranges
    else elim (parse_port_ranges text) [ ok parsed ↦ ok parsed | err e ↦ err (bad_ports e) ]

unfoldable pub chosen_domains : Text → List Text → Result ApiError (List Text)
chosen_domains text domains =
    if text == []
    then ok domains
    else elim (parse_domain_pools text) [ ok parsed ↦ ok parsed | err e ↦ err (bad_domains e) ]

abbrev pub or_true : Option Bool → Bool
or_true none = true
or_true (some b) = b

abbrev pub layouts : List Text
layouts =
    str "2006-01-02T15:04:05Z07:00"
    ∷ str "2006-01-02T15:04"
    ∷ str "2006-01-02 15:04:05"
    ∷ str "2006-01-02 15:04"
    ∷ str "2006-01-02"
    ∷ []

-- `time_parse layout value` is what the package `time` reads, in UTC
module _ (time_parse : Text → Text → Option Time) where
  unfoldable pub parse_layouts : List Text → Text → Result ApiError Time
  parse_layouts [] value = err (bad_time value)
  parse_layouts (layout ∷ more) value =
      let rest = parse_layouts more value in
      elim (time_parse layout value) [ some t ↦ ok t | none ↦ rest ]

  unfoldable pub parse_optional_time : Text → Result ApiError Time
  parse_optional_time value =
      let trimmed = trim_space value in
      if trimmed == [] then ok zero_time else parse_layouts layouts trimmed

abbrev pub flow_used_of : Option User → ℤ
flow_used_of none = pos 0
flow_used_of (some u) = u.flow_used

-- the user that goes to UpsertUser
unfoldable pub requested_user : UserRequest → List PortRange → List Text → ℤ → Time → User
requested_user req ports domains used expires = record zero_user {
  name = req.name;
  password = req.password;
  role = req.role;
  enabled = or_true req.enabled;
  port_pools = ports;
  domain_pools = domains;
  max_ports = req.max_ports;
  frp_token = req.frp_token;
  nps_verify_key = req.nps_verify_key;
  rate_limit = req.rate_limit;
  flow_limit = req.flow_limit;
  flow_used = used;
  expires_at = expires;
}

module _ (time_parse : Text → Text → Option Time) where
  -- the body as a user, whose use stays that of the stored user
  unfoldable pub read_user : Store → UserRequest → Result ApiError User
  read_user s req = do
    ports ← chosen_ports req.port_pool req.port_pools
    domains ← chosen_domains req.domain_pool req.domain_pools
    expires ← parse_optional_time time_parse req.expires_at
    ok (requested_user req ports domains (flow_used_of (get_user s req.name)) expires)

  unfoldable pub upsert_read : Env → Bool → Result ApiError User → Server → Reply PublicUser
  upsert_read env synced (err e) a = (err e, a)
  upsert_read env synced (ok u) a = after_sync synced (replying a (upsert_user env u a.store))

  unfoldable pub upsert_user_handler :
      Env → Bool → User → Option UserRequest → Server → Reply PublicUser
  upsert_user_handler env synced user none a = require_admin user a (err bad_body, a)
  upsert_user_handler env synced user (some req) a =
      require_admin user a (upsert_read env synced (read_user a.store req) a)

unfoldable pub delete_user_handler : Env → Bool → User → Text → Server → Reply Unit
delete_user_handler env synced user path a =
    let name = trim_prefix path (str "/api/users/") in
    require_admin user a (
      if contains_byte name b'/'
      then (err not_found, a)
      else after_sync synced (replying a (delete_user env name a.store)))

-- the speeds of a user that the nodes have reported
unfoldable pub add_speeds : TrafficState → PublicUser → PublicUser
add_speeds state u =
    if state.item == u.name
    then record u {
      inlet_speed = int64 (u.inlet_speed +ℤ state.inlet_speed);
      export_speed = int64 (u.export_speed +ℤ state.export_speed);
    }
    else u

unfoldable pub attach_traffic : Dict TrafficState → PublicUser → PublicUser
unfolding add_speeds
attach_traffic [] u = u
attach_traffic ((_, state) ∷ rest) u = attach_traffic rest (add_speeds state u)

unfoldable pub attach_user_traffic : Dict TrafficState → List PublicUser → List PublicUser
attach_user_traffic states [] = []
attach_user_traffic states (u ∷ us) = attach_traffic states u ∷ attach_user_traffic states us

unfoldable pub list_users_handler : User → Meters → List PublicUser
list_users_handler user m =
    if is_admin (some user)
    then attach_user_traffic m.user_traffic (list_users m.store)
    else attach_user_traffic m.user_traffic (public user ∷ [])

unfoldable pub forget_user : Text → Dict TrafficState → Dict TrafficState
forget_user name [] = []
forget_user name ((key, state) ∷ rest) =
    let left = forget_user name rest in if state.item == name then left else (key, state) ∷ left

-- strings.Cut(path, "/")
unfoldable pub cut_action : Text → Option (Text × Text)
cut_action path = if contains_byte path b'/' then some (split2 b'/' path) else none

unfoldable pub reset_flow : Env → Text → Meters → Result ApiError (Unit {0}) × Meters
reset_flow env name m =
    let (done, store) = reset_user_flow env name m.store in
    elim done [
      | err e ↦ (err (store_error e), record m { store = store })
      | ok _ ↦ (ok tt, record m { store = store; user_traffic = forget_user name m.user_traffic })
    ]

unfoldable pub act : Env → Option (Text × Text) → Meters → Result ApiError (Unit {0}) × Meters
act env none m = (err not_found, m)
act env (some (name, action)) m =
    if name == [] || not (action == str "reset-flow")
    then (err not_found, m)
    else reset_flow env name m

unfoldable pub user_action : Env → User → Text → Meters → Result ApiError (Unit {0}) × Meters
user_action env user path m =
    require_admin user m (act env (cut_action (trim_prefix path (str "/api/users/"))) m)
