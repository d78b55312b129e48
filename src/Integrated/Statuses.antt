-- ===== src/Integrated/Statuses.antt =====
-- FRPClientStatuses and NPSClientStatuses (internal/integrated/engines.go).
use cosmo_nps.Base.{Bool, true, Option, none, some, List, [], ◌∷◌, if◌then◌else◌, ℤ, map}
use cosmo_nps.Text.{Text, ◌==◌}
use cosmo_nps.Text.Decimal.{itoa}
use cosmo_nps.Core.Model.{Time, engine_frp, engine_nps}
use cosmo_nps.Control.Clients.{ClientStatus, zero_client}
use cosmo_nps.Integrated.Library.{FileClient, Nps}
use cosmo_nps.Integrated.Prune.{client_name}

-- the record of the frp service for a client; `client_id` is what its method ClientID answers
pub record ClientInfo : Type 0 where
  pub user : Text
  pub client_id : Text
  pub ip : Text
  pub hostname : Text
  pub version : Text
  pub online : Bool
  pub first_connected_at : Time
  pub last_connected_at : Time
  pub disconnected_at : Time

unfoldable pub frp_status : ClientInfo → ClientStatus
frp_status info = record zero_client {
  user_name = info.user;
  engine = engine_frp;
  client_id = info.client_id;
  client_ip = info.ip;
  hostname = info.hostname;
  version = info.version;
  online = info.online;
  connected_at = info.first_connected_at;
  last_seen_at = info.last_connected_at;
  disconnected_at = info.disconnected_at;
}

-- `infos` is what the service lists, none where there is no service
unfoldable pub frp_client_statuses : Option (List ClientInfo) → List ClientStatus
frp_client_statuses none = []
frp_client_statuses (some infos) = map frp_status infos

-- `bridge` is the version of the client that the bridge has for an id, and `parse_time` reads a local
-- time in the layout of the library
module _ {L : Type 0} (nps : Nps L) (bridge : ℤ → Option Text) (parse_time : Text → Option Time)
    (now : Time) where
  seen_by_bridge : Option Text → ClientStatus → ClientStatus
  seen_by_bridge none s = s
  seen_by_bridge (some version) s = record s {
    online = true;
    last_seen_at = now;
    version = version;
  }

  seen_at : Option Time → ClientStatus → ClientStatus
  seen_at none s = s
  seen_at (some t) s = record s { last_seen_at = t }

  unfoldable pub nps_status : Bool → FileClient → ClientStatus
  unfolding seen_by_bridge seen_at
  nps_status has_bridge c =
      let base : ClientStatus = record zero_client {
        user_name = client_name c;
        engine = engine_nps;
        client_id = itoa c.id;
        client_ip = c.addr;
        version = c.version;
        online = c.is_connect;
        current_conns = c.now_conn;
      } in
      seen_at (if c.last_online_time == [] then none else parse_time c.last_online_time)
        (seen_by_bridge (if has_bridge then bridge c.id else none) base)

  unfoldable pub statuses_of : Bool → List FileClient → List ClientStatus
  statuses_of has_bridge [] = []
  statuses_of has_bridge (c ∷ cs) =
      let rest = statuses_of has_bridge cs in
      if c.no_display then rest else nps_status has_bridge c ∷ rest

  unfoldable pub nps_client_statuses : L → List ClientStatus
  nps_client_statuses l =
      if nps.is_open l then statuses_of (nps.has_bridge l) (nps.clients l) else []
