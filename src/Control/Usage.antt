-- ===== src/Control/Usage.antt =====
-- What a node gets and what a user has left (cmd/tunnel-control/main.go): the filters, the runtime of
-- a node, and resourceUsageFor.
pub mod Quota
use cosmo_nps.Base.{
  ℕ, suc, Bool, false, not, ◌&&◌, ◌||◌, none, some, List, [], ◌∷◌, if◌then◌else◌, ℤ, pos, negsuc,
  ◌+ℤ◌, ◌-ℤ◌, ltb_ℤ, leb_ℤ, eqb_ℤ, length,
}
use cosmo_nps.Text.{Text, str, ◌==◌}
use cosmo_nps.Text.Scan.{has_prefix}
use cosmo_nps.Core.Port.{PortRange}
use cosmo_nps.Core.Domain.{member}
use cosmo_nps.Core.Model.{User, Node, Tunnel, RuntimeConfig, default_node_id}
use cosmo_nps.Store.Base.{Store}
use cosmo_nps.Store.Nodes.{get_node}

-- at most the first
unfoldable pub filter_users_by_name : List User → Text → List User
filter_users_by_name [] name = []
filter_users_by_name (u ∷ us) name =
    let rest = filter_users_by_name us name in if u.name == name then u ∷ [] else rest

unfoldable pub filter_tunnels_by_user : List Tunnel → Text → List Tunnel
filter_tunnels_by_user [] name = []
filter_tunnels_by_user (t ∷ ts) name =
    let rest = filter_tunnels_by_user ts name in if t.user_name == name then t ∷ rest else rest

unfoldable pub or_default : Text → Text
or_default id = if id == [] then default_node_id else id

unfoldable pub filter_tunnels_by_node : List Tunnel → Text → List Tunnel
filter_tunnels_by_node [] node_id = []
filter_tunnels_by_node (t ∷ ts) node_id =
    let rest = filter_tunnels_by_node ts node_id in
    if or_default t.node_id == or_default node_id then t ∷ rest else rest

-- the lookup in `needed`
unfoldable pub owns_one : Text → List Tunnel → Bool
owns_one name [] = false
owns_one name (t ∷ ts) = t.user_name == name || owns_one name ts

unfoldable pub users_for_tunnels : List User → List Tunnel → List User
users_for_tunnels [] ts = []
users_for_tunnels (u ∷ us) ts =
    let rest = users_for_tunnels us ts in if owns_one u.name ts then u ∷ rest else rest

abbrev pub override_text : Text → Text → Text
override_text given fallback = if given == [] then fallback else given

abbrev pub override_port : ℤ → ℤ → ℤ
override_port given fallback = if ltb_ℤ (pos 0) given then given else fallback

unfoldable pub runtime_for_node : Node → RuntimeConfig → RuntimeConfig
runtime_for_node node fallback = record fallback {
  server_addr =
      override_text node.runtime.server_addr (override_text node.public_addr fallback.server_addr);
  frp_server_port = override_port node.runtime.frp_server_port fallback.frp_server_port;
  frp_http_port = override_port node.runtime.frp_http_port fallback.frp_http_port;
  frp_https_port = override_port node.runtime.frp_https_port fallback.frp_https_port;
  nps_server_port = override_port node.runtime.nps_server_port fallback.nps_server_port;
  nps_http_proxy_port = override_port node.runtime.nps_http_proxy_port fallback.nps_http_proxy_port;
  nps_https_port = override_port node.runtime.nps_https_port fallback.nps_https_port;
}

unfoldable pub runtime_for_tunnel : Store → RuntimeConfig → Tunnel → RuntimeConfig
runtime_for_tunnel s runtime t = elim (get_node s (or_default t.node_id)) [
  | some node ↦ runtime_for_node node runtime
  | none ↦ runtime
]

-- the size of a set that is collected from a list
module _ {A : Type 0} (same : A → A → Bool) where
  unfoldable pub occurs : A → List A → Bool
  occurs x [] = false
  occurs x (y ∷ ys) = same y x || occurs x ys

  unfoldable pub count_distinct : List A → ℕ
  count_distinct [] = 0
  count_distinct (x ∷ xs) = let rest = count_distinct xs in if occurs x xs then rest else suc rest

unfoldable pub total_ports : List PortRange → ℤ
total_ports [] = pos 0
total_ports (r ∷ rs) =
    let rest = total_ports rs in
    if leb_ℤ r.start r.end then ((r.end -ℤ r.start) +ℤ pos 1) +ℤ rest else rest

unfoldable pub free_count : ℤ → ℤ → ℤ
free_count total used = if leb_ℤ total (pos 0) || leb_ℤ total used then pos 0 else total -ℤ used

unfoldable pub is_udp : Text → Bool
is_udp mode = mode == str "udp"

unfoldable pub is_tcp : Text → Bool
is_tcp mode = mode == str "tcp" || mode == str "socks5"

unfoldable pub is_web : Text → Bool
is_web mode = mode == str "http" || mode == str "https"

-- the ports that the enabled tunnels of the user put in tcpPorts or udpPorts
module _ (in_mode : Text → Bool) where
  unfoldable pub used_ports : Text → List Tunnel → List ℤ
  used_ports name [] = []
  used_ports name (t ∷ ts) =
      let rest = used_ports name ts in
      if t.user_name == name && (t.enabled && (in_mode t.mode && ltb_ℤ (pos 0) t.remote_port))
      then t.remote_port ∷ rest
      else rest

abbrev pub add_new : List Text → List Text → List Text
add_new [] seen = seen
add_new (d ∷ ds) seen = if member d seen then add_new ds seen else add_new ds (d ∷ seen)

-- the domains that the enabled tunnels of the user put in `domains`
unfoldable pub used_domains : Text → List Tunnel → List Text
used_domains name [] = []
used_domains name (t ∷ ts) =
    let rest = used_domains name ts in
    if t.user_name == name && (t.enabled && is_web t.mode) then add_new t.domains rest else rest

unfoldable pub count_owned : Text → List Tunnel → ℕ
count_owned name [] = 0
count_owned name (t ∷ ts) =
    let rest = count_owned name ts in if t.user_name == name then suc rest else rest

unfoldable pub has_wildcard : List Text → Bool
has_wildcard [] = false
has_wildcard (pool ∷ pools) = (pool == str "*" || has_prefix pool (str "*.")) || has_wildcard pools

pub record ResourceUsage : Type 0 where
  pub user_name : Text
  pub port_total : ℤ
  pub tcp_used : ℤ
  pub tcp_free : ℤ
  pub udp_used : ℤ
  pub udp_free : ℤ
  pub domain_total : ℤ
  pub domain_used : ℤ
  pub domain_free : ℤ
  pub has_wildcard : Bool
  pub tunnel_used : ℤ
  pub tunnel_limit : ℤ
  pub tunnel_free : ℤ
  pub is_unlimited : Bool

-- one round of resourceUsageFor; `is_unlimited` stands for the message
unfoldable pub resource_usage : List Tunnel → User → ResourceUsage
resource_usage tunnels u =
    let total = total_ports u.port_pools in
    let tcp = pos (count_distinct eqb_ℤ (used_ports is_tcp u.name tunnels)) in
    let udp = pos (count_distinct eqb_ℤ (used_ports is_udp u.name tunnels)) in
    let domains = pos (length (used_domains u.name tunnels)) in
    let owned = pos (count_owned u.name tunnels) in
    let limited = ltb_ℤ (pos 0) u.max_ports in
    record {
      user_name = u.name;
      port_total = total;
      tcp_used = tcp;
      tcp_free = free_count total tcp;
      udp_used = udp;
      udp_free = free_count total udp;
      domain_total = pos (length u.domain_pools);
      domain_used = domains;
      domain_free =
          if has_wildcard u.domain_pools
          then negsuc 0
          else free_count (pos (length u.domain_pools)) domains;
      has_wildcard = has_wildcard u.domain_pools;
      tunnel_used = owned;
      tunnel_limit = u.max_ports;
      tunnel_free = if limited then free_count u.max_ports owned else negsuc 0;
      is_unlimited = not limited;
    }

unfoldable pub resource_usage_for : List User → List Tunnel → List ResourceUsage
resource_usage_for [] tunnels = []
resource_usage_for (u ∷ us) tunnels = resource_usage tunnels u ∷ resource_usage_for us tunnels
