-- ===== src/Store/Rules.antt =====
-- validateTunnelLocked and the tests that it uses.
pub mod Sound
pub mod Complete
pub mod Exact
use cosmo_nps.Base.{
  ℕ, suc, Bool, true, false, not, ◌&&◌, ◌||◌, Option, none, some, List, [], ◌∷◌, ◌++◌, ℤ, pos,
  Result, ok, err, ◌>>=◌, ◌>>◌, refuse, if◌then◌else◌, ltb_ℤ, leb_ℤ, eqb_ℤ, length, ltb,
}
use cosmo_nps.Text.{Text, str, ◌==◌}
use cosmo_nps.Dict.{Dict, lookup}
use cosmo_nps.Core.Port.{PortRange, port_in_ranges}
use cosmo_nps.Core.Domain.{domain_in_pools, member}
use cosmo_nps.Core.Model.{User, Node, Tunnel, Database, engine_nps, default_node_id}
use cosmo_nps.Store.Base.{
  StoreError, no_user_name, bad_engine, no_mode, bad_mode, no_local_port, no_remote_port, no_domain,
  node_disabled, nps_disabled, user_disabled, port_outside_user, port_outside_node, port_used,
  domain_outside_user, domain_outside_node, domain_used, too_many_tunnels,
}

unfoldable pub is_port_mode : Text → Bool
is_port_mode mode = mode == str "tcp" || mode == str "udp" || mode == str "socks5"

unfoldable pub is_domain_mode : Text → Bool
is_domain_mode mode = mode == str "http" || mode == str "https"

unfoldable pub port_transport : Text → Text
port_transport mode = if mode == str "udp" then str "udp" else str "tcp"

-- tunnelNodeID(tunnel)
unfoldable pub tunnel_node_id : Tunnel → Text
tunnel_node_id t = if t.node_id == [] then default_node_id else t.node_id

-- the body of the loop over the stored tunnels of a port tunnel: true where it returns an error
unfoldable pub port_clash : Tunnel → Text → Tunnel → Bool
port_clash new existing_id old =
    if old.id == existing_id || not (is_port_mode old.mode)
    then false
    else if not (tunnel_node_id old == new.node_id)
    then false
    else eqb_ℤ old.remote_port new.remote_port && port_transport old.mode == port_transport new.mode

unfoldable pub check_ports : Tunnel → Text → Dict Tunnel → Result StoreError (Unit {0})
check_ports new existing_id [] = ok tt
check_ports new existing_id ((_, old) ∷ m) =
    let rest = check_ports new existing_id m in
    if port_clash new existing_id old then err (port_used new.remote_port old.id) else rest

-- the same for one domain: two loops, over the tunnels and over their domains
unfoldable pub domain_clash : Text → Text → Text → Tunnel → Bool
domain_clash mode domain existing_id old =
    if old.id == existing_id || not (is_domain_mode old.mode)
    then false
    else old.mode == mode && member domain old.domains

unfoldable pub check_domain_free : Text → Text → Text → Dict Tunnel → Result StoreError (Unit {0})
check_domain_free mode domain existing_id [] = ok tt
check_domain_free mode domain existing_id ((_, old) ∷ m) =
    let rest = check_domain_free mode domain existing_id m in
    if domain_clash mode domain existing_id old then err (domain_used domain old.id) else rest

unfoldable pub check_domains :
    User → Node → Dict Tunnel → Text → Text → List Text → Result StoreError (Unit {0})
check_domains u node tunnels mode existing_id [] = ok tt
check_domains u node tunnels mode existing_id (domain ∷ domains) = do
  refuse (not (domain_in_pools domain u.domain_pools)) (domain_outside_user domain)
  refuse (ltb 0 (length node.domain_pools) && not (domain_in_pools domain node.domain_pools))
      (domain_outside_node domain)
  check_domain_free mode domain existing_id tunnels
  check_domains u node tunnels mode existing_id domains

-- countUserTunnelsLocked(userName, exceptID)
unfoldable pub count_user_tunnels : Dict Tunnel → Text → Text → ℕ
count_user_tunnels [] user_name except_id = 0
count_user_tunnels ((_, t) ∷ m) user_name except_id =
    let rest = count_user_tunnels m user_name except_id in
    if not (t.id == except_id) && t.user_name == user_name then suc rest else rest

-- the checks of a port tunnel and of a domain tunnel
unfoldable pub check_entry :
    User → Node → Dict Tunnel → Tunnel → Text → Result StoreError (Unit {0})
check_entry u node tunnels new existing_id =
    if is_port_mode new.mode
    then (do
      refuse (leb_ℤ new.remote_port (pos 0)) no_remote_port
      refuse (not (port_in_ranges new.remote_port u.port_pools)) (port_outside_user new.remote_port)
      refuse
          (ltb 0 (length node.port_pools) && not (port_in_ranges new.remote_port node.port_pools))
          (port_outside_node new.remote_port)
      check_ports new existing_id tunnels)
    else do
      refuse (not (ltb 0 (length new.domains))) no_domain
      check_domains u node tunnels new.mode existing_id new.domains

abbrev enabled_user : Option User → Text → Result StoreError User
enabled_user none name = err (user_disabled name)
enabled_user (some u) name = if u.enabled then ok u else err (user_disabled name)

abbrev enabled_node : Option Node → Text → Result StoreError Node
enabled_node none id = err (node_disabled id)
enabled_node (some n) id = if n.enabled then ok n else err (node_disabled id)

unfoldable pub validate_tunnel : Database → Tunnel → Text → Result StoreError (Unit {0})
validate_tunnel db new existing_id = do
  refuse (new.user_name == []) no_user_name
  refuse (not (new.engine == engine_nps)) bad_engine
  node ← enabled_node (lookup new.node_id db.nodes) new.node_id
  refuse (new.engine == engine_nps && not node.nps_enabled) (nps_disabled new.node_id)
  refuse (new.mode == []) no_mode
  refuse (not (is_port_mode new.mode) && not (is_domain_mode new.mode)) bad_mode
  refuse (leb_ℤ new.local_port (pos 0) || ltb_ℤ (pos 65535) new.local_port) no_local_port
  u ← enabled_user (lookup new.user_name db.users) new.user_name
  check_entry u node db.tunnels new existing_id
  refuse
      (ltb_ℤ (pos 0) u.max_ports
        && leb_ℤ u.max_ports (pos (count_user_tunnels db.tunnels new.user_name existing_id)))
      (too_many_tunnels new.user_name)
