-- ===== src/Store/Rules/Sound.antt =====
-- What a tunnel that validateTunnelLocked lets through satisfies.
use cosmo_nps.Base.{
  ◌≡◌, ◌<◌, true, false, ◌||◌, some, List, [], ◌∷◌, pos, ◌≤ℤ◌, ok, ltb_ℤ, arith, length, All, inl,
  inr, Option-cases,
}
use cosmo_nps.Text.{Text, ◌==◌}
use cosmo_nps.Dict.{Dict, lookup}
use cosmo_nps.Dict.Laws.{Entries}
use cosmo_nps.Core.Port.{port_in_ranges}
use cosmo_nps.Core.Domain.{domain_in_pools}
use cosmo_nps.Core.Model.{User, Node, Tunnel, Database, engine_nps}
use cosmo_nps.Store.Rules.{
  is_port_mode, is_domain_mode, port_clash, check_ports, domain_clash, check_domain_free,
  check_domains, count_user_tunnels, check_entry, validate_tunnel,
}

pub check_ports-ok :
    (new : Tunnel) (ex : Text) (m : Dict Tunnel)
    → check_ports new ex m ≡ ok tt
    → Entries (λ _ old. port_clash new ex old ≡ false) m
unfolding check_ports
check_ports-ok new ex [] h = tt
check_ports-ok new ex ((k, old) ∷ m) h = (ground arith, check_ports-ok new ex m (ground arith))

pub check_domain_free-ok :
    (mode domain ex : Text) (m : Dict Tunnel)
    → check_domain_free mode domain ex m ≡ ok tt
    → Entries (λ _ old. domain_clash mode domain ex old ≡ false) m
unfolding check_domain_free
check_domain_free-ok mode domain ex [] h = tt
check_domain_free-ok mode domain ex ((k, old) ∷ m) h =
    (ground arith, check_domain_free-ok mode domain ex m (ground arith))

-- one domain of a new tunnel
pub record DomainAdmitted (u : User) (node : Node) (m : Dict Tunnel) (mode ex d : Text)
    : Type 0 where
  pub in_user : domain_in_pools d u.domain_pools ≡ true
  pub in_node : 0 < length node.domain_pools → domain_in_pools d node.domain_pools ≡ true
  pub unused : Entries (λ _ old. domain_clash mode d ex old ≡ false) m

pub check_domains-ok :
    (u : User) (node : Node) (m : Dict Tunnel) (mode ex : Text) (ds : List Text)
    → check_domains u node m mode ex ds ≡ ok tt
    → All (DomainAdmitted u node m mode ex) ds
unfolding check_domains
check_domains-ok u node m mode ex [] h = tt
check_domains-ok u node m mode ex (d ∷ ds) h = (
  record {
    in_user = ground arith;
    in_node = λ p. ground arith;
    unused = check_domain_free-ok mode d ex m (ground arith);
  },
  check_domains-ok u node m mode ex ds (ground arith),
)

pub record PortAdmitted (u : User) (node : Node) (m : Dict Tunnel) (new : Tunnel) (ex : Text)
    : Type 0 where
  pub positive : pos 1 ≤ℤ new.remote_port
  pub in_user : port_in_ranges new.remote_port u.port_pools ≡ true
  pub in_node : 0 < length node.port_pools → port_in_ranges new.remote_port node.port_pools ≡ true
  pub unused : Entries (λ _ old. port_clash new ex old ≡ false) m

check_entry-port :
    (u : User) (node : Node) (m : Dict Tunnel) (new : Tunnel) (ex : Text)
    → check_entry u node m new ex ≡ ok tt
    → is_port_mode new.mode ≡ true
    → PortAdmitted u node m new ex
unfolding check_entry
check_entry-port u node m new ex h p = record {
  positive = ground arith;
  in_user = ground arith;
  in_node = λ q. ground arith;
  unused = check_ports-ok new ex m (ground arith);
}

check_entry-domain :
    (u : User) (node : Node) (m : Dict Tunnel) (new : Tunnel) (ex : Text)
    → check_entry u node m new ex ≡ ok tt
    → is_port_mode new.mode ≡ false
    → (0 < length new.domains) × All (DomainAdmitted u node m new.mode ex) new.domains
unfolding check_entry
check_entry-domain u node m new ex h p =
    (ground arith, check_domains-ok u node m new.mode ex new.domains (ground arith))

-- Everything that a successful validation has established.
pub record Admitted (db : Database) (new : Tunnel) (ex : Text) : Type 0 where
  pub user : User
  pub user_found : lookup new.user_name db.users ≡ some user
  pub user_enabled : user.enabled ≡ true
  pub node : Node
  pub node_found : lookup new.node_id db.nodes ≡ some node
  pub node_enabled : node.enabled ≡ true
  pub nps_enabled : node.nps_enabled ≡ true
  pub named : (new.user_name == []) ≡ false
  pub engine : (new.engine == engine_nps) ≡ true
  pub mode : (is_port_mode new.mode || is_domain_mode new.mode) ≡ true
  pub local_low : pos 1 ≤ℤ new.local_port
  pub local_high : new.local_port ≤ℤ pos 65535
  pub port_entry : is_port_mode new.mode ≡ true → PortAdmitted user node db.tunnels new ex
  pub domain_entry :
      is_port_mode new.mode ≡ false
      → (0 < length new.domains) × All (DomainAdmitted user node db.tunnels new.mode ex) new.domains
  pub quota :
      ltb_ℤ (pos 0) user.max_ports ≡ true
      → ltb_ℤ (pos (count_user_tunnels db.tunnels new.user_name ex)) user.max_ports ≡ true

module _ (db : Database) (new : Tunnel) (ex : Text) (h : validate_tunnel db new ex ≡ ok tt) where
  admitted-user : (u : User) × (lookup new.user_name db.users ≡ some u) × (u.enabled ≡ true)
  unfolding validate_tunnel
  admitted-user = elim (Option-cases (lookup new.user_name db.users)) [
    | inl missing ↦ absurd (ground arith)
    | inr (u, found) ↦ (u, found, ground arith)
  ]

  admitted-node :
      (n : Node) × (lookup new.node_id db.nodes ≡ some n)
      × (n.enabled ≡ true)
      × (n.nps_enabled ≡ true)
  unfolding validate_tunnel
  admitted-node = elim (Option-cases (lookup new.node_id db.nodes)) [
    | inl missing ↦ absurd (ground arith)
    | inr (n, found) ↦ (n, found, ground arith, ground arith)
  ]

  admitted-entry :
      (u : User) (n : Node)
      → lookup new.user_name db.users ≡ some u
      → lookup new.node_id db.nodes ≡ some n
      → check_entry u n db.tunnels new ex ≡ ok tt
  unfolding validate_tunnel
  admitted-entry u n found placed = ground arith

  admitted-quota :
      (u : User)
      → lookup new.user_name db.users ≡ some u
      → ltb_ℤ (pos 0) u.max_ports ≡ true
      → ltb_ℤ (pos (count_user_tunnels db.tunnels new.user_name ex)) u.max_ports ≡ true
  unfolding validate_tunnel
  admitted-quota u found limited = ground arith

  admitted-mode : (is_port_mode new.mode || is_domain_mode new.mode) ≡ true
  unfolding validate_tunnel
  admitted-mode = ground arith

  admitted-engine : (new.engine == engine_nps) ≡ true
  unfolding validate_tunnel
  admitted-engine = ground arith

  admitted-named : (new.user_name == []) ≡ false
  unfolding validate_tunnel
  admitted-named = ground arith

  admitted-local : (pos 1 ≤ℤ new.local_port) × (new.local_port ≤ℤ pos 65535)
  unfolding validate_tunnel
  admitted-local = (ground arith, ground arith)

  -- A tunnel that validateTunnelLocked lets through has an enabled owner and an enabled node with
  -- NPS, a known mode, a local port, an entry (port or domains) that lies in the pools of both and
  -- that no other tunnel has, and its owner is below the quota.
  pub validate-Admitted : Admitted db new ex
  validate-Admitted =
      let (u, found, on) = admitted-user in
      let (n, placed, up, nps) = admitted-node in
      let entry = admitted-entry u n found placed in
      record {
        user = u;
        user_found = found;
        user_enabled = on;
        node = n;
        node_found = placed;
        node_enabled = up;
        nps_enabled = nps;
        named = admitted-named;
        engine = admitted-engine;
        mode = admitted-mode;
        local_low = admitted-local.0;
        local_high = admitted-local.1;
        port_entry = check_entry-port u n db.tunnels new ex entry;
        domain_entry = check_entry-domain u n db.tunnels new ex entry;
        quota = admitted-quota u found;
      }
