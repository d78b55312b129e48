-- ===== src/Tests/Reports.antt =====
-- Tests of the control server on a store that was opened without a file.
use cosmo_nps.Store.Load.{local_node}
use cosmo_nps.Core.Port.{port_in_ranges, range_contains}
use cosmo_nps.Store.Rules.{
  check_domain_free, check_domains, check_entry, check_ports, count_user_tunnels, domain_clash,
  is_domain_mode, is_port_mode, port_clash, port_transport, tunnel_node_id, validate_tunnel,
}
use cosmo_nps.Text.Hex.{hex_digit, hex_encode}
use cosmo_nps.Text.Decimal.{decimal, digits, is_digit, itoa, value}
use cosmo_nps.Core.Env.{random_secret}
use cosmo_nps.Text.Split.{join, split}
use cosmo_nps.Text.Scan.{
  before_any, contains_byte, has_prefix, has_suffix, is_space, lower_byte, strip_prefix, to_lower,
  trim_left, trim_prefix, trim_space, trim_suffix,
}
use cosmo_nps.Core.Domain.{
  accept_domain, member, normalize_domain, normalize_domains, strip_domain, validate_domain,
  domain_in_pools,
}
use cosmo_nps.Base.{
  inl, subst, sym, arith, ◌↔◌, ◌<ℤ◌, ◌≡◌, ◌≢◌, ◌⊎◌, refl, ok, [], ◌∷◌, pos, some, true, false, ℤ,
}
use cosmo_nps.Text.{Text, str, ◌==◌, eq_iff}
use cosmo_nps.Dict.{lookup, insert}
use cosmo_nps.Core.Secret.{hash_password, password_digest}
use cosmo_nps.Core.Model.{User, Node, Tunnel, public}
use cosmo_nps.Store.Base.{Store, save_locked, saving, normalize_id}
use cosmo_nps.Store.Users.{get_user, upsert_user, prepare_user, merge_user, settle_expiry}
use cosmo_nps.Store.Tunnels.{
  create_tunnel, admit_prepared, admit_tunnel, assign_id, next_tunnel_id, prepare_tunnel, stamp_new,
}
use cosmo_nps.Store.Nodes.{get_node}
use cosmo_nps.Store.Invariant.{WellFormed}
use cosmo_nps.Store.Invariant.UserSteps.{upsert_user-WellFormed}
use cosmo_nps.Store.Invariant.TunnelSteps.{create_tunnel-WellFormed}
use cosmo_nps.Control.Sessions.{Server, is_admin}
use cosmo_nps.Control.Traffic.{Meters, TrafficReport, report_traffic, bearer, charge}
use cosmo_nps.Control.Traffic.Counted.{Reaches}
use cosmo_nps.Store.Rules.Exact.{Fits}
use cosmo_nps.Control.Traffic.Quota.{report_traffic-guarded, IsCharged, charge-IsCharged}
use cosmo_nps.Control.Tunnels.{create_handler, update_handler, delete_handler}
use cosmo_nps.Control.Tunnels.Isolation.{tunnel_handlers-keep_foreign}
use cosmo_nps.Store.Tunnels.{list_tunnels}
use cosmo_nps.Store.Rules.{validate_tunnel}
use cosmo_nps.Control.Usage.{resource_usage}
use cosmo_nps.Control.Usage.Quota.{resource_usage-quota}
use cosmo_nps.Tests.Data.{outside, alice, web}
use cosmo_nps.Tests.Stores.{lone_shop, lone_shop-WellFormed}

-- alice with a limit of 1 GiB
abbrev metered : User
metered = record alice { flow_limit = pos 1 }

abbrev with_alice : Store
with_alice = (upsert_user outside metered lone_shop).1

with_alice-WellFormed : WellFormed with_alice.db
with_alice-WellFormed = upsert_user-WellFormed outside lone_shop lone_shop-WellFormed metered

abbrev stored_alice : User
stored_alice = record metered {
  password = [];
  password_hash = hash_password outside 0 (str "secret");
  frp_token = str "02ab";
  nps_verify_key = str "03ab";
  created_at = pos 1000;
  updated_at = pos 1000;
}

alice_stored : get_user with_alice (str "alice") ≡ some stored_alice
unfolding get_user lookup upsert_user prepare_user ◌==◌ str normalize_domains normalize_domain
    accept_domain strip_domain trim_suffix before_any trim_prefix trim_space to_lower has_prefix
    validate_domain split member random_secret public hash_password password_digest insert
    save_locked saving merge_user settle_expiry decimal digits is_digit itoa value hex_digit
    hex_encode contains_byte has_suffix is_space lower_byte strip_prefix trim_left join
alice_stored = refl

abbrev gib : ℤ
gib = pos 1073741824

abbrev accepted_alice : User
accepted_alice = record stored_alice { domain_pools = str "*.example.com" ∷ [] }

alice_accepted : prepare_user stored_alice ≡ ok accepted_alice
unfolding prepare_user ◌==◌ str normalize_domains normalize_domain accept_domain strip_domain
    trim_suffix before_any trim_prefix trim_space to_lower has_prefix validate_domain split
    has_suffix
alice_accepted = refl

charge-IsCharged_example :
    ((v : User) × (lookup
          (str "alice")
          (charge outside (str "alice") (pos 0) gib with_alice).1.users
        ≡ some v)
      × IsCharged outside stored_alice v 1073741824 1)
    × (((charge outside (str "alice") (pos 0) gib with_alice).0 ≡ true)
        ↔ (Reaches 1073741824 1 × (stored_alice.enabled ≡ true)))
    × ((other : Text)
        → (str "alice" ≡ other)
          ⊎ (lookup other (charge outside (str "alice") (pos 0) gib with_alice).1.users
              ≡ lookup other with_alice.users))
charge-IsCharged_example =
    charge-IsCharged outside (str "alice") 0 0 1073741824 1 with_alice stored_alice accepted_alice
      with_alice-WellFormed alice_stored alice_accepted refl refl (omega arith) (omega arith)
      (omega arith)

abbrev with_web : Store
with_web = (create_tunnel outside web with_alice).1

with_web-WellFormed : WellFormed with_web.db
with_web-WellFormed = create_tunnel-WellFormed outside with_alice with_alice-WellFormed web

abbrev stored_web : Tunnel
stored_web = record web {
  id = str "alice-nps-tcp-8001";
  created_at = pos 1000;
  updated_at = pos 1000;
}

web_stored : lookup (str "alice-nps-tcp-8001") with_web.tunnels ≡ some stored_web
unfolding lookup create_tunnel admit_tunnel prepare_tunnel normalize_domains admit_prepared
    validate_tunnel ◌==◌ str to_lower trim_space upsert_user prepare_user normalize_domain
    accept_domain strip_domain trim_suffix before_any domain_in_pools member validate_domain
    random_secret public port_in_ranges range_contains hash_password password_digest insert
    normalize_id save_locked saving check_domain_free check_domains check_entry check_ports
    count_user_tunnels domain_clash is_domain_mode is_port_mode port_clash port_transport
    tunnel_node_id assign_id next_tunnel_id stamp_new merge_user settle_expiry decimal digits
    is_digit itoa value hex_digit hex_encode contains_byte has_prefix has_suffix is_space lower_byte
    strip_prefix trim_left trim_prefix join split local_node
web_stored = refl

abbrev bob : User
bob = record alice { name = str "bob" }

bob_plain : is_admin (some bob) ≡ false
unfolding is_admin ◌==◌ str
bob_plain = refl

bob_ne : str "bob" ≢ []
unfolding str
bob_ne = λ e. cc

not_bob : str "alice" ≢ str "bob"
unfolding str ◌==◌
not_bob = λ e. cc ((eq_iff (str "alice") (str "bob")).1 e)

abbrev desk : Server
desk = record { store = with_web; sessions = [] }

tunnel_handlers-keep_foreign_example :
    (lookup
        (str "alice-nps-tcp-8001")
        (create_handler outside true bob (some web) desk).1.store.tunnels
      ≡ some stored_web)
    × (lookup
          (str "alice-nps-tcp-8001")
          (update_handler outside true bob
            (str "/api/tunnels/alice-nps-tcp-8001")
            (some web)
            desk).1.store.tunnels
        ≡ some stored_web)
    × (lookup
          (str "alice-nps-tcp-8001")
          (delete_handler outside true bob
            (str "/api/tunnels/alice-nps-tcp-8001")
            desk).1.store.tunnels
        ≡ some stored_web)
tunnel_handlers-keep_foreign_example =
    tunnel_handlers-keep_foreign outside true bob desk with_web-WellFormed bob_plain bob_ne
      (str "alice-nps-tcp-8001") stored_web web_stored not_bob
      (str "/api/tunnels/alice-nps-tcp-8001") (some web)

abbrev meters : Meters
meters = record { store = with_alice; tunnel_traffic = []; user_traffic = [] }

abbrev report : TrafficReport
report = record {
  node_id = str "local";
  tunnels = [];
  users = record { item = str "alice"; inlet_flow = pos 10; export_flow = gib } ∷ [];
}

report_traffic-guarded_example :
    ((r : TrafficReport) × (node : Node) × (some report ≡ some r)
      × (get_node with_alice r.node_id ≡ some node)
      × (node.token ≡ bearer (str "Bearer 01ab"))
      × (bearer (str "Bearer 01ab") ≢ []))
    ⊎ ((report_traffic
          (λ b t. b)
          (λ i. outside)
          (pos 1500)
          (str "Bearer 01ab")
          (some report)
          meters).1
        ≡ meters)
report_traffic-guarded_example =
    report_traffic-guarded (λ b t. b) (λ i. outside) (pos 1500) (str "Bearer 01ab") (some report)
      meters

web-Fits_alone : Fits [] stored_alice (local_node outside) web []
unfolding is_port_mode ◌==◌ str local_node
web-Fits_alone = record {
  user_enabled = refl;
  node_enabled = refl;
  nps_enabled = refl;
  named = λ e. cc;
  engine = refl;
  local_low = omega arith;
  local_high = omega arith;
  entry = inl (record {
    mode = refl;
    positive = omega arith;
    in_user = inl (omega arith, omega arith);
    in_node = tt;
    free = tt;
  });
}

no_tunnels : with_alice.tunnels ≡ []
unfolding lookup upsert_user prepare_user ◌==◌ str normalize_domains normalize_domain accept_domain
    strip_domain trim_suffix before_any trim_prefix trim_space to_lower has_prefix validate_domain
    split has_suffix member random_secret public hash_password password_digest insert save_locked
    saving merge_user settle_expiry decimal digits is_digit itoa value hex_digit hex_encode
    contains_byte is_space lower_byte strip_prefix trim_left join
no_tunnels = refl

web-Fits : Fits with_alice.tunnels stored_alice (local_node outside) web []
web-Fits =
    subst (λ m. Fits m stored_alice (local_node outside) web []) (sym no_tunnels) web-Fits_alone

local_there : lookup (str "local") with_alice.nodes ≡ some (local_node outside)
unfolding lookup upsert_user prepare_user ◌==◌ str normalize_domains normalize_domain accept_domain
    strip_domain trim_suffix before_any trim_prefix trim_space to_lower has_prefix validate_domain
    split has_suffix member random_secret public hash_password password_digest insert save_locked
    saving merge_user settle_expiry decimal digits is_digit itoa value hex_digit hex_encode
    contains_byte is_space lower_byte strip_prefix trim_left join
local_there = refl

alice_there : lookup (str "alice") with_alice.users ≡ some stored_alice
alice_there = unfold get_user in alice_stored

resource_usage-quota_example :
    (validate_tunnel with_alice.db web [] ≡ ok tt)
    ↔ (pos 0 <ℤ (resource_usage (list_tunnels with_alice []) stored_alice).tunnel_free)
resource_usage-quota_example =
    resource_usage-quota with_alice web stored_alice (local_node outside) with_alice-WellFormed
      alice_there local_there web-Fits (omega arith)
