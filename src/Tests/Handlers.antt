-- ===== src/Tests/Handlers.antt =====
-- The handlers of users, nodes, bundles, client programs and availability on the test store.
use cosmo_nps.Store.Base.{normalize_id}
use cosmo_nps.Text.Scan.{to_lower, trim_prefix, trim_space}
use cosmo_nps.Base.{
  ◌≡◌, ◌≢◌, ◌↔◌, ◌⊎◌, refl, true, false, none, some, [], ◌∷◌, ok, err, pos, All, Memᴰ,
}
use cosmo_nps.Text.{str, ◌==◌}
use cosmo_nps.Dict.{lookup, values}
use cosmo_nps.Core.Model.{PublicUser, public, zero_runtime, engine_nps}
use cosmo_nps.Store.Users.{get_user}
use cosmo_nps.Store.Nodes.{list_nodes, get_node}
use cosmo_nps.Control.Sessions.{Server, admin_required, is_admin}
use cosmo_nps.Control.Traffic.{Meters}
use cosmo_nps.Control.Usage.{or_default}
use cosmo_nps.Control.Users.{
  upsert_user_handler, delete_user_handler, user_action, list_users_handler,
}
use cosmo_nps.Control.Nodes.{
  bundle_for_node, agent_bundle, upsert_node_handler, delete_node_handler, list_nodes_handler,
  admit_agent,
}
use cosmo_nps.Control.Nodes.Bundle.{IsDelivery, agent_bundle-IsDelivery}
use cosmo_nps.Control.Guarded.{IsShown, plain_user-shut_out}
use cosmo_nps.Control.Bootstrap.{response_for, client_bootstrap, bootstrap_name, node_by_id}
use cosmo_nps.Control.Bootstrap.Groups.{Listed, IsOpen}
use cosmo_nps.Control.Bootstrap.Exact.{client_bootstrap-exact}
use cosmo_nps.Control.Clients.{ClientStatus, zero_client, build_status}
use cosmo_nps.Control.Probe.{Net, probe_tunnel_entry, dialled, probe_tcp_entry}
use cosmo_nps.Control.Availability.{
  TunnelAvailability, check_availability, client_status_for_tunnel, is_for, best_for, choose,
  summarize,
}
use cosmo_nps.Control.Availability.Reachable.{check_availability-ok}
use cosmo_nps.Tests.Data.{outside, alice, home, web, shop}

abbrev panel : Server
panel = record { store = shop; sessions = [] }

abbrev quiet : Meters
quiet = record { store = shop; tunnel_traffic = []; user_traffic = [] }

alice_plain : is_admin (some alice) ≡ false
unfolding is_admin ◌==◌ str
alice_plain = refl

plain_user-shut_out_example :
    (upsert_user_handler (λ _ _. none) outside true alice none panel ≡ (err admin_required, panel))
    × (delete_user_handler outside true alice (str "/api/users/root") panel
        ≡ (err admin_required, panel))
    × (user_action outside alice (str "/api/users/root") quiet ≡ (err admin_required, quiet))
    × (upsert_node_handler outside alice none panel ≡ (err admin_required, panel))
    × (delete_node_handler outside alice (str "/api/users/root") panel
        ≡ (err admin_required, panel))
    × ((u : PublicUser) × (list_users_handler alice quiet ≡ u ∷ []) × (u.name ≡ str "alice"))
    × All IsShown (list_nodes_handler alice shop)
plain_user-shut_out_example =
    plain_user-shut_out alice alice_plain (λ _ _. none) outside true (str "/api/users/root") none
      none panel quiet

agent_gets :
    agent_bundle (pos 7) (str "local") (str "Bearer t") shop
    ≡ ok (bundle_for_node (pos 7) shop home)
unfolding agent_bundle ◌==◌ trim_space str admit_agent get_node lookup normalize_id to_lower
    trim_prefix
agent_gets = refl

agent_bundle-IsDelivery_example :
    IsDelivery (str "local") (str "Bearer t") shop web alice (bundle_for_node (pos 7) shop home)
agent_bundle-IsDelivery_example =
    agent_bundle-IsDelivery (pos 7) (str "local") (str "Bearer t") shop
      (bundle_for_node (pos 7) shop home) web alice agent_gets

alice_found : get_user shop (bootstrap_name alice (str "root")) ≡ some alice
unfolding get_user lookup ◌==◌ str bootstrap_name is_admin
alice_found = refl

alice_ne : alice.name ≢ []
unfolding str
alice_ne = λ e. cc

client_bootstrap-exact_example :
    (client_bootstrap (pos 7) zero_runtime alice (str "root") shop
      ≡ ok (response_for (pos 7) zero_runtime shop alice))
    × (((response_for (pos 7) zero_runtime shop alice).user ≡ public alice)
        × ((response_for (pos 7) zero_runtime shop alice).frp_token ≡ alice.frp_token)
        × ((response_for (pos 7) zero_runtime shop alice).nps_verify_key ≡ alice.nps_verify_key))
    × (Listed web (response_for (pos 7) zero_runtime shop alice).nodes ↔ (
        (Memᴰ web (values shop.tunnels) × (web.user_name ≡ alice.name))
        × (true ≡ true)
        × IsOpen (lookup (or_default web.node_id) (node_by_id (list_nodes shop) []))))
    × ((bootstrap_name alice (str "root") ≡ alice.name) ⊎ (is_admin (some alice) ≡ true))
client_bootstrap-exact_example =
    client_bootstrap-exact (pos 7) zero_runtime alice (str "root") shop alice alice_found refl
      alice_ne web

-- a network where every port answers
abbrev lively : Net
lively = record {
  split_host_port = λ _. none;
  join_host_port = λ host _. host;
  dial = λ _. (ok tt, pos 3);
  request = λ _. ok tt;
  get = λ _ _. (ok (pos 200), pos 3);
  now = str "now";
}

abbrev client : ClientStatus
client = record zero_client { user_name = str "alice"; engine = engine_nps; online = true }

abbrev shown : TunnelAvailability
shown =
    check_availability lively web (client_status_for_tunnel (λ _. []) web (client ∷ []))
      zero_runtime

web_ok : shown.state ≡ str "ok"
unfolding str check_availability summarize ◌==◌ probe_tunnel_entry probe_tcp_entry dialled
    client_status_for_tunnel build_status best_for choose is_for
web_ok = refl

web_owner_ne : web.user_name ≢ []
unfolding str
web_owner_ne = λ e. cc

check_availability-ok_example : (shown.state ≡ str "ok") ↔ (
    (web.enabled ≡ true)
    × ((c : ClientStatus) × Memᴰ c (client ∷ []) × (is_for web c ≡ true) × (c.online ≡ true))
    × ((probe_tunnel_entry lively web zero_runtime).state ≡ str "ok"))
check_availability-ok_example =
    check_availability-ok web web_owner_ne (λ _. []) lively (client ∷ []) zero_runtime
