-- ===== src/Tests/Stores.antt =====
-- Tests of the store.
use cosmo_nps.Text.Split.{join, split}
use cosmo_nps.Text.Hex.{hex_digit, hex_encode}
use cosmo_nps.Text.Decimal.{decimal, digits, is_digit, itoa, value}
use cosmo_nps.Base.{◌↔◌, ◌≡◌, refl, ok, [], ◌∷◌, pos, List}
use cosmo_nps.Text.{str, ◌==◌}
use cosmo_nps.Text.Scan.{
  trim_space, to_lower, before_any, contains_byte, has_prefix, has_suffix, is_space, lower_byte,
  strip_prefix, trim_left, trim_prefix, trim_suffix,
}
use cosmo_nps.Dict.{lookup, insert}
use cosmo_nps.Core.Env.{absent, saved, random_secret}
use cosmo_nps.Core.Model.{Tunnel, engine_nps}
use cosmo_nps.Core.Port.{port_in_ranges, range_contains}
use cosmo_nps.Core.Domain.{
  normalize_domains, accept_domain, domain_in_pools, member, normalize_domain, strip_domain,
  validate_domain,
}
use cosmo_nps.Store.Base.{saving, Store, save_locked, normalize_id}
use cosmo_nps.Store.Rules.{
  validate_tunnel, is_port_mode, check_entry, check_ports, port_clash, tunnel_node_id,
  count_user_tunnels, check_domain_free, check_domains, domain_clash, is_domain_mode,
  port_transport,
}
use cosmo_nps.Store.Rules.Exact.{Admissible, validate_tunnel_iff}
use cosmo_nps.Store.Tunnels.{
  create_tunnel, update_tunnel, admit_tunnel, admit_update, next_tunnel_id, admit_prepared,
  assign_id, prepare_tunnel, stamp_new, admit_changed, adopt_id,
}
use cosmo_nps.Store.Tunnels.Created.{IsCreated, create_tunnel-IsCreated}
use cosmo_nps.Store.Tunnels.Updated.{IsUpdated, update_tunnel-IsUpdated}
use cosmo_nps.Store.Load.{
  new_store, local_node, load, migrate_default_node, migrate_legacy_passwords, rewrite, give_token,
}
use cosmo_nps.Store.Load.Fresh.{lone, new_store-fresh}
use cosmo_nps.Store.Load.Reopen.{FillsSecrets, new_store-reopen}
use cosmo_nps.Store.Invariant.{WellFormed}
use cosmo_nps.Store.Invariant.Runs.{
  Call, ensures_admin, upserts_user, creates_tunnel, updates_tunnel, deletes_node, enforces_expiry,
  deletes_user, run, run-WellFormed,
}
use cosmo_nps.Core.Env.{Env}
use cosmo_nps.Tests.Data.{outside, shop, team, web, alice}

validate_tunnel_iff_example : (validate_tunnel team web [] ≡ ok tt) ↔ Admissible team web []
validate_tunnel_iff_example = validate_tunnel_iff team web []

-- the tunnel as it is stored, at 16 clock units after 1984
abbrev new_web : Tunnel
new_web = record web {
  id = next_tunnel_id outside (str "alice") (str "local") engine_nps (str "tcp") (pos 8001);
  created_at = pos 1000;
  updated_at = pos 1000;
}

abbrev moved_web : Tunnel
moved_web = record web { id = str "w"; created_at = pos 0; updated_at = pos 1000 }

web_created : (create_tunnel outside web shop).0 ≡ ok new_web
unfolding create_tunnel saving admit_tunnel prepare_tunnel normalize_domains admit_prepared
    validate_tunnel ◌==◌ str to_lower trim_space lookup normalize_id is_port_mode check_entry
    is_domain_mode port_in_ranges check_ports port_clash accept_domain domain_in_pools member
    normalize_domain strip_domain validate_domain random_secret range_contains insert save_locked
    check_domain_free check_domains count_user_tunnels domain_clash port_transport tunnel_node_id
    assign_id next_tunnel_id stamp_new decimal digits is_digit itoa value hex_digit hex_encode
    before_any contains_byte has_prefix has_suffix is_space lower_byte strip_prefix trim_left
    trim_prefix trim_suffix join split
web_created = refl

web_moves : (update_tunnel outside (str "w") web shop).0 ≡ ok moved_web
unfolding update_tunnel saving admit_update prepare_tunnel normalize_domains ◌==◌ str lookup
    admit_changed adopt_id validate_tunnel to_lower trim_space normalize_id is_port_mode check_entry
    is_domain_mode port_in_ranges check_ports port_clash count_user_tunnels
web_moves = refl

abbrev pub lone_shop : Store
lone_shop = let db = lone (local_node outside) in record { db = db; file = saved db }

create_tunnel-IsCreated_example :
    IsCreated outside shop (create_tunnel outside web shop).1 web new_web
create_tunnel-IsCreated_example = create_tunnel-IsCreated outside shop web new_web web_created

update_tunnel-IsUpdated_example :
    IsUpdated outside shop (update_tunnel outside (str "w") web shop).1 (str "w") web moved_web
update_tunnel-IsUpdated_example =
    update_tunnel-IsUpdated outside shop (str "w") web moved_web web_moves

opens_fresh : new_store outside outside absent ≡ ok lone_shop
unfolding new_store load migrate_default_node lookup save_locked migrate_legacy_passwords rewrite
    insert local_node give_token ◌==◌ random_secret hex_encode
opens_fresh = refl

new_store-fresh_example : WellFormed lone_shop.db
new_store-fresh_example = new_store-fresh outside outside lone_shop opens_fresh

-- an admin, a user and a tunnel, then changes of each
abbrev day : List (Env × Call)
day =
    (outside, ensures_admin (str "root") (str "pw"))
    ∷ (outside, upserts_user alice)
    ∷ (outside, creates_tunnel web)
    ∷ (outside, updates_tunnel (str "alice-nps-tcp-8001") (record web { remote_port = pos 8003 }))
    ∷ (outside, deletes_node (str "local"))
    ∷ (outside, enforces_expiry (pos 2000) (pos 60))
    ∷ (outside, deletes_user (str "root"))
    ∷ []

pub lone_shop-WellFormed : WellFormed lone_shop.db
lone_shop-WellFormed = new_store-fresh outside outside lone_shop opens_fresh

run-WellFormed_example : WellFormed (run day lone_shop).db
run-WellFormed_example = run-WellFormed day lone_shop lone_shop-WellFormed

outside-FillsSecrets : FillsSecrets outside
outside-FillsSecrets i bytes h = λ e. cc (h, e)

new_store-reopen_example :
    new_store outside outside (saved lone_shop.db)
    ≡ ok (record { db = lone_shop.db; file = saved lone_shop.db })
new_store-reopen_example =
    new_store-reopen outside outside outside outside absent lone_shop outside-FillsSecrets
      opens_fresh
