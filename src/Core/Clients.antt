-- ===== src/Core/Clients.antt =====
-- The NPS client export and the client's command line (internal/core/adapters.go). The JSON text of a
-- client and the calendar form of a time are parameters: encoding/json and package time give them.
pub mod Numbered
use cosmo_nps.Base.{
  ℕ, suc, Bool, true, false, not, ◌&&◌, ◌||◌, List, [], ◌∷◌, ◌++◌, Result, ok, err, if◌then◌else◌,
  ℤ, pos,
}
use cosmo_nps.Text.{Text, str, ◌==◌}
use cosmo_nps.Text.Decimal.{itoa}
use cosmo_nps.Text.Order.{sort_by}
use cosmo_nps.Core.Port.{format_port_ranges}
use cosmo_nps.Core.Model.{User, RuntimeConfig, Time, with_defaults}

-- The fields of npsClient but those that are empty, zero or false in every client, which `marshal`
-- writes too.
pub record NpsClient : Type 0 where
  pub id : ℕ
  pub verify_key : Text
  pub remark : Text
  pub status : Bool
  pub now_rate : ℤ
  pub web_user_name : Text
  pub port_pool : Text
  pub config_conn_allow : Bool
  pub max_tunnel_num : ℤ
  pub create_time : Text

-- none where the user has no key; the error names the user
unfoldable pub render_npc_command : User → RuntimeConfig → Result Text Text
render_npc_command u given =
    let cfg = with_defaults given in
    if u.nps_verify_key == []
    then err u.name
    else ok (
        str "./npc -server="
        ++ (cfg.server_addr
            ++ (b':' ∷ (itoa cfg.nps_server_port ++ (str " -vkey=" ++ u.nps_verify_key)))))

unfoldable pub is_exported : User → Bool
is_exported u = u.enabled && not (u.nps_verify_key == [])

module _ (format_time : Time → Text) where
  unfoldable pub nps_client : ℕ → User → NpsClient
  nps_client id u = record {
    id = id;
    verify_key = u.nps_verify_key;
    remark = u.name;
    status = true;
    now_rate = pos 17179869184;
    web_user_name = u.name;
    port_pool = format_port_ranges u.port_pools;
    config_conn_allow = true;
    max_tunnel_num = u.max_ports;
    create_time = format_time u.created_at;
  }

  -- the loop over the sorted users, with the last number given
  unfoldable pub nps_clients : ℕ → List User → List NpsClient
  nps_clients id [] = []
  nps_clients id (u ∷ us) =
      let skipped = nps_clients id us in
      let taken = nps_client (suc id) u ∷ nps_clients (suc id) us in
      if is_exported u then taken else skipped

  module _ (marshal : NpsClient → Text) where
    unfoldable pub write_clients : List NpsClient → Text
    write_clients [] = []
    write_clients (c ∷ cs) = marshal c ++ (str "\n*#*\n" ++ write_clients cs)

    unfoldable pub export_nps_clients : List User → Text
    export_nps_clients users = write_clients (nps_clients 1 (sort_by (λ u. u.name) users))
