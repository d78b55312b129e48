-- ===== src/Store/Tunnels.antt =====
-- ListTunnels, CreateTunnel, UpdateTunnel and DeleteTunnel.
pub mod Admission
pub mod Created
pub mod Updated
pub mod Listing
use cosmo_nps.Base.{
  ℕ, Bool, true, false, not, ◌&&◌, ◌||◌, Option, none, some, List, [], ◌∷◌, ◌++◌, ℤ, pos, Result,
  ok, err, ◌>>=◌, ◌>>◌, refuse, if◌then◌else◌, ltb_ℤ, take,
}
use cosmo_nps.Text.{Text, str, ◌==◌}
use cosmo_nps.Text.Scan.{trim_space, to_lower}
use cosmo_nps.Text.Split.{join}
use cosmo_nps.Text.Decimal.{itoa}
use cosmo_nps.Text.Order.{sort_by}
use cosmo_nps.Dict.{Dict, lookup, insert, delete}
use cosmo_nps.Core.Domain.{normalize_domains}
use cosmo_nps.Core.Env.{Env, random_secret}
use cosmo_nps.Core.Model.{Tunnel, default_node_id}
use cosmo_nps.Store.Base.{
  StoreError, tunnel_id_required, tunnel_not_found, tunnel_exists, tunnel_id_changed, Store,
  Outcome, saving, checked, with_tunnels, normalize_id, domain_error,
}
use cosmo_nps.Store.Rules.{is_domain_mode, validate_tunnel}

-- The tunnels of a user, or all for an empty name, in the order of their ids.
select : Text → Dict Tunnel → List Tunnel
select user_name [] = []
select user_name ((_, t) ∷ m) =
    let rest = select user_name m in
    if not (user_name == []) && not (t.user_name == user_name) then rest else t ∷ rest

unfoldable pub list_tunnels : Store → Text → List Tunnel
unfolding select
list_tunnels s user_name = sort_by (λ t. t.id) (select user_name s.tunnels)

unfoldable pub next_tunnel_id : Env → Text → Text → Text → Text → ℤ → Text
next_tunnel_id env user_name node_id engine mode port =
    let prefix =
      if not (node_id == []) && not (node_id == default_node_id)
      then join b'-' (user_name ∷ node_id ∷ engine ∷ mode ∷ [])
      else join b'-' (user_name ∷ engine ∷ mode ∷ []) in
    if ltb_ℤ (pos 0) port
    then prefix ++ (b'-' ∷ itoa port)
    else prefix ++ (b'-' ∷ take 8 (random_secret env 0))

-- the lines of CreateTunnel and UpdateTunnel before the lock
unfoldable pub prepare_tunnel : Tunnel → Result StoreError Tunnel
prepare_tunnel new = do
  let node_id = normalize_id new.node_id
  let mode = to_lower (trim_space new.mode)
  domains ← domain_error (normalize_domains new.domains)
  ok (record new {
    node_id = if node_id == [] then default_node_id else node_id;
    mode = mode;
    engine = to_lower (trim_space new.engine);
    local_ip = if new.local_ip == [] then str "127.0.0.1" else new.local_ip;
    domains = if is_domain_mode mode then domains else [];
    remote_port = if is_domain_mode mode then pos 0 else new.remote_port;
  })

-- the id that a new tunnel gets
unfoldable pub assign_id : Env → Tunnel → Tunnel
assign_id env new =
    if new.id == []
    then record new {
      id = next_tunnel_id env new.user_name new.node_id new.engine new.mode new.remote_port;
    }
    else new

abbrev pub is_some {ℓ} : {A : Type ℓ} → Option A → Bool
is_some none = false
is_some (some _) = true

-- the last test of CreateTunnel and the times
unfoldable pub stamp_new : Env → Store → Tunnel → Result StoreError Tunnel
stamp_new env s named = do
  refuse (is_some (lookup named.id s.tunnels)) (tunnel_exists named.id)
  ok (record named { created_at = env.now; updated_at = env.now })

-- the lines of CreateTunnel under the lock, up to the write
unfoldable pub admit_prepared : Env → Store → Tunnel → Result StoreError Tunnel
admit_prepared env s prepared =
    validate_tunnel s.db prepared [] >> stamp_new env s (assign_id env prepared)

-- the tests of CreateTunnel; the tunnel that is stored
unfoldable pub admit_tunnel : Env → Store → Tunnel → Result StoreError Tunnel
admit_tunnel env s new = prepare_tunnel new >>= admit_prepared env s

unfoldable pub create_tunnel : Env → Tunnel → Store → Outcome Tunnel
create_tunnel env new s =
    checked (admit_tunnel env s new) (λ t. saving env (with_tunnels s (insert t.id t s.tunnels)) t)
      s

abbrev pub found_tunnel : Option Tunnel → Text → Result StoreError Tunnel
found_tunnel none id = err (tunnel_not_found id)
found_tunnel (some t) id = ok t

-- an empty id stands for the id of the path
unfoldable pub adopt_id : Text → Tunnel → Tunnel
adopt_id id new = if new.id == [] then record new { id = id } else new

-- the lines of UpdateTunnel behind the lookup of the stored tunnel
unfoldable pub admit_changed : Env → Store → Text → Tunnel → Tunnel → Result StoreError Tunnel
admit_changed env s id prepared existing = do
  let named = adopt_id id prepared
  refuse (not (named.id == id)) tunnel_id_changed
  validate_tunnel s.db named id
  ok (record named { created_at = existing.created_at; updated_at = env.now })

-- the tests of UpdateTunnel
unfoldable pub admit_update : Env → Store → Text → Tunnel → Result StoreError Tunnel
admit_update env s id new = do
  prepared ← prepare_tunnel new
  refuse (id == []) tunnel_id_required
  existing ← found_tunnel (lookup id s.tunnels) id
  admit_changed env s id prepared existing

unfoldable pub update_tunnel : Env → Text → Tunnel → Store → Outcome Tunnel
update_tunnel env id new s =
    checked (admit_update env s id new) (λ t. saving env (with_tunnels s (insert id t s.tunnels)) t)
      s

unfoldable pub delete_tunnel : Env → Text → Store → Outcome Unit
delete_tunnel env id s =
    checked (refuse (id == []) tunnel_id_required)
      (λ _. saving env (with_tunnels s (delete id s.tunnels)) tt) s
