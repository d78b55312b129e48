-- ===== src/Integrated/Frp.antt =====
-- SyncFRPState (internal/integrated/engines.go): the users of the frp service are brought in line with
-- the store's. The service is a parameter.
use cosmo_nps.Base.{
  Bool, true, not, ◌&&◌, ◌||◌, List, [], ◌∷◌, Result, ok, err, if◌then◌else◌, ℤ, pos, eqb_ℤ, map,
}
use cosmo_nps.Text.{Text, ◌==◌}
use cosmo_nps.Core.Port.{PortRange}
use cosmo_nps.Core.Domain.{member}
use cosmo_nps.Core.Model.{User}
use cosmo_nps.Integrated.Sync.{and_then}

-- frptypes.PortsRange
pub record PortsRange : Type 0 where
  pub start : ℤ
  pub end : ℤ
  pub single : ℤ

unfoldable pub to_frp_range : PortRange → PortsRange
to_frp_range r =
    if eqb_ℤ r.start r.end
    then record { start = pos 0; end = pos 0; single = r.start }
    else record { start = r.start; end = r.end; single = pos 0 }

-- frpuserstore.User
pub record FrpUser : Type 0 where
  pub name : Text
  pub token : Text
  pub role : Text
  pub enabled : Bool
  pub allow_ports : List PortsRange
  pub domains : List Text
  pub max_ports : ℤ

-- The user store of the service on its state `S`, and the role that its admins have. An error is its
-- text; `is_up` is false where there is no service.
pub record Frp (S : Type 0) : Type 1 where
  pub is_up : S → Bool
  pub role_admin : Text
  pub upsert_user : FrpUser → S → Result Text (Unit {0}) × S
  pub list_users : S → Result Text (List FrpUser)
  pub delete_user : Text → S → Result Text (Unit {0}) × S

unfoldable pub is_frp_user : User → Bool
is_frp_user u = u.enabled && not (u.frp_token == [])

unfoldable pub frp_user : User → FrpUser
frp_user u = record {
  name = u.name;
  token = u.frp_token;
  role = u.role;
  enabled = true;
  allow_ports = map to_frp_range u.port_pools;
  domains = u.domain_pools;
  max_ports = u.max_ports;
}

unfoldable pub frp_names : List User → List Text
frp_names [] = []
frp_names (u ∷ us) = let rest = frp_names us in if is_frp_user u then u.name ∷ rest else rest

module _ {S : Type 0} (frp : Frp S) where
  unfoldable pub put_users : List User → S → Result Text (Unit {0}) × S
  put_users [] s = (ok tt, s)
  put_users (u ∷ us) s =
      if is_frp_user u
      then and_then (frp.upsert_user (frp_user u) s) (λ _. put_users us)
      else put_users us s

  unfoldable pub drop_users : List Text → List FrpUser → S → Result Text (Unit {0}) × S
  drop_users desired [] s = (ok tt, s)
  drop_users desired (u ∷ us) s =
      if member u.name desired || u.role == frp.role_admin
      then drop_users desired us s
      else and_then (frp.delete_user u.name s) (λ _. drop_users desired us)

  unfoldable pub sync_frp_state : List User → S → Result Text (Unit {0}) × S
  sync_frp_state users s =
      if frp.is_up s
      then and_then (put_users users s) (λ _ s1. elim (frp.list_users s1) [
        | err e ↦ (err e, s1)
        | ok existing ↦ drop_users (frp_names users) existing s1
      ])
      else (ok tt, s)
