-- ===== src/Store/Base.antt =====
-- The store, its errors and saveLocked.
use cosmo_nps.Base.{none, some, Result, ok, err, ℤ}
use cosmo_nps.Text.{Text}
use cosmo_nps.Text.Scan.{trim_space, to_lower}
use cosmo_nps.Dict.{Dict}
use cosmo_nps.Core.Domain.{DomainError}
use cosmo_nps.Core.Env.{Env, File, saved}
use cosmo_nps.Core.Model.{User, Node, Tunnel, Database}

pub data StoreError : Type 0 where
  admin_name_required admin_password_required user_name_required password_required : StoreError
  node_id_required tunnel_id_required default_node bad_role last_admin save_failed : StoreError
  user_not_found node_not_found tunnel_not_found : Text → StoreError
  node_in_use : Text → Text → StoreError
  bad_domain : DomainError → StoreError
  tunnel_exists : Text → StoreError
  tunnel_id_changed : StoreError
  -- validateTunnelLocked
  no_user_name bad_engine no_mode bad_mode no_local_port no_remote_port no_domain : StoreError
  node_disabled nps_disabled user_disabled : Text → StoreError
  port_outside_user port_outside_node : ℤ → StoreError
  port_used : ℤ → Text → StoreError
  domain_outside_user domain_outside_node : Text → StoreError
  domain_used : Text → Text → StoreError
  too_many_tunnels : Text → StoreError
  -- load
  read_failed bad_json : StoreError

pub record Store : Type 0 where
  pub db : Database
  pub open db use {users, nodes, tunnels}
  pub file : File

abbrev pub Outcome : Type 0 → Type 0
Outcome A = Result StoreError A × Store

-- the memory is as it was left, whether or not the file could be written
unfoldable pub save_locked : Env → Store → Outcome Unit
save_locked env s = elim env.write [
  | none ↦ (ok tt, record s { file = saved s.db })
  | some left ↦ (err save_failed, record s { file = left })
]

-- `if err := s.saveLocked(); err != nil { return zero, err }; return a, nil`. The memory stays
-- changed when the save fails.
unfoldable pub saving : Env → Store → {A : Type 0} → A → Outcome A
unfolding save_locked
saving env s a = let (r, s') = save_locked env s in (elim r [ ok _ ↦ ok a | err e ↦ err e ], s')

-- the tests that stand before the first change
abbrev pub checked : {A B : Type 0} → Result StoreError A → (A → Outcome B) → Store → Outcome B
checked (ok a) k s = k a
checked (err e) k s = (err e, s)

abbrev pub with_users : Store → Dict User → Store
with_users s users = record s { db = record s.db { users = users } }

abbrev pub with_nodes : Store → Dict Node → Store
with_nodes s nodes = record s { db = record s.db { nodes = nodes } }

abbrev pub with_tunnels : Store → Dict Tunnel → Store
with_tunnels s tunnels = record s { db = record s.db { tunnels = tunnels } }

-- normalizeID(input)
unfoldable pub normalize_id : Text → Text
normalize_id input = to_lower (trim_space input)

-- NormalizeDomains under the store's error
abbrev pub domain_error : {A : Type 0} → Result DomainError A → Result StoreError A
domain_error (ok a) = ok a
domain_error (err e) = err (bad_domain e)
