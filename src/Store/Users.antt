-- ===== src/Store/Users.antt =====
-- EnsureAdmin, ListUsers, GetUser, VerifyLogin, SetPassword, Users, UpsertUser, DeleteUser and
-- ResetUserFlow.
pub mod Expiry
pub mod Admins
use cosmo_nps.Base.{
  ℕ, suc, Bool, true, false, not, ◌&&◌, ◌||◌, Option, none, some, List, [], ◌∷◌, map, ℤ, pos,
  Result, ok, err, ◌>>=◌, ◌>>◌, refuse, if◌then◌else◌, leb,
}
use cosmo_nps.Text.{Text, ◌==◌}
use cosmo_nps.Text.Order.{sort_by}
use cosmo_nps.Dict.{Dict, lookup, insert, delete, values}
use cosmo_nps.Core.Domain.{normalize_domains}
use cosmo_nps.Core.Env.{Env, random_secret}
use cosmo_nps.Core.Model.{
  User, PublicUser, Tunnel, zero_user, zero_time, is_zero, after, role_admin, role_user, public,
}
use cosmo_nps.Core.Secret.{hash_password, verify_password}
use cosmo_nps.Store.Base.{
  StoreError, admin_name_required, admin_password_required, user_name_required, password_required,
  bad_role, last_admin, user_not_found, Store, Outcome, saving, save_locked, checked, with_users,
  with_tunnels, domain_error,
}

unfoldable pub is_enabled_admin : User → Bool
is_enabled_admin u = u.role == role_admin && u.enabled

unfoldable pub count_admins : Dict User → ℕ
count_admins [] = 0
count_admins ((_, u) ∷ m) =
    let rest = count_admins m in if is_enabled_admin u then suc rest else rest

-- the loop of EnsureAdmin
unfoldable pub has_admin : Dict User → Bool
has_admin [] = false
has_admin ((_, u) ∷ m) = is_enabled_admin u || has_admin m

unfoldable pub first_admin : Env → Text → Text → User
first_admin env name password = record zero_user {
  name = name;
  password_hash = hash_password env 0 password;
  role = role_admin;
  enabled = true;
  frp_token = random_secret env 1;
  nps_verify_key = random_secret env 2;
  created_at = env.now;
  updated_at = env.now;
}

unfoldable pub ensure_admin : Env → Text → Text → Store → Outcome Bool
ensure_admin env name password s =
    checked
      (refuse (name == []) admin_name_required >> refuse (password == []) admin_password_required)
      (λ _.
        if has_admin s.users
        then (ok false, s)
        else saving env (with_users s (insert name (first_admin env name password) s.users)) true)
      s

unfoldable pub list_users : Store → List PublicUser
list_users s = sort_by (λ u. u.name) (map public (values s.users))

-- Users()
unfoldable pub all_users : Store → List User
all_users s = sort_by (λ u. u.name) (values s.users)

unfoldable pub get_user : Store → Text → Option User
get_user s name = lookup name s.users

-- the migration of VerifyLogin; a failing save is ignored
unfoldable pub upgrade_login : Env → Text → Text → User → Store → Option User × Store
upgrade_login env name password u s =
    if u.password == []
    then (some u, s)
    else let hashed = record u {
      password_hash = hash_password env 0 password;
      password = [];
      updated_at = env.now;
    } in
      (some hashed, (save_locked env (with_users s (insert name hashed s.users))).1)

unfoldable pub verify_login : Env → Text → Text → Store → Option User × Store
verify_login env name password s = elim (lookup name s.users) [
  | none ↦ (none, s)
  | some u ↦
      if not u.enabled || not (verify_password env u password)
      then (none, s)
      else upgrade_login env name password u s
]

abbrev pub found_user : Option User → Text → Result StoreError User
found_user none name = err (user_not_found name)
found_user (some u) name = ok u

unfoldable pub set_password : Env → Text → Text → Store → Outcome Unit
set_password env name password s =
    checked
      (refuse (name == []) user_name_required
        >> (refuse (password == []) password_required >> found_user (lookup name s.users) name))
      (λ u.
        let changed = record u {
          password = [];
          password_hash = hash_password env 0 password;
          updated_at = env.now;
        } in
        saving env (with_users s (insert name changed s.users)) tt)
      s

-- the lines of UpsertUser before the lock
unfoldable pub prepare_user : User → Result StoreError User
prepare_user new = do
  refuse (new.name == []) user_name_required
  let role = if new.role == [] then role_user else new.role
  refuse (not (role == role_admin) && not (role == role_user)) bad_role
  domains ← domain_error (normalize_domains new.domain_pools)
  ok (record new { role = role; domain_pools = domains })

abbrev pub user_or_new : Env → Text → Option User → User
user_or_new env name none = record zero_user { name = name; enabled = true; created_at = env.now }
user_or_new env name (some u) = u

-- the given secret, or the stored one, or a new one
abbrev pub choose_secret : Env → ℕ → Text → Text → Text
choose_secret env draw new old =
    if not (new == []) then new else if old == [] then random_secret env draw else old

-- the assignments of UpsertUser before the expiry
unfoldable pub merge_user : Env → User → User → User
merge_user env new old = record old {
  role = new.role;
  enabled = new.enabled;
  port_pools = new.port_pools;
  domain_pools = new.domain_pools;
  max_ports = new.max_ports;
  password = if new.password == [] then old.password else [];
  password_hash =
      if new.password == [] then old.password_hash else hash_password env 0 new.password;
  frp_token = choose_secret env 1 new.frp_token old.frp_token;
  nps_verify_key = choose_secret env 2 new.nps_verify_key old.nps_verify_key;
  rate_limit = new.rate_limit;
  flow_limit = new.flow_limit;
  flow_used = new.flow_used;
  expires_at = new.expires_at;
  updated_at = env.now;
}

-- the `if` on `in.ExpiresAt` of UpsertUser
unfoldable pub settle_expiry : Env → User → User
settle_expiry env u =
    if is_zero u.expires_at || after u.expires_at env.now
    then record u { expired_at = zero_time }
    else if not (u.role == role_admin)
    then record u {
      enabled = false;
      expired_at = if is_zero u.expired_at then env.now else u.expired_at;
    }
    else u

unfoldable pub upsert_user : Env → User → Store → Outcome PublicUser
upsert_user env new s =
    checked (prepare_user new)
      (λ n.
        let old = user_or_new env n.name (lookup n.name s.users) in
        let u = settle_expiry env (merge_user env n old) in
        saving env (with_users s (insert n.name u s.users)) (public u))
      s

-- `for id, t := range s.db.Tunnels { if t.UserName == name { delete(s.db.Tunnels, id) } }`
unfoldable pub drop_tunnels : Text → Dict Tunnel → Dict Tunnel
drop_tunnels name [] = []
drop_tunnels name ((id, t) ∷ m) =
    let rest = drop_tunnels name m in if t.user_name == name then rest else (id, t) ∷ rest

-- the users and tunnels without the user
abbrev pub remove_user : Text → Store → Store
remove_user name s = with_users (with_tunnels s (drop_tunnels name s.tunnels)) (delete name s.users)

unfoldable pub delete_user : Env → Text → Store → Outcome Unit
delete_user env name s =
    checked (refuse (name == []) user_name_required)
      (λ _. elim (lookup name s.users) [
        | none ↦ (ok tt, s)
        | some u ↦
            checked (refuse (u.role == role_admin && leb (count_admins s.users) 1) last_admin)
              (λ _. saving env (remove_user name s) tt) s
      ])
      s

unfoldable pub reset_user_flow : Env → Text → Store → Outcome Unit
reset_user_flow env name s =
    checked (refuse (name == []) user_name_required >> found_user (lookup name s.users) name)
      (λ u.
        let changed = record u { flow_used = pos 0; updated_at = env.now } in
        saving env (with_users s (insert name changed s.users)) tt)
      s
