-- ===== src/Control/Sessions.antt =====
-- The session table, the authorisation of a request, and the handlers of login, logout and password
-- (cmd/tunnel-control/main.go).
pub mod Access
pub mod Passwords
use cosmo_nps.Base.{
  ℕ, Bool, true, false, not, ◌&&◌, ◌||◌, Option, none, some, List, [], ◌∷◌, Result, ok, err,
  if◌then◌else◌,
}
use cosmo_nps.Text.{Text, str, ◌==◌}
use cosmo_nps.Text.Scan.{has_prefix}
use cosmo_nps.Text.Hex.{hex_encode}
use cosmo_nps.Dict.{Dict, lookup, insert, delete}
use cosmo_nps.Core.Port.{PortError}
use cosmo_nps.Core.Domain.{DomainError}
use cosmo_nps.Core.Env.{Env}
use cosmo_nps.Core.Model.{User, PublicUser, public, role_admin}
use cosmo_nps.Store.Base.{Store, StoreError, Outcome}
use cosmo_nps.Store.Users.{get_user, verify_login, set_password}

-- the part of apiServer that the handlers change
pub record Server : Type 0 where
  pub store : Store
  pub sessions : Dict Text

-- why a request is refused
pub data ApiError : Type 0 where
  bad_body bad_login login_required admin_required new_password_required : ApiError
  other_user wrong_password bad_token unknown_node not_found other_tunnel : ApiError
  store_error : StoreError → ApiError
  sync_failed : ApiError
  bad_ports : PortError → ApiError
  bad_domains : DomainError → ApiError
  bad_time : Text → ApiError
  node_required user_not_found own_config_only bad_limit : ApiError

abbrev pub Reply : Type 0 → Type 0
Reply A = Result ApiError A × Server

-- the reply to a store's method, which has left `store`
unfoldable pub replying : {A : Type 0} → Server → Outcome A → Reply A
replying a (r, store) =
    (elim r [ ok x ↦ ok x | err e ↦ err (store_error e) ], record a { store = store })

-- randomToken() from the i-th random bytes
unfoldable pub random_token : Env → ℕ → Text
random_token env i = elim (env.random i) [ some bytes ↦ hex_encode bytes | none ↦ [] ]

-- sessions.create, sessions.get and sessions.delete
unfoldable pub create_session : Text → Text → Dict Text → Dict Text
create_session token user sessions = insert token user sessions

unfoldable pub get_session : Text → Dict Text → Option Text
get_session token sessions = lookup token sessions

unfoldable pub delete_session : Text → Dict Text → Dict Text
delete_session token sessions = delete token sessions

abbrev pub enabled_only : Option User → Option User
enabled_only none = none
enabled_only (some u) = if u.enabled then some u else none

abbrev pub session_user : Store → Option Text → Option User
session_user s none = none
session_user s (some name) = enabled_only (get_user s name)

-- currentUser with the value of the request's cookie; none where it answers false
unfoldable pub current_user : Server → Option Text → Option User
current_user a none = none
current_user a (some token) =
    if token == [] then none else session_user a.store (get_session token a.sessions)

unfoldable pub is_open : Text → Bool
is_open path =
    not (has_prefix path (str "/api/"))
    || (path == str "/api/login" || has_prefix path (str "/api/agent/"))

-- what the next handler finds in the request's context
unfoldable pub auth_middleware : Server → Text → Option Text → Result ApiError (Option User)
auth_middleware a path cookie =
    if is_open path
    then ok none
    else elim (current_user a cookie) [ some u ↦ ok (some u) | none ↦ err login_required ]

unfoldable pub is_admin : Option User → Bool
is_admin none = false
is_admin (some u) = u.role == role_admin

-- The handlers take the decoded body, none if it does not decode. The reply of a login holds the
-- token of the cookie.
unfoldable pub login : Env → Option (Text × Text) → Server → Reply (Text × PublicUser)
login env none a = (err bad_body, a)
login env (some (name, password)) a =
    let (found, store) = verify_login env name password a.store in
    elim found [
      | none ↦ (err bad_login, record a { store = store })
      | some u ↦
          let token = random_token env 1 in
          (
            ok (token, public u),
            record { store = store; sessions = create_session token u.name a.sessions },
          )
    ]

unfoldable pub logout : Option Text → Server → Server
logout none a = a
logout (some token) a = record a { sessions = delete_session token a.sessions }

pub record PasswordChange : Type 0 where
  pub name : Text
  pub old_password : Text
  pub new_password : Text

abbrev pub target_name : User → PasswordChange → Text
target_name current change = if change.name == [] then current.name else change.name

-- behind the check of the old password: what VerifyLogin answered, and the store that it left
abbrev pub set_checked : Env → Text → Text → Server → Option User × Store → Reply Unit
set_checked env target password a (none, store) = (err wrong_password, record a { store = store })
set_checked env target password a (some _, store) =
    replying a (set_password env target password store)

-- `env2` is the outside of SetPassword
unfoldable pub change_password : Env → Env → User → Option PasswordChange → Server → Reply Unit
change_password env env2 current none a = (err bad_body, a)
change_password env env2 current (some change) a =
    let target = target_name current change in
    if change.new_password == []
    then (err new_password_required, a)
    else if is_admin (some current)
    then replying a (set_password env2 target change.new_password a.store)
    else if not (target == current.name)
    then (err other_user, a)
    else set_checked env2 target change.new_password a
        (verify_login env current.name change.old_password a.store)
