-- ===== src/Tests/Servers.antt =====
-- Tests of the control server.
use cosmo_nps.Text.Hex.{hex_encode}
use cosmo_nps.Base.{
  negsuc, sym, ap, ◌∙◌, ◌-ℤ◌, ◌≡◌, ◌≢◌, ◌⊎◌, refl, ok, [], ◌∷◌, pos, none, some, true, false,
  if◌then◌else◌,
}
use cosmo_nps.Text.{str, ◌==◌, eq_iff}
use cosmo_nps.Text.Scan.{has_prefix}
use cosmo_nps.Core.Secret.{hash_password, verify_password}
use cosmo_nps.Dict.{lookup}
use cosmo_nps.Dict.Laws.{Distinct}
use cosmo_nps.Core.Model.{User, public, role_admin}
use cosmo_nps.Store.Base.{Store, saving}
use cosmo_nps.Store.Users.{
  get_user, verify_login, set_password, has_admin, delete_user, ensure_admin, count_admins,
  is_enabled_admin, upgrade_login,
}
use cosmo_nps.Store.Users.Admins.{
  delete_user-has_admin, ensure_admin-has_admin, enforce_user_expiry-count_admins,
}
use cosmo_nps.Store.Users.Expiry.{enforce_user_expiry, sweep, visit_user, is_stale, expire}
use cosmo_nps.Store.Users.Expiry.Enforced.{IsEnforced, enforce_user_expiry-IsEnforced}
use cosmo_nps.Control.Sessions.{
  is_admin, target_name, Server, auth_middleware, is_open, logout, login, current_user,
  PasswordChange, change_password, get_session, random_token,
}
use cosmo_nps.Control.Sessions.Access.{
  SignedIn, auth_middleware-guarded, logout-current_user, login-current_user,
}
use cosmo_nps.Control.Sessions.Passwords.{change_password-only_target, set_password-verify_login}
use cosmo_nps.Control.Log.{LogBuffer, new_log_buffer, add_chunk, list}
use cosmo_nps.Control.Log.Numbered.{IsNumbered, new_log_buffer-IsNumbered, add_chunk-IsNumbered}
use cosmo_nps.Control.Log.Selection.{list_lem, last, hits}
use cosmo_nps.Tests.Data.{outside, alice, shop, byte_sum-AreBytes}

alice_found : lookup (str "alice") shop.users ≡ some alice
unfolding lookup ◌==◌ str
alice_found = refl

alice_ne : str "alice" ≢ []
unfolding str
alice_ne = λ e. cc

new_ne : str "new" ≢ []
unfolding str
new_ne = λ e. cc

root_ne : str "root" ≢ []
unfolding str
root_ne = λ e. cc

pw_ne : str "pw" ≢ []
unfolding str
pw_ne = λ e. cc

-- two admins and no one else
abbrev team_of_two : Store
team_of_two = record shop {
  db = record shop.db {
    users =
        (str "root", record alice { name = str "root"; role = role_admin })
        ∷ (str "boss", record alice { name = str "boss"; role = role_admin })
        ∷ [];
  };
}

two-Distinct : Distinct team_of_two.users
unfolding str ◌==◌
two-Distinct = ((λ e. cc ((eq_iff (str "boss") (str "root")).1 e), tt), (tt, tt))

two_have_admin : has_admin team_of_two.users ≡ true
unfolding has_admin is_enabled_admin ◌==◌ str
two_have_admin = refl

set_password-verify_login_example :
    (v : User) × ((verify_login outside
        (str "alice")
        (str "new")
        (set_password outside (str "alice") (str "new") shop).1).0
      ≡ some v)
    × (v.name ≡ alice.name)
set_password-verify_login_example =
    set_password-verify_login outside outside (str "alice") (str "new") alice shop byte_sum-AreBytes
      refl alice_found refl alice_ne new_ne

add_chunk-IsNumbered_example :
    IsNumbered
      (add_chunk (λ i. pos i) (str "process") (str "one\ntwo\nthree") (new_log_buffer (pos 2)))
add_chunk-IsNumbered_example =
    add_chunk-IsNumbered (λ i. pos i) (str "process") (str "one\ntwo\nthree")
      (new_log_buffer (pos 2)) (new_log_buffer-IsNumbered (pos 2))

-- the buffer after three lines and a part
abbrev lines : LogBuffer
lines =
    add_chunk (λ i. pos i) (str "process") (str "one\ntwo\nthree\nrest") (new_log_buffer (pos 2))

list_lem_example :
    (list (pos 1) (str " T") lines ≡ last 1 (hits (str " T") lines))
    × (list (pos 0) (str " T") lines ≡ hits (str " T") lines)
    × (list (negsuc 0) (str " T") lines ≡ hits (str " T") lines)
list_lem_example =
    list_lem 0 (str " T") lines
      (add_chunk-IsNumbered (λ i. pos i) (str "process") (str "one\ntwo\nthree\nrest")
        (new_log_buffer (pos 2)) (new_log_buffer-IsNumbered (pos 2))).bounded

delete_user-has_admin_example :
    has_admin (delete_user outside (str "root") team_of_two).1.users ≡ true
delete_user-has_admin_example =
    delete_user-has_admin outside (str "root") team_of_two two-Distinct two_have_admin

ensure_admin-has_admin_example :
    has_admin (ensure_admin outside (str "root") (str "pw") shop).1.users ≡ true
ensure_admin-has_admin_example =
    ensure_admin-has_admin outside (str "root") (str "pw") shop root_ne pw_ne

enforce_user_expiry-count_admins_example :
    count_admins (enforce_user_expiry outside (pos 2000) (pos 60) team_of_two).1.users
    ≡ count_admins team_of_two.users
enforce_user_expiry-count_admins_example =
    enforce_user_expiry-count_admins outside (pos 2000) (pos 60) team_of_two

-- alice's date has passed
abbrev late : Store
late = record shop {
  db = record shop.db { users = (str "alice", record alice { expires_at = pos 1500 }) ∷ [] };
}

abbrev late_alice : User
late_alice = record alice {
  expires_at = pos 1500;
  enabled = false;
  expired_at = pos 2000;
  updated_at = pos 2000;
}

late_found :
    lookup (str "alice") (enforce_user_expiry outside (pos 2000) (pos 60) late).1.users
    ≡ some late_alice
unfolding enforce_user_expiry lookup sweep visit_user ◌==◌ str is_stale expire ◌-ℤ◌ saving
late_found = refl

alice_no_admin : (late_alice.role == role_admin) ≡ false
unfolding str ◌==◌
alice_no_admin = refl

enforce_user_expiry-IsEnforced_example : IsEnforced (pos 2000) (pos 2000 -ℤ pos 60) late_alice
enforce_user_expiry-IsEnforced_example =
    enforce_user_expiry-IsEnforced outside (pos 2000) (pos 60) late (str "alice") late_alice
      (tt, tt) late_found (record { no_admin = alice_no_admin; dated = refl })

abbrev desk : Server
desk = record { store = shop; sessions = (str "cookie", str "alice") ∷ [] }

alice_comes : auth_middleware desk (str "/api/me") (some (str "cookie")) ≡ ok (some alice)
unfolding auth_middleware is_open has_prefix str ◌==◌ current_user get_session lookup get_user
alice_comes = refl

auth_middleware-guarded_example :
    (is_open (str "/api/me") ≡ true)
    ⊎ ((u : User) × (some alice ≡ some u) × SignedIn desk (some (str "cookie")) u)
auth_middleware-guarded_example =
    auth_middleware-guarded desk (str "/api/me") (some (str "cookie")) (some alice) alice_comes

logout-current_user_example :
    current_user (logout (some (str "cookie")) desk) (some (str "cookie"))
    ≡ (if str "cookie" == str "cookie" then none else current_user desk (some (str "cookie")))
logout-current_user_example = logout-current_user desk (str "cookie") (str "cookie")

abbrev wish : PasswordChange
wish = record { name = str "root"; old_password = str "secret"; new_password = str "new" }

alice_other :
    ((if is_admin (some alice) then target_name alice wish else alice.name) == str "root") ≡ false
unfolding str ◌==◌ is_admin
alice_other = refl

change_password-only_target_example :
    lookup (str "root") (change_password outside outside alice (some wish) desk).1.store.users
    ≡ lookup (str "root") desk.store.users
change_password-only_target_example =
    change_password-only_target outside outside alice wish desk (str "root") alice_other

-- alice after her first login
abbrev hashed_alice : User
hashed_alice = record alice {
  password = [];
  password_hash = hash_password outside 0 (str "secret");
  updated_at = pos 1000;
}

alice_logs_in :
    (login outside (some (str "alice", str "secret")) desk).0 ≡ ok (str "02ab", public hashed_alice)
unfolding login verify_login lookup ◌==◌ str verify_password upgrade_login random_token hex_encode
alice_logs_in = refl

token_ne : str "02ab" ≢ []
unfolding str
token_ne = λ e. cc

alice_named : (u : User) → lookup (str "alice") shop.users ≡ some u → u.name ≡ str "alice"
alice_named u found =
    let same : some alice ≡ some u = sym alice_found ∙ found in
    let is : alice ≡ u = cc same in ap (λ (x : User). x.name) (sym is)

login-current_user_example :
    (u : User) × (current_user
        (login outside (some (str "alice", str "secret")) desk).1
        (some (str "02ab"))
      ≡ some u)
    × (public u ≡ public hashed_alice)
login-current_user_example =
    login-current_user outside (str "alice") (str "secret") (str "02ab") (public hashed_alice) desk
      alice_named alice_logs_in token_ne
