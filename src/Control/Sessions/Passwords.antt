-- ===== src/Control/Sessions/Passwords.antt =====
-- Passwords and the accounts that a change of password touches.
use cosmo_nps.Base.{
  ◌≡◌, ◌≢◌, refl, ◌∙◌, ap, true, false, not, ◌||◌, Option, ℕ, List, [], none, some, refuse, ◌>>◌,
  arith, inl, inr, Bool-cases, Option-cases, if◌then◌else◌,
}
use cosmo_nps.Text.{Text, ◌==◌, eq_iff, eq_refl}
use cosmo_nps.Dict.{lookup}
use cosmo_nps.Dict.Laws.{lookup-insert}
use cosmo_nps.Core.Env.{Env}
use cosmo_nps.Text.Hex.{AreBytes}
use cosmo_nps.Core.Model.{User}
use cosmo_nps.Core.Secret.{verify_password, hash_password}
use cosmo_nps.Core.Secret.RoundTrip.{verify-hash_password_self}
use cosmo_nps.Store.Base.{Store, user_name_required, password_required}
use cosmo_nps.Store.Users.{verify_login, upgrade_login, set_password, found_user}
use cosmo_nps.Store.Invariant.{db-save_locked, db-saving, checked-keeps}
use cosmo_nps.Control.Sessions.{
  Server, PasswordChange, target_name, set_checked, change_password, is_admin, replying,
}

-- VerifyLogin changes no other user
lookup-upgrade_login :
    (env : Env) (name password k : Text) (u : User) (s : Store)
    → (name == k) ≡ false
    → lookup k (upgrade_login env name password u s).1.users ≡ lookup k s.users
unfolding upgrade_login
lookup-upgrade_login env name password k u s other = elim (Bool-cases (u.password == [])) [
  | inl hashed ↦ rw hashed refl
  | inr legacy ↦ rw (legacy, db-save_locked, lookup-insert, other) refl
]

lookup-verify_login :
    (env : Env) (name password k : Text) (s : Store)
    → (name == k) ≡ false
    → lookup k (verify_login env name password s).1.users ≡ lookup k s.users
unfolding verify_login
lookup-verify_login env name password k s other = elim (Option-cases (lookup name s.users)) [
  | inl missing ↦ rw (missing, verify_login) refl
  | inr (u, found) ↦ elim (Bool-cases (not u.enabled || not (verify_password env u password))) [
    | inl refused ↦ rw (found, verify_login, refused) refl
    | inr accepted ↦
        rw (found, verify_login, accepted) (lookup-upgrade_login env name password k u s other)
  ]
]

lookup-set_password :
    (env : Env) (name password k : Text) (s : Store)
    → (name == k) ≡ false
    → lookup k (set_password env name password s).1.users ≡ lookup k s.users
unfolding set_password
lookup-set_password env name password k s other =
    checked-keeps (λ db. lookup k db.users ≡ lookup k s.users)
      (refuse (name == []) user_name_required
        >> (refuse (password == []) password_required >> found_user (lookup name s.users) name))
      _ s refl λ u _. rw (db-saving, lookup-insert, other) refl

lookup-behind_check :
    (env : Env) (target password : Text) (a : Server) (k : Text) (checked : Option User × Store)
    → (target == k) ≡ false
    → lookup k checked.1.users ≡ lookup k a.store.users
    → lookup k (set_checked env target password a checked).1.store.users ≡ lookup k a.store.users
unfolding replying
lookup-behind_check env target password a k (none, store) other h = h
lookup-behind_check env target password a k (some _, store) other h =
    lookup-set_password env target password k store other ∙ h

lookup-set_checked :
    (env env2 : Env) (current : User) (change : PasswordChange) (a : Server) (k : Text)
    → target_name current change ≡ current.name
    → (current.name == k) ≡ false
    → lookup k
        (set_checked env2
          (target_name current change)
          change.new_password
          a
          (verify_login env current.name change.old_password a.store)).1.store.users
      ≡ lookup k a.store.users
lookup-set_checked env env2 current change a k own other =
    lookup-behind_check env2 (target_name current change) change.new_password a k _
      (ap (λ t. t == k) own ∙ other)
      (lookup-verify_login env current.name change.old_password k a.store other)

-- changePassword leaves every account alone but that of the target, and for a user who is no admin,
-- every account but the user's own, whatever the request names.
pub change_password-only_target :
    (env env2 : Env) (current : User) (change : PasswordChange) (a : Server) (k : Text)
    → ((if is_admin (some current) then target_name current change else current.name) == k) ≡ false
    → lookup k (change_password env env2 current (some change) a).1.store.users
      ≡ lookup k a.store.users
unfolding change_password replying
change_password-only_target env env2 current change a k other =
    elim (Bool-cases (change.new_password == [])) [
      | inl blank ↦ rw blank refl
      | inr given ↦ elim (Bool-cases (is_admin (some current))) [
        | inl admin ↦
            rw (given, admin)
              (lookup-set_password env2 (target_name current change) change.new_password k a.store
                (rw admin at other))
        | inr plain ↦ elim (Bool-cases (target_name current change == current.name)) [
          | inr foreign ↦ rw (given, plain, foreign) refl
          | inl own ↦
              rw (given, plain, own)
                (lookup-set_checked env env2 current change a k
                  ((eq_iff (target_name current change) current.name).0 own) (rw plain at other))
        ]
      ]
    ]

-- the record that SetPassword stores
abbrev with_password : Env → Text → User → User
with_password env password u = record u {
  password = [];
  password_hash = hash_password env 0 password;
  updated_at = env.now;
}

set_password-stored :
    (env : Env) (name password : Text) (u : User) (s : Store)
    → lookup name s.users ≡ some u
    → name ≢ []
    → password ≢ []
    → lookup name (set_password env name password s).1.users ≡ some (with_password env password u)
unfolding set_password
set_password-stored env name password u s found named given =
    let name_ne : (name == []) ≡ false = ground (arith, eq_iff name []) in
    let password_ne : (password == []) ≡ false = ground (arith, eq_iff password []) in
    rw (name_ne, password_ne, found, db-saving, lookup-insert, eq_refl) refl

-- A password, not empty, that SetPassword stores for a stored user with a name is accepted by the
-- next login of the user, if the user is enabled and SHA-256 returns bytes and is the same function
-- both times.
pub set_password-verify_login :
    (env env2 : Env) (name password : Text) (u : User) (s : Store)
    → ((bs : List ℕ) → AreBytes (env.sha256 bs))
    → env2.sha256 ≡ env.sha256
    → lookup name s.users ≡ some u
    → u.enabled ≡ true
    → name ≢ []
    → password ≢ []
    → (v : User) × ((verify_login env2 name password (set_password env name password s).1).0
        ≡ some v)
      × (v.name ≡ u.name)
unfolding verify_login upgrade_login verify_password hash_password ◌==◌
set_password-verify_login env env2 name password u s sums same found on named given =
    let stored = set_password-stored env name password u s found named given in
    let accepted =
      verify-hash_password_self env env2 0 password (with_password env password u) sums same refl in
    (
      with_password env password u,
      rw (stored, verify_login, on, accepted, upgrade_login) refl,
      refl,
    )
