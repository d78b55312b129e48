-- ===== src/Store/Invariant/UserSteps.antt =====
-- EnsureAdmin, VerifyLogin, SetPassword, UpsertUser, DeleteUser and ResetUserFlow keep the invariant.
use cosmo_nps.Base.{
  ◌≡◌, refl, ◌∙◌, ap, true, not, ◌&&◌, Option, none, some, [], ok, arith, inl, inr, Bool-cases,
  Option-cases, refuse, refuse-eq-ok, ok-injective, ◌>>◌, leb, ◌||◌, pos,
}
use cosmo_nps.Text.{Text, ◌==◌}
use cosmo_nps.Dict.{lookup}
use cosmo_nps.Core.Env.{Env}
use cosmo_nps.Core.Model.{User, Database, role_admin, public}
use cosmo_nps.Core.Secret.{verify_password, hash_password}
use cosmo_nps.Store.Base.{
  user_name_required, password_required, admin_name_required, admin_password_required, last_admin,
  Store, saving, checked,
}
use cosmo_nps.Store.Users.{
  first_admin, has_admin, ensure_admin, upgrade_login, verify_login, found_user, set_password,
  prepare_user, user_or_new, merge_user, settle_expiry, upsert_user, remove_user, count_admins,
  delete_user, reset_user_flow,
}
use cosmo_nps.Store.Invariant.{WellFormed, checked-keeps, saving-WellFormed, db-save_locked}
use cosmo_nps.Store.Invariant.Users.{insert_user-WellFormed, remove_user-WellFormed}

user_or_new-name :
    (env : Env) (name : Text) (db : Database)
    → WellFormed db
    → (user_or_new env name (lookup name db.users)).name ≡ name
user_or_new-name env name db wf = elim (Option-cases (lookup name db.users)) [
  | inl new ↦ rw new
  | inr (u, old) ↦ rw old (wf.users_named name u old)
]

-- the expiry changes neither name nor key
name-settle_expiry : (env : Env) (u : User) → (settle_expiry env u).name ≡ u.name
unfolding settle_expiry
name-settle_expiry env u = ground arith

pub found_user-ok :
    (o : Option User) (name : Text) (u : User) → found_user o name ≡ ok u → o ≡ some u
found_user-ok none name u h = absurd (cc h)
found_user-ok (some v) name u h = ap some (ok-injective h)

module _ (env : Env) (s : Store) (wf : WellFormed s.db) where
  pub ensure_admin-WellFormed :
      (name password : Text) → WellFormed (ensure_admin env name password s).1.db
  unfolding ensure_admin first_admin
  ensure_admin-WellFormed name password =
      checked-keeps WellFormed
        (refuse (name == []) admin_name_required >> refuse (password == []) admin_password_required)
        _ s wf
        λ _ _. elim (Bool-cases (has_admin s.users)) [
          | inl there ↦ rw there wf
          | inr none_yet ↦ rw none_yet (
              saving-WellFormed env _ true
                (insert_user-WellFormed s.db name (first_admin env name password) refl wf))
        ]

  upgrade_login-WellFormed :
      (name password : Text) (u : User)
      → lookup name s.users ≡ some u
      → WellFormed (upgrade_login env name password u s).1.db
  unfolding upgrade_login
  upgrade_login-WellFormed name password u found = elim (Bool-cases (u.password == [])) [
    | inl hashed ↦ rw hashed wf
    | inr legacy ↦
        rw (legacy, db-save_locked env _)
          (insert_user-WellFormed s.db name _ (wf.users_named name u found) wf)
  ]

  pub verify_login-WellFormed :
      (name password : Text) → WellFormed (verify_login env name password s).1.db
  unfolding verify_login
  verify_login-WellFormed name password = elim (Option-cases (lookup name s.users)) [
    | inl missing ↦ rw (missing, verify_login) wf
    | inr (u, found) ↦
        rw (found, verify_login)
          (elim (Bool-cases (not u.enabled || not (verify_password env u password))) [
            | inl refused ↦ rw refused wf
            | inr accepted ↦ rw accepted (upgrade_login-WellFormed name password u found)
          ])
  ]

  pub set_password-WellFormed :
      (name password : Text) → WellFormed (set_password env name password s).1.db
  unfolding set_password
  set_password-WellFormed name password =
      checked-keeps WellFormed
        (refuse (name == []) user_name_required
          >> (refuse (password == []) password_required >> found_user (lookup name s.users) name))
        _ s wf
        λ u passed.
          let (_, rest) =
            refuse-eq-ok (name == []) user_name_required
              (refuse (password == []) password_required >> found_user (lookup name s.users) name)
              passed in
          let (_, found) =
            refuse-eq-ok (password == []) password_required (found_user (lookup name s.users) name)
              rest in
          saving-WellFormed env _ tt (
            insert_user-WellFormed s.db name
              (record u {
                password = [];
                password_hash = hash_password env 0 password;
                updated_at = env.now;
              })
              (wf.users_named name u (found_user-ok (lookup name s.users) name u found)) wf)

  pub reset_user_flow-WellFormed : (name : Text) → WellFormed (reset_user_flow env name s).1.db
  unfolding reset_user_flow
  reset_user_flow-WellFormed name =
      checked-keeps WellFormed
        (refuse (name == []) user_name_required >> found_user (lookup name s.users) name) _ s wf
        λ u passed.
          let (_, found) =
            refuse-eq-ok (name == []) user_name_required (found_user (lookup name s.users) name)
              passed in
          saving-WellFormed env _ tt (
            insert_user-WellFormed s.db name (record u { flow_used = pos 0; updated_at = env.now })
              (wf.users_named name u (found_user-ok (lookup name s.users) name u found)) wf)

  pub upsert_user-WellFormed : (new : User) → WellFormed (upsert_user env new s).1.db
  unfolding upsert_user
  upsert_user-WellFormed new = checked-keeps WellFormed (prepare_user new) _ s wf λ n _.
      let u =
        settle_expiry env (merge_user env n (user_or_new env n.name (lookup n.name s.users))) in
      saving-WellFormed env _ (public u) (
        insert_user-WellFormed s.db n.name u
          (name-settle_expiry env _ ∙ (unfold merge_user in user_or_new-name env n.name s.db wf))
          wf)

  remove_found-WellFormed :
      (name : Text) (u : User)
      → WellFormed
          (checked
            (refuse (u.role == role_admin && leb (count_admins s.users) 1) last_admin)
            (λ _. saving env (remove_user name s) tt)
            s).1.db
  remove_found-WellFormed name u =
      checked-keeps WellFormed
        (refuse (u.role == role_admin && leb (count_admins s.users) 1) last_admin) _ s wf
        λ _ _. saving-WellFormed env _ tt (remove_user-WellFormed s.db name wf)

  pub delete_user-WellFormed : (name : Text) → WellFormed (delete_user env name s).1.db
  unfolding delete_user
  delete_user-WellFormed name =
      checked-keeps WellFormed (refuse (name == []) user_name_required) _ s wf λ _ _.
        elim (Option-cases (lookup name s.users)) [
          | inl missing ↦ rw missing wf
          | inr (u, found) ↦ rw found (remove_found-WellFormed name u)
        ]
