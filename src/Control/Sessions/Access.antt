-- ===== src/Control/Sessions/Access.antt =====
-- Who is let in: authMiddleware after login and logout.
use cosmo_nps.Base.{
  ◌≡◌, ◌≢◌, ◌⊎◌, refl, sym, ◌∙◌, ap, true, false, not, ◌||◌, Option, [], none, some, ok, subst,
  arith, inl, inr, Bool-cases, Option-cases, if◌then◌else◌, ok-injective,
}
use cosmo_nps.Text.{Text, ◌==◌, eq_iff, eq_refl}
use cosmo_nps.Dict.{lookup}
use cosmo_nps.Dict.Laws.{lookup-insert, lookup-delete}
use cosmo_nps.Core.Env.{Env}
use cosmo_nps.Core.Model.{User, PublicUser, public}
use cosmo_nps.Store.Base.{Store}
use cosmo_nps.Store.Users.{get_user, verify_login, upgrade_login}
use cosmo_nps.Store.Invariant.{db-save_locked}
use cosmo_nps.Core.Secret.{verify_password, hash_password}
use cosmo_nps.Control.Sessions.{
  Server, current_user, session_user, enabled_only, get_session, create_session, delete_session,
  is_open, auth_middleware, login, logout, random_token,
}

-- the cookie is the token of a session of an enabled user
pub record SignedIn (a : Server) (cookie : Option Text) (u : User) : Type 0 where
  pub token : Text
  pub sent : cookie ≡ some token
  pub token_ne : token ≢ []
  pub name : Text
  pub session : lookup token a.sessions ≡ some name
  pub stored : lookup name a.store.users ≡ some u
  pub enabled : u.enabled ≡ true

enabled_only-some : (v u : User) → enabled_only (some v) ≡ some u → (v.enabled ≡ true) × (v ≡ u)
enabled_only-some v u h = elim (Bool-cases v.enabled) [
  | inl on ↦ (on, cc (rw on at h))
  | inr off ↦ absurd (cc (rw off at h))
]

current_user-SignedIn :
    (a : Server) (cookie : Option Text) (u : User)
    → current_user a cookie ≡ some u
    → SignedIn a cookie u
unfolding current_user get_session get_user
current_user-SignedIn a none u h = cc
current_user-SignedIn a (some token) u h = elim (Bool-cases (token == [])) [
  | inl blank ↦ cc (rw blank at h)
  | inr given ↦
      let h1 : session_user a.store (lookup token a.sessions) ≡ some u = rw given at h in
      elim (Option-cases (lookup token a.sessions)) [
        | inl missing ↦ cc (rw missing at h1)
        | inr (name, session) ↦
            let h2 : enabled_only (lookup name a.store.users) ≡ some u = rw session at h1 in
            elim (Option-cases (lookup name a.store.users)) [
              | inl gone ↦ cc (rw gone at h2)
              | inr (v, stored) ↦
                  let h3 : enabled_only (some v) ≡ some u = rw stored at h2 in
                  let (on, same) : (v.enabled ≡ true) × (v ≡ u) = enabled_only-some v u h3 in
                  record {
                    token = token;
                    sent = refl;
                    token_ne = ground (arith, eq_iff token []);
                    name = name;
                    session = session;
                    stored = stored ∙ ap some same;
                    enabled = ap (λ w. w.enabled) (sym same) ∙ on;
                  }
            ]
      ]
]

-- A request that passes authMiddleware has an open path, or the cookie of a session whose user is
-- stored and enabled, and the handler gets that user.
pub auth_middleware-guarded :
    (a : Server) (path : Text) (cookie : Option Text) (who : Option User)
    → auth_middleware a path cookie ≡ ok who
    → (is_open path ≡ true) ⊎ ((u : User) × (who ≡ some u) × SignedIn a cookie u)
unfolding auth_middleware
auth_middleware-guarded a path cookie who h = elim (Bool-cases (is_open path)) [
  | inl open_path ↦ inl open_path
  | inr guarded ↦ elim (Option-cases (current_user a cookie)) [
    | inl nobody ↦ cc (rw (guarded, nobody) at h)
    | inr (u, found) ↦
        inr
          (u, sym (ok-injective (rw (guarded, found) at h)), current_user-SignedIn a cookie u found)
  ]
]

-- After a logout its token signs nobody in, and every other token what it did before.
pub logout-current_user :
    (a : Server) (token other : Text)
    → current_user (logout (some token) a) (some other)
      ≡ (if token == other then none else current_user a (some other))
unfolding logout current_user get_session delete_session
logout-current_user a token other = elim (Bool-cases (token == other)) [
  | inl same ↦ rw (lookup-delete, same) (ground arith)
  | inr different ↦ rw (lookup-delete, different) refl
]

upgraded-stored :
    (env : Env) (name password : Text) (u v : User) (s : Store)
    → lookup name s.users ≡ some u
    → u.enabled ≡ true
    → u.name ≡ name
    → (upgrade_login env name password u s).0 ≡ some v
    → (lookup name (upgrade_login env name password u s).1.users ≡ some v)
      × (v.enabled ≡ true)
      × (v.name ≡ name)
unfolding upgrade_login
upgraded-stored env name password u v s found on named h = elim (Bool-cases (u.password == [])) [
  | inl hashed ↦
      let same : u ≡ v = cc (rw hashed at h) in
      rw hashed (
        subst (λ w. (lookup name s.users ≡ some w) × (w.enabled ≡ true) × (w.name ≡ name)) same
          (found, on, named))
  | inr legacy ↦
      let hashed : User = record u {
        password_hash = hash_password env 0 password;
        password = [];
        updated_at = env.now;
      } in
      let same : hashed ≡ v = cc (rw legacy at h) in
      rw (legacy, db-save_locked, lookup-insert, eq_refl)
        (subst (λ w. (some hashed ≡ some w) × (w.enabled ≡ true) × (w.name ≡ name)) same
          (refl, on, named))
]

verify_login-stored :
    (env : Env) (name password : Text) (v : User) (s : Store)
    → ((u : User) → lookup name s.users ≡ some u → u.name ≡ name)
    → (verify_login env name password s).0 ≡ some v
    → (lookup name (verify_login env name password s).1.users ≡ some v)
      × (v.enabled ≡ true)
      × (v.name ≡ name)
unfolding verify_login
verify_login-stored env name password v s at_name h = elim (Option-cases (lookup name s.users)) [
  | inl missing ↦ absurd (cc (rw (missing, verify_login) at h))
  | inr (u, found) ↦ elim (Bool-cases (not u.enabled || not (verify_password env u password))) [
    | inl refused ↦ absurd (cc (rw (found, verify_login, refused) at h))
    | inr accepted ↦
        rw (found, verify_login, accepted)
          (upgraded-stored env name password u v s found (ground arith) (at_name u found)
            (rw (found, verify_login, accepted) at h))
  ]
]

signed_in :
    (env : Env) (name password token : Text) (a : Server) (u : User)
    → (verify_login env name password a.store).0 ≡ some u
    → u.name ≡ name
    → lookup name (verify_login env name password a.store).1.users ≡ some u
    → u.enabled ≡ true
    → random_token env 1 ≡ token
    → token ≢ []
    → current_user (login env (some (name, password)) a).1 (some token) ≡ some u
unfolding login current_user get_session create_session get_user
signed_in env name password token a u found named stored on is given =
    let token_ne : (token == []) ≡ false = ground (arith, eq_iff token []) in
    let at_own : lookup u.name (verify_login env name password a.store).1.users ≡ some u =
      ap (λ n. lookup n (verify_login env name password a.store).1.users) named ∙ stored in
    rw (found, login, is, token_ne, lookup-insert, eq_refl, at_own)
      (ap (λ b. if b then some u else none) on)

-- After a login whose token is not empty, under a name that its stored user has, the token signs in the user whose data the reply shows.
pub login-current_user :
    (env : Env) (name password token : Text) (shown : PublicUser) (a : Server)
    → ((u : User) → lookup name a.store.users ≡ some u → u.name ≡ name)
    → (login env (some (name, password)) a).0 ≡ ok (token, shown)
    → token ≢ []
    → (u : User) × (current_user (login env (some (name, password)) a).1 (some token) ≡ some u)
      × (public u ≡ shown)
unfolding login current_user get_session create_session get_user
login-current_user env name password token shown a at_name h given =
    elim (Option-cases (verify_login env name password a.store).0) [
      | inl refused ↦ absurd (cc (rw (refused, login) at h))
      | inr (u, found) ↦
          let (stored, on, named) = verify_login-stored env name password u a.store at_name found in
          let same : ◌≡◌ {A = Text × PublicUser} (random_token env 1, public u) (token, shown) =
            ok-injective (rw (found, login) at h) in
          (
            u,
            signed_in env name password token a u found named stored on (ap (λ p. p.0) same) given,
            ap (λ p. p.1) same,
          )
    ]
