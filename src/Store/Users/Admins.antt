-- ===== src/Store/Users/Admins.antt =====
-- Enabled admins: what the methods do to their number.
use cosmo_nps.Base.{
  ◌≡◌, ◌≢◌, ◌⊎◌, refl, sym, ◌∙◌, ap, ℕ, suc, ◌+◌, true, false, ◌&&◌, Option, none, some, [], ◌∷◌,
  arith, inl, inr, Bool-cases, Option-cases, if◌then◌else◌, leb, ltb, ℤ, ◌-ℤ◌,
}
use cosmo_nps.Text.{Text, ◌==◌, eq_iff, eq_refl}
use cosmo_nps.Dict.{Dict, lookup, insert, delete}
use cosmo_nps.Dict.Laws.{Distinct, Fresh}
use cosmo_nps.Core.Env.{Env}
use cosmo_nps.Core.Model.{User, Tunnel, Time, role_admin}
use cosmo_nps.Store.Base.{Store}
use cosmo_nps.Store.Users.{
  is_enabled_admin, count_admins, has_admin, delete_user, ensure_admin, first_admin,
}
use cosmo_nps.Store.Users.Expiry.{
  expire, visit_user, Swept, tunnels_after, keep_visited, sweep, enforce_user_expiry,
}
use cosmo_nps.Store.Invariant.{db-saving}

has_admin_iff : (m : Dict User) → has_admin m ≡ ltb 0 (count_admins m)
unfolding has_admin count_admins
has_admin_iff [] = refl
has_admin_iff ((k, u) ∷ m) = ground (arith, has_admin_iff m)

count-delete-Fresh :
    (k : Text) (m : Dict User) → Fresh k m → count_admins (delete k m) ≡ count_admins m
unfolding count_admins delete
count-delete-Fresh k [] f = refl
count-delete-Fresh k ((j, u) ∷ m) f = ground (arith, eq_iff j k, count-delete-Fresh k m f.1)

-- a deletion takes away one admin at most, and none with a user who is no admin
abbrev weight : Option User → ℕ
weight none = 0
weight (some u) = if is_enabled_admin u then 1 else 0

count-delete :
    (k : Text) (m : Dict User)
    → Distinct m
    → count_admins m ≡ weight (lookup k m) + count_admins (delete k m)
unfolding count_admins delete lookup
count-delete k [] d = refl
count-delete k ((j, u) ∷ m) d = elim (Bool-cases (j == k)) [
  | inl same ↦
      let f : Fresh k m = rw ((eq_iff j k).0 same) at d.0 in
      rw (same, count-delete-Fresh k m f) (ground arith)
  | inr other ↦ rw other (ground (arith, count-delete k m d.1))
]

db-delete_user :
    (env : Env) (name : Text) (s : Store) (u : User)
    → lookup name s.users ≡ some u
    → (count_admins s.users ≡ count_admins (delete_user env name s).1.users)
      ⊎ ((count_admins (delete_user env name s).1.users ≡ count_admins (delete name s.users))
          × ((u.role == role_admin && leb (count_admins s.users) 1) ≡ false))
unfolding delete_user
db-delete_user env name s u found = elim (Bool-cases (name == [])) [
  | inl blank ↦ inl (rw (blank, delete_user) refl)
  | inr named ↦ elim (Bool-cases (u.role == role_admin && leb (count_admins s.users) 1)) [
    | inl last ↦ inl (rw (named, found, last) refl)
    | inr more ↦
        inr (rw (named, found, more) (ap (λ db. count_admins db.users) (db-saving env _ tt), refl))
  ]
]

delete_user-missing :
    (env : Env) (name : Text) (s : Store)
    → lookup name s.users ≡ none
    → (delete_user env name s).1 ≡ s
unfolding delete_user
delete_user-missing env name s missing = elim (Bool-cases (name == [])) [
  | inl blank ↦ rw (blank, delete_user) refl
  | inr named ↦ rw (named, missing) refl
]

one_left :
    (u : User) (n k : ℕ)
    → n ≡ weight (some u) + k
    → (u.role == role_admin && leb n 1) ≡ false
    → ltb 0 n ≡ true
    → ltb 0 k ≡ true
unfolding is_enabled_admin
one_left u n k e guard h = ground arith

-- On a store with distinct user names, DeleteUser leaves an enabled admin where there was one.
pub delete_user-has_admin :
    (env : Env) (name : Text) (s : Store)
    → Distinct s.users
    → has_admin s.users ≡ true
    → has_admin (delete_user env name s).1.users ≡ true
delete_user-has_admin env name s d h = elim (Option-cases (lookup name s.users)) [
  | inl missing ↦ rw (delete_user-missing env name s missing) h
  | inr (u, found) ↦
      let before : ltb 0 (count_admins s.users) ≡ true = sym (has_admin_iff s.users) ∙ h in
      let after : ltb 0 (count_admins (delete_user env name s).1.users) ≡ true =
        elim (db-delete_user env name s u found) [
          | inl same ↦ ap (ltb 0) (sym same) ∙ before
          | inr (left, guard) ↦
              ap (ltb 0) left
              ∙ one_left u _ _
                  (count-delete name s.users d
                    ∙ ap (λ o. weight o + count_admins (delete name s.users)) found)
                  guard before
        ] in
      has_admin_iff (delete_user env name s).1.users ∙ after
]

count_admins-keep :
    (now cutoff : Time) (name : Text) (u : User) (rest : Swept)
    → count_admins (keep_visited (visit_user now cutoff u) name u rest).users
      ≡ (if is_enabled_admin u then suc (count_admins rest.users) else count_admins rest.users)
unfolding visit_user expire is_enabled_admin count_admins
count_admins-keep now cutoff name u rest = ground arith

count_admins-sweep :
    (now cutoff : Time) (m : Dict User) (ts : Dict Tunnel)
    → count_admins (sweep now cutoff m ts).users ≡ count_admins m
unfolding count_admins sweep
count_admins-sweep now cutoff [] ts = refl
count_admins-sweep now cutoff ((name, u) ∷ m) ts =
    let left = tunnels_after (visit_user now cutoff u) name ts in
    rw
      (
        count_admins-keep now cutoff name u (sweep now cutoff m left),
        count_admins-sweep now cutoff m left,
      )
      refl

-- EnforceUserExpiry leaves the number of enabled admins alone.
pub enforce_user_expiry-count_admins :
    (env : Env) (now : Time) (retention : ℤ) (s : Store)
    → count_admins (enforce_user_expiry env now retention s).1.users ≡ count_admins s.users
unfolding enforce_user_expiry
enforce_user_expiry-count_admins env now retention s =
    elim (Bool-cases (sweep now (now -ℤ retention) s.users s.tunnels).dirty) [
      | inl dirty ↦
          rw (dirty, db-saving) (count_admins-sweep now (now -ℤ retention) s.users s.tunnels)
      | inr clean ↦ rw clean refl
    ]

has_admin-insert :
    (name : Text) (u : User) (m : Dict User)
    → is_enabled_admin u ≡ true
    → has_admin (insert name u m) ≡ true
unfolding has_admin insert
has_admin-insert name u [] h = rw h refl
has_admin-insert name u ((j, v) ∷ m) h = ground (arith, has_admin-insert name u m h)

ne→eq : (t : Text) → t ≢ [] → (t == []) ≡ false
ne→eq t ne = ground (arith, eq_iff t [])

first_admin-enabled :
    (env : Env) (name password : Text) → is_enabled_admin (first_admin env name password) ≡ true
unfolding is_enabled_admin first_admin
first_admin-enabled env name password = rw eq_refl refl

-- After EnsureAdmin with a name and a password there is an enabled admin, even if the save fails.
pub ensure_admin-has_admin :
    (env : Env) (name password : Text) (s : Store)
    → name ≢ []
    → password ≢ []
    → has_admin (ensure_admin env name password s).1.users ≡ true
unfolding ensure_admin
ensure_admin-has_admin env name password s named given = elim (Bool-cases (has_admin s.users)) [
  | inl there ↦ rw (ne→eq name named, ne→eq password given, there) there
  | inr lacking ↦
      rw (ne→eq name named, ne→eq password given, lacking, db-saving)
        (has_admin-insert name (first_admin env name password) s.users
          (first_admin-enabled env name password))
]
