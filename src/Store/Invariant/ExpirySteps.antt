-- ===== src/Store/Invariant/ExpirySteps.antt =====
-- EnforceUserExpiry keeps the invariant: what is known of a user before and after the sweep.
use cosmo_nps.Base.{
  ◌≡◌, ◌≢◌, ◌⊎◌, refl, sym, ◌∙◌, ap, Bool, true, ◌||◌, Option, none, some, [], ◌∷◌, arith, inl, inr,
  Bool-cases, Option-cases, if◌then◌else◌, ℤ, ◌-ℤ◌,
}
use cosmo_nps.Text.{Text, ◌==◌, eq_iff}
use cosmo_nps.Dict.{Dict, lookup}
use cosmo_nps.Dict.Laws.{Distinct, Fresh, lookup-Fresh}
use cosmo_nps.Core.Env.{Env}
use cosmo_nps.Core.Model.{User, Tunnel, Database, Time, role_admin, is_zero}
use cosmo_nps.Store.Base.{Store}
use cosmo_nps.Store.Users.Expiry.{
  expire, Visit, untouched, removed, changed, after_expire, visit_user, Swept, tunnels_after,
  keep_visited, sweep, enforce_user_expiry,
}
use cosmo_nps.Store.Invariant.{WellFormed, saving-WellFormed}
use cosmo_nps.Store.Invariant.Users.{drop_tunnels-Distinct, lookup-drop_tunnels}

-- what the sweep leaves of one user
abbrev pub kept : Visit → User → Option User
kept untouched u = some u
kept removed u = none
kept (changed v) u = some v

abbrev pub kept? : Time → Time → Option User → Option User
kept? now cutoff none = none
kept? now cutoff (some u) = kept (visit_user now cutoff u) u

Visit-cases : (v : Visit) → (v ≡ removed) ⊎ ((v ≢ removed) × ((w : User) → kept v w ≢ none))
Visit-cases untouched = inr (λ e. cc, λ w e. cc)
Visit-cases removed = inl refl
Visit-cases (changed u) = inr (λ e. cc, λ w e. cc)

-- the map of users after one round
round_users : Visit → Text → User → Dict User → Dict User
round_users untouched name u rest = (name, u) ∷ rest
round_users removed name u rest = rest
round_users (changed v) name u rest = (name, v) ∷ rest

module _ (v : Visit) (name : Text) (u : User) (rest : Swept) where
  users-keep_visited : (keep_visited v name u rest).users ≡ round_users v name u rest.users
  unfolding round_users
  users-keep_visited = ground arith

  tunnels-keep_visited : (keep_visited v name u rest).tunnels ≡ rest.tunnels
  tunnels-keep_visited = ground arith

Fresh-round_users :
    (v : Visit) (k name : Text) (u : User) (rest : Dict User)
    → name ≢ k
    → Fresh k rest
    → Fresh k (round_users v name u rest)
unfolding round_users
Fresh-round_users untouched k name u rest ne h = (ne, h)
Fresh-round_users removed k name u rest ne h = h
Fresh-round_users (changed v) k name u rest ne h = (ne, h)

round_users-Distinct :
    (v : Visit) (name : Text) (u : User) (rest : Dict User)
    → Fresh name rest
    → Distinct rest
    → Distinct (round_users v name u rest)
unfolding round_users
round_users-Distinct untouched name u rest f d = (f, d)
round_users-Distinct removed name u rest f d = d
round_users-Distinct (changed v) name u rest f d = (f, d)

lookup-round_users :
    (v : Visit) (k name : Text) (u : User) (rest : Dict User)
    → Fresh name rest
    → lookup k (round_users v name u rest) ≡ (if name == k then kept v u else lookup k rest)
unfolding round_users lookup
lookup-round_users untouched k name u rest f = refl
lookup-round_users removed k name u rest f = ground (arith, eq_iff name k, lookup-Fresh name rest f)
lookup-round_users (changed v) k name u rest f = refl

module _ (now cutoff : Time) where
  abbrev visit : User → Visit
  visit u = visit_user now cutoff u

  Fresh-sweep :
      (k : Text) (m : Dict User) (ts : Dict Tunnel)
      → Fresh k m
      → Fresh k (sweep now cutoff m ts).users
  unfolding sweep
  Fresh-sweep k [] ts h = tt
  Fresh-sweep k ((name, u) ∷ m) ts h = rw (users-keep_visited (visit u) name u _) (
      Fresh-round_users (visit u) k name u _ h.0
        (Fresh-sweep k m (tunnels_after (visit u) name ts) h.1))

  pub sweep-Distinct :
      (m : Dict User) (ts : Dict Tunnel) → Distinct m → Distinct (sweep now cutoff m ts).users
  unfolding sweep
  sweep-Distinct [] ts h = tt
  sweep-Distinct ((name, u) ∷ m) ts h =
      let left = tunnels_after (visit u) name ts in
      rw (users-keep_visited (visit u) name u _) (
        round_users-Distinct (visit u) name u _ (Fresh-sweep name m left h.0)
          (sweep-Distinct m left h.1))

  -- Each user is kept, changed or removed by itself.
  pub lookup-sweep :
      (k : Text) (m : Dict User) (ts : Dict Tunnel)
      → Distinct m
      → lookup k (sweep now cutoff m ts).users ≡ kept? now cutoff (lookup k m)
  unfolding sweep lookup
  lookup-sweep k [] ts h = refl
  lookup-sweep k ((name, u) ∷ m) ts h =
      let left = tunnels_after (visit u) name ts in
      rw (users-keep_visited (visit u) name u _) (
        lookup-round_users (visit u) k name u _ (Fresh-sweep name m left h.0)
        ∙ (elim (Bool-cases (name == k)) [
          | inl here ↦ rw here
          | inr there ↦ rw there (lookup-sweep k m left h.1)
        ]))

  tunnels_after-Distinct :
      (v : Visit) (name : Text) (ts : Dict Tunnel)
      → Distinct ts
      → Distinct (tunnels_after v name ts)
  tunnels_after-Distinct untouched name ts h = h
  tunnels_after-Distinct removed name ts h = drop_tunnels-Distinct name ts h
  tunnels_after-Distinct (changed u) name ts h = h

  tunnels-sweep-Distinct :
      (m : Dict User) (ts : Dict Tunnel) → Distinct ts → Distinct (sweep now cutoff m ts).tunnels
  unfolding sweep
  tunnels-sweep-Distinct [] ts h = h
  tunnels-sweep-Distinct ((name, u) ∷ m) ts h =
      rw (tunnels-keep_visited (visit u) name u _)
        (tunnels-sweep-Distinct m _ (tunnels_after-Distinct (visit u) name ts h))

  -- what a round leaves was there, and is not of a user that the round removes
  lookup-tunnels_after :
      (v : Visit) (k name : Text) (t : Tunnel) (ts : Dict Tunnel)
      → Distinct ts
      → lookup k (tunnels_after v name ts) ≡ some t
      → (lookup k ts ≡ some t) × (v ≡ removed → t.user_name ≢ name)
  lookup-tunnels_after untouched k name t ts d h = (h, λ e. cc)
  lookup-tunnels_after removed k name t ts d h =
      let (was, ne) = lookup-drop_tunnels k name t ts d h in (was, λ _. ne)
  lookup-tunnels_after (changed u) k name t ts d h = (h, λ e. cc)

  -- A tunnel that the sweep leaves was there, and its owner is not removed.
  lookup-tunnels-sweep :
      (k : Text) (t : Tunnel) (m : Dict User) (ts : Dict Tunnel)
      → Distinct ts
      → lookup k (sweep now cutoff m ts).tunnels ≡ some t
      → (lookup k ts ≡ some t) × ((u : User) → lookup t.user_name m ≡ some u → visit u ≢ removed)
  unfolding sweep lookup
  lookup-tunnels-sweep k t [] ts d h = (h, λ u e. cc)
  lookup-tunnels-sweep k t ((name, o) ∷ m) ts d h =
      let left = tunnels_after (visit o) name ts in
      let (there, owner) =
        lookup-tunnels-sweep k t m left (tunnels_after-Distinct (visit o) name ts d)
          (rw (tunnels-keep_visited (visit o) name o _) at h) in
      let (was, ne) = lookup-tunnels_after (visit o) k name t ts d there in
      (
        was,
        λ u e. elim (Bool-cases (name == t.user_name)) [
          | inl mine ↦ λ gone.
              let same : o ≡ u = cc (rw mine at e) in
              ne (ap visit same ∙ gone) (sym ((eq_iff name t.user_name).0 mine))
          | inr other ↦ owner u (rw other at e)
        ],
      )

  name-expire : (u : User) → (expire now u).0.name ≡ u.name
  unfolding expire
  name-expire u = ground arith

  after_expire-name :
      (p : User × Bool) (u v : User)
      → p.0.name ≡ u.name
      → kept (after_expire cutoff p) u ≡ some v
      → v.name ≡ u.name
  after_expire-name (w, dirty) u v e h = ground arith

  kept-name : (u v : User) → kept (visit u) u ≡ some v → v.name ≡ u.name
  unfolding visit_user
  kept-name u v h = elim (Bool-cases (u.role == role_admin || is_zero u.expires_at)) [
    | inl exempt ↦ ground arith
    | inr subject ↦ after_expire-name (expire now u) u v (name-expire u) (ground arith)
  ]

  not_removed : (u : User) → visit u ≢ removed → (v : User) × (kept (visit u) u ≡ some v)
  not_removed u h = go (visit u) h
    where
      go : (w : Visit) → w ≢ removed → (v : User) × (kept w u ≡ some v)
      go untouched h = (u, refl)
      go removed h = absurd (h refl)
      go (changed v) h = (v, refl)

  swept-name :
      (db : Database) (wf : WellFormed db) (k : Text) (v : User) {o : Option User}
      → o ≡ kept? now cutoff (lookup k db.users)
      → o ≡ some v
      → v.name ≡ k
  swept-name db wf k v e h = elim (Option-cases (lookup k db.users)) [
    | inl missing ↦ absurd (cc (rw missing at e, h))
    | inr (u, found) ↦ kept-name u v (sym (rw found at e) ∙ h) ∙ wf.users_named k u found
  ]

  -- The sweep removes a user only together with its tunnels.
  pub sweep-WellFormed :
      (db : Database)
      → WellFormed db
      → WellFormed (record db {
        users = (sweep now cutoff db.users db.tunnels).users;
        tunnels = (sweep now cutoff db.users db.tunnels).tunnels;
      })
  sweep-WellFormed db wf =
      let before =
        λ (k : Text) (t : Tunnel)
            (h : lookup k (sweep now cutoff db.users db.tunnels).tunnels ≡ some t).
          lookup-tunnels-sweep k t db.users db.tunnels wf.tunnels_distinct h in
      record {
        default_node = wf.default_node;
        users_distinct = sweep-Distinct db.users db.tunnels wf.users_distinct;
        nodes_distinct = wf.nodes_distinct;
        tunnels_distinct = tunnels-sweep-Distinct db.users db.tunnels wf.tunnels_distinct;
        users_named =
            λ k v h. swept-name db wf k v (lookup-sweep k db.users db.tunnels wf.users_distinct) h;
        nodes_named = wf.nodes_named;
        tunnels_named = λ k t h. wf.tunnels_named k t (before k t h).0;
        owned = λ k t h.
            let (was, stays) = before k t h in
            let (u, found) = wf.owned k t was in
            let (v, left) = not_removed u (stays u found) in
            (
              v,
              lookup-sweep t.user_name db.users db.tunnels wf.users_distinct
                  ∙ ap (kept? now cutoff) found
                  ∙ left,
            );
        placed = λ k t h. wf.placed k t (before k t h).0;
        shaped = λ k t h. wf.shaped k t (before k t h).0;
        exclusive = λ j k a b ha hb. wf.exclusive j k a b (before j a ha).0 (before k b hb).0;
      }

pub enforce_user_expiry-WellFormed :
    (env : Env) (s : Store) (now : Time) (retention : ℤ)
    → WellFormed s.db
    → WellFormed (enforce_user_expiry env now retention s).1.db
unfolding enforce_user_expiry
enforce_user_expiry-WellFormed env s now retention wf =
    elim (Bool-cases (sweep now (now -ℤ retention) s.users s.tunnels).dirty) [
      | inl dirty ↦
          rw dirty (saving-WellFormed env _ true (sweep-WellFormed now (now -ℤ retention) s.db wf))
      | inr clean ↦ rw clean wf
    ]
