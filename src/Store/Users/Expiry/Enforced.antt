-- ===== src/Store/Users/Expiry/Enforced.antt =====
-- What is known of a user who is left after EnforceUserExpiry.
use cosmo_nps.Base.{
  ◌≡◌, refl, sym, ap, [], ◌∷◌, ◌∙◌, false, some, arith, inl, inr, Bool-cases, Option-cases, ℤ, ◌-ℤ◌,
}
use cosmo_nps.Text.{Text, ◌==◌}
use cosmo_nps.Dict.{Dict, lookup}
use cosmo_nps.Dict.Laws.{Distinct}
use cosmo_nps.Core.Env.{Env}
use cosmo_nps.Core.Model.{User, Tunnel, Time, role_admin, is_zero, after}
use cosmo_nps.Store.Base.{Store}
use cosmo_nps.Store.Users.Expiry.{
  expire, is_stale, Visit, untouched, removed, changed, visit_user, Swept, tunnels_after,
  keep_visited, sweep, enforce_user_expiry,
}
use cosmo_nps.Store.Invariant.{db-saving}
use cosmo_nps.Store.Invariant.ExpirySteps.{kept, kept?, lookup-sweep}

-- a user who is no admin and has an expiry date
pub record Expirable (u : User) : Type 0 where
  pub no_admin : (u.role == role_admin) ≡ false
  pub dated : is_zero u.expires_at ≡ false

-- a user past the date is off, and is within the retention
pub record IsEnforced (now cutoff : Time) (u : User) : Type 0 where
  pub off : after u.expires_at now ≡ false → u.enabled ≡ false
  pub recent : is_stale cutoff u ≡ false

visited-IsEnforced :
    (now cutoff : Time) (u v : User)
    → kept (visit_user now cutoff u) u ≡ some v
    → Expirable v
    → IsEnforced now cutoff v
unfolding visit_user expire
visited-IsEnforced now cutoff u v h e = record {
  off = λ past. ground (arith, e.no_admin, e.dated);
  recent = ground (arith, e.no_admin, e.dated);
}

keep_visited-clean :
    (v : Visit) (name : Text) (u : User) (rest : Swept)
    → (keep_visited v name u rest).dirty ≡ false
    → (v ≡ untouched) × (rest.dirty ≡ false)
keep_visited-clean untouched name u rest h = (refl, h)
keep_visited-clean removed name u rest h = cc
keep_visited-clean (changed w) name u rest h = cc

-- a sweep that reports no change has made none
sweep-clean :
    (now cutoff : Time) (m : Dict User) (ts : Dict Tunnel)
    → (sweep now cutoff m ts).dirty ≡ false
    → (sweep now cutoff m ts).users ≡ m
unfolding sweep
sweep-clean now cutoff [] ts h = refl
sweep-clean now cutoff ((name, u) ∷ m) ts h =
    let left = tunnels_after (visit_user now cutoff u) name ts in
    let (same, clean) =
      keep_visited-clean (visit_user now cutoff u) name u (sweep now cutoff m left) h in
    ap (λ v. (keep_visited v name u (sweep now cutoff m left)).users) same
    ∙ ap (λ us. (name, u) ∷ us) (sweep-clean now cutoff m left clean)

users-enforce_user_expiry :
    (env : Env) (now : Time) (retention : ℤ) (s : Store)
    → (enforce_user_expiry env now retention s).1.users
      ≡ (sweep now (now -ℤ retention) s.users s.tunnels).users
unfolding enforce_user_expiry
users-enforce_user_expiry env now retention s =
    elim (Bool-cases (sweep now (now -ℤ retention) s.users s.tunnels).dirty) [
      | inl dirty ↦ rw (dirty, db-saving) refl
      | inr clean ↦ rw clean (sym (sweep-clean now (now -ℤ retention) s.users s.tunnels clean))
    ]

-- On a store with distinct user names, every user who is left after EnforceUserExpiry, is no admin
-- and has an expiry date is off if the date has passed, and has not been expired for longer than the
-- retention.
pub enforce_user_expiry-IsEnforced :
    (env : Env) (now : Time) (retention : ℤ) (s : Store) (k : Text) (u : User)
    → Distinct s.users
    → lookup k (enforce_user_expiry env now retention s).1.users ≡ some u
    → Expirable u
    → IsEnforced now (now -ℤ retention) u
enforce_user_expiry-IsEnforced env now retention s k u d h e =
    let left : kept? now (now -ℤ retention) (lookup k s.users) ≡ some u =
      sym (lookup-sweep now (now -ℤ retention) k s.users s.tunnels d)
      ∙ ap (lookup k) (sym (users-enforce_user_expiry env now retention s))
      ∙ h in
    elim (Option-cases (lookup k s.users)) [
      | inl missing ↦ absurd (cc (rw missing at left))
      | inr (old, found) ↦ visited-IsEnforced now (now -ℤ retention) old u (rw found at left) e
    ]
