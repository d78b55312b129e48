-- ===== src/Store/Users/Expiry.antt =====
-- EnforceUserExpiry.
pub mod Enforced
use cosmo_nps.Base.{Bool, true, false, not, ◌&&◌, ◌||◌, [], ◌∷◌, ok, if◌then◌else◌, ◌-ℤ◌, ℤ}
use cosmo_nps.Text.{Text, ◌==◌}
use cosmo_nps.Dict.{Dict}
use cosmo_nps.Core.Env.{Env}
use cosmo_nps.Core.Model.{User, Tunnel, Time, is_zero, after, role_admin}
use cosmo_nps.Store.Base.{Store, Outcome, saving, with_users, with_tunnels}
use cosmo_nps.Store.Users.{drop_tunnels}

-- the first `if` of the loop: the user, and whether it has changed
unfoldable pub expire : Time → User → User × Bool
expire now u =
    if after u.expires_at now
    then (u, false)
    else if u.enabled
    then (record u { enabled = false; expired_at = now; updated_at = now }, true)
    else if is_zero u.expired_at
    then (record u { expired_at = now; updated_at = now }, true)
    else (u, false)

-- the second `if`: the retention has passed
unfoldable pub is_stale : Time → User → Bool
is_stale cutoff u = not (is_zero u.expired_at) && not (after u.expired_at cutoff)

-- what one round of the loop does with its user
pub data Visit : Type 0 where
  untouched removed : Visit
  changed : User → Visit

abbrev pub after_expire : Time → User × Bool → Visit
after_expire cutoff (u, dirty) =
    if is_stale cutoff u then removed else if dirty then changed u else untouched

unfoldable pub visit_user : Time → Time → User → Visit
visit_user now cutoff u =
    if u.role == role_admin || is_zero u.expires_at
    then untouched
    else after_expire cutoff (expire now u)

pub record Swept : Type 0 where
  pub users : Dict User
  pub tunnels : Dict Tunnel
  pub dirty : Bool

abbrev pub tunnels_after : Visit → Text → Dict Tunnel → Dict Tunnel
tunnels_after untouched name tunnels = tunnels
tunnels_after removed name tunnels = drop_tunnels name tunnels
tunnels_after (changed u) name tunnels = tunnels

abbrev pub keep_visited : Visit → Text → User → Swept → Swept
keep_visited untouched name u rest = record rest { users = (name, u) ∷ rest.users }
keep_visited removed name u rest = record rest { dirty = true }
keep_visited (changed v) name u rest = record rest { users = (name, v) ∷ rest.users; dirty = true }

-- The loop over the users. A round reads and deletes only its own user and that user's tunnels.
unfoldable pub sweep : Time → Time → Dict User → Dict Tunnel → Swept
sweep now cutoff [] tunnels = record { users = []; tunnels = tunnels; dirty = false }
sweep now cutoff ((name, u) ∷ m) tunnels =
    let visit = visit_user now cutoff u in
    keep_visited visit name u (sweep now cutoff m (tunnels_after visit name tunnels))

unfoldable pub enforce_user_expiry : Env → Time → ℤ → Store → Outcome Bool
enforce_user_expiry env now retention s =
    let swept = sweep now (now -ℤ retention) s.users s.tunnels in
    if swept.dirty
    then saving env (with_users (with_tunnels s swept.tunnels) swept.users) true
    else (ok false, s)
