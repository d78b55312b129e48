-- ===== src/Control/Traffic/Counted.antt =====
-- The numbers of a charge where no int64 overflows, and what UpsertUser makes of the charged user.
use cosmo_nps.Base.{
  ◌≡◌, refl, ap, ◌∙◌, ℕ, ◌+◌, ◌*◌, ◌%◌, ◌^◌, ◌<◌, ◌≤◌, ◌↔◌, ◌⊎◌, true, false, not, ◌&&◌, ◌||◌, ltb,
  [], arith, ℤ, pos, ◌+ℤ◌, ◌*ℤ◌, Bool-cases, inl, inr, ok, >>=-eq-ok, refuse, if◌then◌else◌,
}
use cosmo_nps.Text.{◌==◌}
use cosmo_nps.Core.Domain.{normalize_domains}
use cosmo_nps.Core.Model.{User, role_user, role_admin, is_zero, after}
use cosmo_nps.Core.Env.{Env}
use cosmo_nps.Store.Base.{user_name_required, bad_role, domain_error}
use cosmo_nps.Store.Users.{prepare_user, settle_expiry}
use cosmo_nps.Control.Traffic.{int64, limit_bytes, new_used, over_quota, charged}

int64_small : (n : ℕ) → n < 2 ^ 63 → int64 (pos n) ≡ pos n
unfolding int64
int64_small n h =
    let same : n % 2 ^ 64 ≡ n = omega arith in
    let low : ltb n (2 ^ 63) ≡ true = ground arith in rw (same, low) refl

add_pos : (m n : ℕ) → pos m +ℤ pos n ≡ pos (m + n)
unfolding ◌+ℤ◌
add_pos m n = ground arith

times_1024 : (m : ℕ) → pos m *ℤ pos 1024 ≡ pos (m * 1024)
unfolding ◌*ℤ◌
times_1024 m = ground arith

-- a factor of 1024 that does not overflow
times_small : (m : ℕ) → m * 1024 < 2 ^ 63 → int64 (pos m *ℤ pos 1024) ≡ pos (m * 1024)
times_small m h = ap int64 (times_1024 m) ∙ int64_small (m * 1024) h

pub limit_bytes_lem :
    (u : User) (g : ℕ)
    → u.flow_limit ≡ pos g
    → g * 1073741824 < 2 ^ 63
    → limit_bytes u ≡ pos (g * 1073741824)
unfolding limit_bytes
limit_bytes_lem u g is h =
    ap (λ x. int64 (int64 (int64 (x *ℤ pos 1024) *ℤ pos 1024) *ℤ pos 1024)) is
    ∙ ap (λ x. int64 (int64 (x *ℤ pos 1024) *ℤ pos 1024)) (times_small g (omega arith))
    ∙ ap (λ x. int64 (x *ℤ pos 1024)) (times_small (g * 1024) (omega arith))
    ∙ times_small (g * 1024 * 1024) (omega arith)
    ∙ ap pos (omega arith)

pub new_used_lem :
    (u : User) (f a b : ℕ)
    → u.flow_used ≡ pos f
    → f + a + b < 2 ^ 63
    → new_used u (pos a) (pos b) ≡ pos (f + a + b)
unfolding new_used
new_used_lem u f a b is h =
    ap (λ x. int64 (int64 (x +ℤ pos a) +ℤ pos b)) is
    ∙ ap (λ x. int64 (int64 x +ℤ pos b)) (add_pos f a)
    ∙ ap (λ x. int64 (x +ℤ pos b)) (int64_small (f + a) (omega arith))
    ∙ ap int64 (add_pos (f + a) b)
    ∙ int64_small (f + a + b) h

-- the use has reached the limit, of which 0 is none
abbrev pub Reaches : ℕ → ℕ → Type 0
Reaches used gigabytes = (0 < gigabytes) × (gigabytes * 1073741824 ≤ used)

pub over_quota_iff :
    (u : User) (g used : ℕ)
    → u.flow_limit ≡ pos g
    → g * 1073741824 < 2 ^ 63
    → (over_quota u (pos used) ≡ true) ↔ Reaches used g
unfolding over_quota
over_quota_iff u g used is h =
    let limit = limit_bytes_lem u g is h in rw limit (λ k. ground arith, λ k. ground arith)

-- UpsertUser reads the name, the role and the pools of the charged user, which are those of the user
pub prepare_user-charged :
    (u n : User) (used : ℤ)
    → prepare_user u ≡ ok n
    → (c : User) × (prepare_user (charged u used) ≡ ok c)
      × (c.name ≡ u.name)
      × (c.enabled ≡ (u.enabled && not (over_quota u used)))
      × (c.flow_used ≡ used)
      × (c.expires_at ≡ u.expires_at)
unfolding prepare_user charged
prepare_user-charged u n used h =
    let role = if u.role == [] then role_user else u.role in
    let (_, named, h1) = >>=-eq-ok (refuse (u.name == []) user_name_required) _ h in
    let (_, known, h2) =
      >>=-eq-ok (refuse (not (role == role_admin) && not (role == role_user)) bad_role) _ h1 in
    let (domains, good, _) = >>=-eq-ok (domain_error (normalize_domains u.domain_pools)) _ h2 in
    let c : User = record (charged u used) { role = role; domain_pools = domains } in
    let taken : prepare_user (charged u used) ≡ ok c = rw (named, known, good) refl in
    (c, taken, refl, ground arith, refl, refl)

-- the end of a user's time, as UpsertUser reads it
abbrev pub IsExpired : Env → User → Type 0
IsExpired env u = (is_zero u.expires_at || after u.expires_at env.now) ≡ false

pub settle_expiry-cases :
    (env : Env) (u : User) → ((settle_expiry env u).enabled ≡ u.enabled) ⊎ IsExpired env u
unfolding settle_expiry
settle_expiry-cases env u = elim (Bool-cases (is_zero u.expires_at || after u.expires_at env.now)) [
  | inl lasting ↦ inl (rw lasting refl)
  | inr expired ↦ inr expired
]
