-- ===== src/Core/Domain/Canonical.antt =====
-- The lists of domains that NormalizeDomains and ParseDomainPools give.
use cosmo_nps.Base.{
  ◌≡◌, false, ◌||◌, List, [], ◌∷◌, ok, >>=-eq-ok, ok-injective, subst, inl, inr, Bool-cases, arith,
}
use cosmo_nps.Text.{Text, ◌==◌}
use cosmo_nps.Core.Domain.{normalize_domain, member, normalize_from, normalize_domains}

-- no domain is empty, occurs twice or is in `seen`, and each is what some text normalises to
abbrev pub IsCanonical : List Text → List Text → Type 0
IsCanonical seen [] = Unit
IsCanonical seen (d ∷ ds) =
    ((d == []) ≡ false)
    × (member d seen ≡ false)
    × ((v : Text) × (normalize_domain v ≡ ok d))
    × IsCanonical (d ∷ seen) ds

normalize_from-IsCanonical :
    (seen vs ds : List Text) → normalize_from seen vs ≡ ok ds → IsCanonical seen ds
unfolding normalize_from
normalize_from-IsCanonical seen [] ds h = subst (IsCanonical seen) (ok-injective h) tt
normalize_from-IsCanonical seen (v ∷ vs) ds h =
    let (d, normal, h1) = >>=-eq-ok (normalize_domain v) _ h in
    elim (Bool-cases (d == [] || member d seen)) [
      | inl skipped ↦
          let h1' = rw skipped at h1 in
          let (rest, walked, e) = >>=-eq-ok (normalize_from seen vs) _ h1' in
          subst (IsCanonical seen) (ok-injective e) (normalize_from-IsCanonical seen vs rest walked)
      | inr kept ↦
          let h1' = rw kept at h1 in
          let (rest, walked, e) = >>=-eq-ok (normalize_from (d ∷ seen) vs) _ h1' in
          subst (IsCanonical seen) (ok-injective e) (
            ground arith,
            ground arith,
            (v, normal),
            normalize_from-IsCanonical (d ∷ seen) vs rest walked,
          )
    ]

-- The domains that NormalizeDomains gives are not empty, have no repetition, and each is the normal
-- form of some text.
pub normalize_domains-IsCanonical :
    (vs ds : List Text) → normalize_domains vs ≡ ok ds → IsCanonical [] ds
unfolding normalize_domains
normalize_domains-IsCanonical vs ds h = normalize_from-IsCanonical [] vs ds h
