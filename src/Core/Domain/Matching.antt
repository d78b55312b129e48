-- ===== src/Core/Domain/Matching.antt =====
-- Which domains a pool covers.
use mathlib.Core.List.{reverse, reverse-append, reverse-reverse}
use cosmo_nps.Base.{
  ◌≡◌, ◌↔◌, ◌⊎◌, inl, inr, refl, sym, ap, ◌∙◌, true, false, List, [], ◌∷◌, ◌++◌, arith, length,
  length-append, Bool-cases, some,
}
use cosmo_nps.Text.{Text, str, ◌==◌, eq_iff, eq_refl}
use cosmo_nps.Text.Scan.{has_prefix, has_suffix, trim_prefix, strip_prefix}
use cosmo_nps.Core.Domain.{pool_covers, domain_in_pools}

-- `*` covers everything, a domain itself, and `*.base` every domain below `base`.
abbrev pub Covers : Text → Text → Type 0
Covers pool domain =
    (pool ≡ str "*")
    ⊎ ((pool ≡ domain)
        ⊎ ((base : Text) × (sub : Text) × (pool ≡ str "*." ++ base)
            × (domain ≡ sub ++ (b'.' ∷ base))))

abbrev pub CoveredBy : Text → List Text → Type 0
CoveredBy domain [] = ⊥
CoveredBy domain (pool ∷ pools) = Covers pool domain ⊎ CoveredBy domain pools

has_prefix→append : (s p : Text) → has_prefix s p ≡ true → (r : Text) × (s ≡ p ++ r)
unfolding has_prefix
has_prefix→append s [] h = (s, refl)
has_prefix→append [] (p ∷ ps) h = absurd (ground arith)
has_prefix→append (c ∷ s) (p ∷ ps) h =
    let (r, e) = has_prefix→append s ps (ground arith) in (r, ground arith)

has_prefix-append : (p r : Text) → has_prefix (p ++ r) p ≡ true
unfolding has_prefix
has_prefix-append [] r = refl
has_prefix-append (c ∷ p) r = ground (arith, has_prefix-append p r)

strip_prefix-append : (p r : Text) → strip_prefix (p ++ r) p ≡ some r
unfolding strip_prefix
strip_prefix-append [] r = refl
strip_prefix-append (c ∷ p) r = ground (arith, strip_prefix-append p r)

pub trim_prefix-append : (p r : Text) → trim_prefix (p ++ r) p ≡ r
unfolding trim_prefix
trim_prefix-append p r = rw (strip_prefix-append p r)

has_suffix→append : (s p : Text) → has_suffix s p ≡ true → (r : Text) × (s ≡ r ++ p)
unfolding has_suffix
has_suffix→append s p h =
    let (r, e) = has_prefix→append (reverse s) (reverse p) h in
    (
      reverse r,
      sym (reverse-reverse s)
          ∙ ap reverse e
          ∙ reverse-append (reverse p) r
          ∙ ap (λ t. reverse r ++ t) (reverse-reverse p),
    )

has_suffix-append : (r p : Text) → has_suffix (r ++ p) p ≡ true
unfolding has_suffix
has_suffix-append r p = rw (reverse-append r p) (has_prefix-append (reverse p) (reverse r))

longer-ne : (sub base : Text) → (sub ++ (b'.' ∷ base)) == base ≡ false
longer-ne sub base = elim (Bool-cases ((sub ++ (b'.' ∷ base)) == base)) [
  | inl same ↦ absurd (
      omega (
        arith,
        ap length ((eq_iff (sub ++ (b'.' ∷ base)) base).0 same),
        length-append sub (b'.' ∷ base),
      ))
  | inr other ↦ other
]

pool_covered : (domain pool : Text) → Covers pool domain → pool_covers domain pool ≡ true
unfolding pool_covers
pool_covered domain pool (inl e) = rw (e, eq_refl (str "*")) refl
pool_covered domain pool (inr (inl e)) = rw (e, eq_refl domain) (ground arith)
pool_covered domain pool (inr (inr (base, sub, p, d))) =
    rw
      (
        p,
        d,
        has_prefix-append (str "*.") base,
        trim_prefix-append (str "*.") base,
        longer-ne sub base,
        has_suffix-append sub (b'.' ∷ base),
      )
      (ground arith)

wildcard→Covers :
    (domain pool : Text)
    → has_prefix pool (str "*.") ≡ true
    → has_suffix domain (b'.' ∷ trim_prefix pool (str "*.")) ≡ true
    → Covers pool domain
wildcard→Covers domain pool h k =
    let (base, p) = has_prefix→append pool (str "*.") h in
    let (sub, d) = has_suffix→append domain (b'.' ∷ trim_prefix pool (str "*.")) k in
    inr (
      inr (
        base,
        sub,
        p,
        d
            ∙ ap (λ t. sub ++ (b'.' ∷ t))
                (ap (λ t. trim_prefix t (str "*.")) p ∙ trim_prefix-append (str "*.") base),
      ))

pool_covers→Covers : (domain pool : Text) → pool_covers domain pool ≡ true → Covers pool domain
unfolding pool_covers
pool_covers→Covers domain pool h = elim (Bool-cases (pool == str "*")) [
  | inl star ↦ inl ((eq_iff pool (str "*")).0 star)
  | inr not_star ↦ elim (Bool-cases (pool == domain)) [
    | inl same ↦ inr (inl ((eq_iff pool domain).0 same))
    | inr other ↦ wildcard→Covers domain pool (ground arith) (ground arith)
  ]
]

-- domainInPools accepts a domain exactly when some pool of the list covers it.
pub domain_in_pools_iff :
    (domain : Text) (pools : List Text)
    → (domain_in_pools domain pools ≡ true) ↔ CoveredBy domain pools
unfolding domain_in_pools
domain_in_pools_iff domain [] = (λ h. cc, λ h. absurd h)
domain_in_pools_iff domain (pool ∷ pools) =
    let ih = domain_in_pools_iff domain pools in
    (
      λ h. elim (Bool-cases (pool_covers domain pool)) [
        | inl here ↦ inl (pool_covers→Covers domain pool here)
        | inr there ↦ inr (ih.0 (ground arith))
      ],
      λ h. elim h [
        | inl here ↦ rw (pool_covered domain pool here)
        | inr there ↦ ground (arith, ih.1 there)
      ],
    )
