-- ===== src/Text/Split.antt =====
-- `strings.Split` and `strings.SplitN(s, sep, 2)` at a one-byte separator, and `strings.Join`.
use cosmo_nps.Base.{
  ℕ, ◌≡◌, ◌≢◌, refl, List, [], ◌∷◌, ◌++◌, arith, nat_eq, if◌then◌else◌, ap, All, All-append, ◌∙◌,
}
use cosmo_nps.Text.{Text}

abbrev cons_head : ℕ → List Text → List Text
cons_head c [] = (c ∷ []) ∷ []
cons_head c (x ∷ xs) = (c ∷ x) ∷ xs

unfoldable pub split : ℕ → Text → List Text
split sep [] = [] ∷ []
split sep (c ∷ s) = let rest = split sep s in if nat_eq c sep then [] ∷ rest else cons_head c rest

-- the parts of strings.SplitN(s, sep, 2) of a text that holds the separator
unfoldable pub split2 : ℕ → Text → Text × Text
split2 sep [] = ([], [])
split2 sep (c ∷ s) =
    let rest = split2 sep s in if nat_eq c sep then ([], s) else (c ∷ rest.0, rest.1)

unfoldable pub join : ℕ → List Text → Text
join sep [] = []
join sep (x ∷ []) = x
join sep (x ∷ y ∷ xs) = x ++ (sep ∷ join sep (y ∷ xs))

-- no byte of the text is `sep`
abbrev pub Lacks : ℕ → Text → Type 0
Lacks sep = All (λ c. c ≢ sep)

split-Lacks : (sep : ℕ) (x : Text) → Lacks sep x → split sep x ≡ x ∷ []
unfolding split
split-Lacks sep [] h = refl
split-Lacks sep (c ∷ s) h = ground (arith, split-Lacks sep s h.1)

split-append : (sep : ℕ) (x s : Text) → Lacks sep x → split sep (x ++ (sep ∷ s)) ≡ x ∷ split sep s
unfolding split
split-append sep [] s h = ground arith
split-append sep (c ∷ x) s h = ground (arith, split-append sep x s h.1)

-- Splitting what was joined gives the parts, unless a part holds the separator.
pub split-join :
    (sep : ℕ) (x : Text) (xs : List Text)
    → All (Lacks sep) (x ∷ xs)
    → split sep (join sep (x ∷ xs)) ≡ x ∷ xs
unfolding join
split-join sep x [] h = split-Lacks sep x h.0
split-join sep x (y ∷ xs) h = split-append sep x _ h.0 ∙ ap (◌∷◌ x) (split-join sep y xs h.1)

pub split2-append : (sep : ℕ) (x s : Text) → Lacks sep x → split2 sep (x ++ (sep ∷ s)) ≡ (x, s)
unfolding split2
split2-append sep [] s h = ground arith
split2-append sep (c ∷ x) s h = ground (arith, split2-append sep x s h.1)

pub join-All :
    (P : ℕ → Type 0) (sep : ℕ) (xs : List Text) → P sep → All (All P) xs → All P (join sep xs)
unfolding join
join-All P sep [] p h = tt
join-All P sep (x ∷ []) p h = h.0
join-All P sep (x ∷ y ∷ xs) p h = All-append P x _ h.0 (p, join-All P sep (y ∷ xs) p h.1)
