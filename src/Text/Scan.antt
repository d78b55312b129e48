-- ===== src/Text/Scan.antt =====
-- Prefixes, suffixes, blanks and letter case: `strings.HasPrefix` and its relatives.
use mathlib.Core.List.{reverse, reverse-append, reverse-reverse}
use cosmo_nps.Base.{
  ℕ, ◌+◌, ◌≡◌, ◌≢◌, refl, Bool, true, false, ◌&&◌, ◌||◌, Option, none, some, [], ◌∷◌, ◌++◌, map,
  arith, leb, nat_eq, if◌then◌else◌, All, All-append,
}
use cosmo_nps.Text.{Text}

-- strings.HasPrefix(s, p)
unfoldable pub has_prefix : Text → Text → Bool
has_prefix s [] = true
has_prefix [] (p ∷ ps) = false
has_prefix (c ∷ s) (p ∷ ps) = nat_eq c p && has_prefix s ps

-- the rest of `s` behind the prefix `p`
unfoldable pub strip_prefix : Text → Text → Option Text
strip_prefix s [] = some s
strip_prefix [] (p ∷ ps) = none
strip_prefix (c ∷ s) (p ∷ ps) = let rest = strip_prefix s ps in if nat_eq c p then rest else none

abbrev or_else : Option Text → Text → Text
or_else none s = s
or_else (some r) s = r

-- strings.TrimPrefix(s, p)
unfoldable pub trim_prefix : Text → Text → Text
unfolding strip_prefix
trim_prefix s p = or_else (strip_prefix s p) s

-- strings.HasSuffix(s, p)
unfoldable pub has_suffix : Text → Text → Bool
unfolding has_prefix
has_suffix s p = has_prefix (reverse s) (reverse p)

-- strings.TrimSuffix(s, p)
unfoldable pub trim_suffix : Text → Text → Text
unfolding strip_prefix
trim_suffix s p = elim (strip_prefix (reverse s) (reverse p)) [ none ↦ s | some r ↦ reverse r ]

-- strings.Contains(s, p)
unfoldable pub contains : Text → Text → Bool
unfolding has_prefix
contains [] p = has_prefix [] p
contains (c ∷ s) p = has_prefix (c ∷ s) p || contains s p

-- a one-byte `strings.Contains`
unfoldable pub contains_byte : Text → ℕ → Bool
contains_byte [] b = false
contains_byte (c ∷ s) b = nat_eq c b || contains_byte s b

-- space, \t, \n, \v, \f and \r
unfoldable pub is_space : ℕ → Bool
is_space c = nat_eq c 32 || (leb 9 c && leb c 13)

unfoldable pub trim_left : Text → Text
unfolding is_space
trim_left [] = []
trim_left (c ∷ s) = let rest = trim_left s in if is_space c then rest else c ∷ s

-- strings.TrimSpace(s)
unfoldable pub trim_space : Text → Text
unfolding trim_left
trim_space s = reverse (trim_left (reverse (trim_left s)))

unfoldable pub lower_byte : ℕ → ℕ
lower_byte c = if leb b'A' c && leb c b'Z' then c + 32 else c

-- strings.ToLower(s)
unfoldable pub to_lower : Text → Text
unfolding lower_byte
to_lower = map lower_byte

-- s[:i] for i = strings.IndexAny(s, chars), or s if none of `chars` occurs
unfoldable pub before_any : Text → Text → Text
unfolding contains_byte
before_any chars [] = []
before_any chars (c ∷ s) = if contains_byte chars c then [] else c ∷ before_any chars s

-- no byte of the text is a blank
abbrev pub Solid : Text → Type 0
Solid = All (λ c. is_space c ≡ false)

trim_left-Solid : (s : Text) → Solid s → trim_left s ≡ s
unfolding trim_left
trim_left-Solid [] h = refl
trim_left-Solid (c ∷ s) h = ground (arith, h.0)

All-reverse : (P : ℕ → Type 0) (s : Text) → All P s → All P (reverse s)
All-reverse P [] h = tt
All-reverse P (c ∷ s) h =
    rw (reverse-append (c ∷ []) s)
      (All-append P (reverse s) (c ∷ []) (All-reverse P s h.1) (h.0, tt))

-- A text without blanks is its own trimming.
pub trim_space-Solid : (s : Text) → Solid s → trim_space s ≡ s
unfolding trim_space
trim_space-Solid s h =
    rw (trim_left-Solid s h, trim_left-Solid (reverse s) (All-reverse _ s h)) (reverse-reverse s)

pub contains_byte-lacks : (s : Text) (b : ℕ) → All (λ c. c ≢ b) s → contains_byte s b ≡ false
unfolding contains_byte
contains_byte-lacks [] b h = refl
contains_byte-lacks (c ∷ s) b h = ground (arith, h.0, contains_byte-lacks s b h.1)

pub contains_byte-middle : (s t : Text) (b : ℕ) → contains_byte (s ++ (b ∷ t)) b ≡ true
unfolding contains_byte
contains_byte-middle [] t b = ground arith
contains_byte-middle (c ∷ s) t b = ground (arith, contains_byte-middle s t b)
