-- ===== src/Text.antt =====
-- Go strings as byte sequences, with the functions of `strings` and `strconv` that the program
-- calls in the modules below. Outside ASCII no letter has a case and no character is a blank.
pub mod Scan
pub mod Split
pub mod Decimal
pub mod Hex
pub mod Order
use Prim.Native.Char.{code}
use cosmo_nps.Base.{
  ℕ, ◌≡◌, ◌↔◌, refl, String, Bool, true, false, ◌&&◌, List, [], ◌∷◌, arith, nat_eq, ap, ◌≢◌,
}

abbrev pub Text : Type 0
Text = List ℕ

codes : String → Text
codes String.[] = []
codes (String.◌∷◌ c s) = code c ∷ codes s

-- A string literal.
unfoldable pub str : String → Text
unfolding codes
str s = codes s

infix 50 ◌==◌
unfoldable pub ◌==◌ : Text → Text → Bool
[] == [] = true
[] == (y ∷ ys) = false
(x ∷ xs) == [] = false
(x ∷ xs) == (y ∷ ys) = nat_eq x y && xs == ys

pub eq→≡ : (s t : Text) → (s == t) ≡ true → s ≡ t
unfolding ◌==◌
eq→≡ [] [] h = refl
eq→≡ [] (y ∷ ys) h = cc
eq→≡ (x ∷ xs) [] h = cc
eq→≡ (x ∷ xs) (y ∷ ys) h = ground (arith, eq→≡ xs ys)

pub eq_refl : (s : Text) → (s == s) ≡ true
unfolding ◌==◌
eq_refl [] = refl
eq_refl (x ∷ xs) = ground (arith, eq_refl xs)

≡→eq : (s t : Text) → s ≡ t → (s == t) ≡ true
≡→eq s t p = rw p (eq_refl t)

pub eq_iff : (s t : Text) → ((s == t) ≡ true) ↔ (s ≡ t)
eq_iff s t = (eq→≡ s t, ≡→eq s t)
