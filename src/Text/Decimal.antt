-- ===== src/Text/Decimal.antt =====
-- Decimal numerals: `strconv.Itoa`, `%d` and `strconv.Atoi`.
use cosmo_nps.Base.{
  ℕ, zero, suc, ◌+◌, ◌-◌, ◌*◌, ◌/◌, ◌%◌, ◌^◌, ◌<◌, ◌≡◌, ◌≢◌, refl, Bool, true, ◌&&◌, Option, none,
  some, [], ◌∷◌, ◌++◌, arith, leb, ltb, nat_eq, if◌then◌else◌, ap, All, All-append, ◌∙◌, ℤ, pos,
  negsuc, Bool-cases, inl, inr,
}
use cosmo_nps.Text.{Text}

-- The digits of `n`, with fuel above `n`.
unfoldable pub digits : ℕ → ℕ → Text
digits zero n = []
digits (suc f) n =
    let more = digits f (n / 10) ++ ((48 + n % 10) ∷ []) in if ltb n 10 then (48 + n) ∷ [] else more

unfoldable pub decimal : ℕ → Text
unfolding digits
decimal n = digits (suc n) n

-- strconv.Itoa, and `%d` of a signed integer
unfoldable pub itoa : ℤ → Text
unfolding decimal
itoa (pos n) = decimal n
itoa (negsuc n) = b'-' ∷ decimal (suc n)

unfoldable pub is_digit : ℕ → Bool
is_digit c = leb 48 c && leb c 57

-- the number that the digits stand for behind the digits read so far
unfoldable pub value : ℕ → Text → Option ℕ
unfolding is_digit
value acc [] = some acc
value acc (c ∷ s) = let rest = value (acc * 10 + (c - 48)) s in if is_digit c then rest else none

-- at least one digit
unsigned : Text → Option ℕ
unfolding value
unsigned [] = none
unsigned (c ∷ s) = value 0 (c ∷ s)

abbrev in_range : ℕ → (ℕ → ℤ) → Option ℕ → Option ℤ
in_range bound f none = none
in_range bound f (some n) = if ltb n bound then some (f n) else none

abbrev negate : ℕ → ℤ
negate zero = pos 0
negate (suc n) = negsuc n

-- strconv.Atoi: an optional sign and digits, within int64
unfoldable pub atoi : Text → Option ℤ
unfolding unsigned
atoi [] = none
atoi (c ∷ s) =
    if nat_eq c b'+'
    then in_range (2 ^ 63) pos (unsigned s)
    else if nat_eq c b'-'
    then in_range (2 ^ 63 + 1) negate (unsigned s)
    else in_range (2 ^ 63) pos (unsigned (c ∷ s))

abbrev pub AreDigits : Text → Type 0
AreDigits = All (λ c. is_digit c ≡ true)

digits-AreDigits : (f n : ℕ) → AreDigits (digits f n)
unfolding digits is_digit
digits-AreDigits zero n = tt
digits-AreDigits (suc f) n = elim (Bool-cases (ltb n 10)) [
  | inl small ↦ rw small (ground arith, tt)
  | inr large ↦
      rw large (All-append _ (digits f (n / 10)) _ (digits-AreDigits f (n / 10)) (ground arith, tt))
]

pub decimal-AreDigits : (n : ℕ) → AreDigits (decimal n)
unfolding decimal
decimal-AreDigits n = digits-AreDigits (suc n) n

abbrev extend : Option ℕ → ℕ → Option ℕ
extend none d = none
extend (some v) d = some (v * 10 + d)

value-concat :
    (acc : ℕ) (s : Text) (d : ℕ)
    → d < 10
    → value acc (s ++ ((48 + d) ∷ [])) ≡ extend (value acc s) d
unfolding value is_digit
value-concat acc [] d h = ground arith
value-concat acc (c ∷ s) d h = ground (arith, value-concat (acc * 10 + (c - 48)) s d h)

value-digits : (f n : ℕ) → n < f → value 0 (digits f n) ≡ some n
unfolding digits value is_digit
value-digits zero n h = elim h [ ]
value-digits (suc f) n h = elim (Bool-cases (ltb n 10)) [
  | inl small ↦ rw small (ground arith)
  | inr large ↦ rw large (
      value-concat 0 (digits f (n / 10)) (n % 10) (omega arith)
      ∙ ap (λ o. extend o (n % 10)) (value-digits f (n / 10) (ground arith))
      ∙ ap some (omega arith))
]

pub value-decimal : (n : ℕ) → value 0 (decimal n) ≡ some n
unfolding decimal
value-decimal n = value-digits (suc n) n (omega arith)

concat-ne-nil : (s : Text) (c : ℕ) → s ++ (c ∷ []) ≢ []
concat-ne-nil [] c e = cc
concat-ne-nil (d ∷ s) c e = cc

digits-ne-nil : (f n : ℕ) → digits (suc f) n ≢ []
unfolding digits
digits-ne-nil f n = elim (Bool-cases (ltb n 10)) [
  | inl small ↦ rw small (λ e. cc)
  | inr large ↦ rw large (concat-ne-nil (digits f (n / 10)) (48 + n % 10))
]

-- A text of digits is read as its value.
atoi-digits :
    (s : Text) (n : ℕ)
    → AreDigits s
    → s ≢ []
    → value 0 s ≡ some n
    → n < 2 ^ 63
    → atoi s ≡ some (pos n)
unfolding atoi is_digit
atoi-digits [] n d ne v h = absurd (ne refl)
atoi-digits (c ∷ s) n d ne v h = ground arith

-- Atoi reads back what Itoa prints, for every number in the range of int64.
pub atoi-itoa : (n : ℕ) → n < 2 ^ 63 → atoi (itoa (pos n)) ≡ some (pos n)
unfolding itoa
atoi-itoa n h =
    atoi-digits (decimal n) n (decimal-AreDigits n) (unfold decimal in digits-ne-nil n n)
      (value-decimal n) h

pub decimal-ne-nil : (n : ℕ) → decimal n ≢ []
unfolding decimal
decimal-ne-nil n = digits-ne-nil n n
