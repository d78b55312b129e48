-- ===== src/Text/Hex.antt =====
-- `hex.EncodeToString` and `hex.DecodeString`.
use cosmo_nps.Base.{
  ℕ, ◌+◌, ◌-◌, ◌*◌, ◌/◌, ◌%◌, ◌<◌, ◌≡◌, ◌≢◌, refl, ◌&&◌, Option, none, some, List, [], ◌∷◌, arith,
  leb, ltb, if◌then◌else◌, ap, All,
}
use cosmo_nps.Text.{Text}
use cosmo_nps.Text.Split.{Lacks}

unfoldable pub hex_digit : ℕ → ℕ
hex_digit n = if ltb n 10 then 48 + n else 87 + n

unfoldable pub hex_encode : List ℕ → Text
unfolding hex_digit
hex_encode [] = []
hex_encode (b ∷ bs) = hex_digit (b / 16 % 16) ∷ hex_digit (b % 16) ∷ hex_encode bs

unfoldable pub hex_value : ℕ → Option ℕ
hex_value c =
    if leb b'0' c && leb c b'9'
    then some (c - 48)
    else if leb b'a' c && leb c b'f'
    then some (c - 87)
    else if leb b'A' c && leb c b'F'
    then some (c - 55)
    else none

abbrev cons_byte : Option ℕ → Option ℕ → Option (List ℕ) → Option (List ℕ)
cons_byte (some h) (some l) (some bs) = some ((h * 16 + l) ∷ bs)
cons_byte (some h) (some l) none = none
cons_byte (some h) none r = none
cons_byte none l r = none

-- none where Go returns an error
unfoldable pub hex_decode : Text → Option (List ℕ)
unfolding hex_value
hex_decode [] = some []
hex_decode (c ∷ []) = none
hex_decode (c ∷ d ∷ s) = cons_byte (hex_value c) (hex_value d) (hex_decode s)

abbrev pub AreBytes : List ℕ → Type 0
AreBytes = All (λ b. b < 256)

hex_value-hex_digit : (n : ℕ) → n < 16 → hex_value (hex_digit n) ≡ some n
unfolding hex_value hex_digit
hex_value-hex_digit n h = ground arith

-- Decoding gives back the bytes that were encoded.
pub hex_decode-hex_encode : (bs : List ℕ) → AreBytes bs → hex_decode (hex_encode bs) ≡ some bs
unfolding hex_decode hex_encode
hex_decode-hex_encode [] h = refl
hex_decode-hex_encode (b ∷ bs) h =
    rw
      (
        hex_value-hex_digit (b / 16 % 16) (omega arith),
        hex_value-hex_digit (b % 16) (omega arith),
        hex_decode-hex_encode bs h.1,
      )
      (ap (λ (x : ℕ). some (x ∷ bs)) (omega (arith, h.0)))

hex_digit-ne_colon : (n : ℕ) → n < 16 → hex_digit n ≢ b':'
unfolding hex_digit
hex_digit-ne_colon n h = ground arith

-- An encoded text holds no colon.
pub hex_encode-Lacks : (bs : List ℕ) → Lacks b':' (hex_encode bs)
unfolding hex_encode
hex_encode-Lacks [] = tt
hex_encode-Lacks (b ∷ bs) = (
  hex_digit-ne_colon (b / 16 % 16) (omega arith),
  (hex_digit-ne_colon (b % 16) (omega arith), hex_encode-Lacks bs),
)
