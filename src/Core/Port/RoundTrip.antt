-- ===== src/Core/Port/RoundTrip.antt =====
-- Printing a list of port ranges and parsing it again.
use cosmo_nps.Base.{
  ℕ, ◌≡◌, ◌≢◌, refl, true, false, some, List, [], ◌∷◌, ◌++◌, map, ℤ, pos, negsuc, ◌≤ℤ◌, arith, All,
  eqb_ℤ, eq_of_parts, ◌||◌, ok, Bool-cases, inl, inr, ap, All-append, All-mono, nat_eq,
}
use cosmo_nps.Text.{Text, ◌==◌}
use cosmo_nps.Text.Scan.{
  trim_space, is_space, contains_byte-lacks, contains_byte-middle, trim_space-Solid, Solid,
}
use cosmo_nps.Text.Split.{split, join, Lacks, split-join, split2-append, join-All}
use cosmo_nps.Text.Decimal.{
  itoa, decimal, is_digit, decimal-AreDigits, atoi-itoa, AreDigits, decimal-ne-nil,
}
use cosmo_nps.Core.Port.{
  PortRange, range_string, parse_port, parse_part, parse_parts, parse_port_ranges,
  format_port_ranges,
}
use cosmo_nps.Core.Port.Sound.{IsPortRange}

-- a byte of a printed range
abbrev IsRangeByte : ℕ → Type 0
IsRangeByte c = (is_digit c || nat_eq c b'-') ≡ true

abbrev IsListByte : ℕ → Type 0
IsListByte c = (is_digit c || nat_eq c b'-' || nat_eq c b',') ≡ true

digit-IsRangeByte : (c : ℕ) → is_digit c ≡ true → IsRangeByte c
digit-IsRangeByte c h = ground arith

digit-ne_dash : (c : ℕ) → is_digit c ≡ true → c ≢ b'-'
unfolding is_digit
digit-ne_dash c h = ground arith

range_byte-ne_comma : (c : ℕ) → IsRangeByte c → c ≢ b','
unfolding is_digit
range_byte-ne_comma c h = ground arith

IsRangeByte→IsListByte : (c : ℕ) → IsRangeByte c → IsListByte c
IsRangeByte→IsListByte c h = ground arith

list_byte-solid : (c : ℕ) → IsListByte c → is_space c ≡ false
unfolding is_digit is_space
list_byte-solid c h = ground arith

decimal-Solid : (n : ℕ) → Solid (decimal n)
decimal-Solid n =
    All-mono _ _ (decimal n)
      (λ c d. list_byte-solid c (IsRangeByte→IsListByte c (digit-IsRangeByte c d)))
      (decimal-AreDigits n)

parse_port-itoa : (p : ℤ) → pos 1 ≤ℤ p → p ≤ℤ pos 65535 → parse_port (itoa p) ≡ ok p
unfolding parse_port
parse_port-itoa (negsuc n) h k = absurd (omega arith)
parse_port-itoa (pos n) h k =
    rw (trim_space-Solid (itoa (pos n)) (unfold itoa in decimal-Solid n), atoi-itoa n (omega arith))
      (ground arith)

-- what the proofs use of the numeral of a port
record IsNumeral (s : Text) : Type 0 where
  digits : AreDigits s
  ne_nil : s ≢ []

itoa-IsNumeral : (p : ℤ) → pos 1 ≤ℤ p → IsNumeral (itoa p)
unfolding itoa
itoa-IsNumeral (negsuc n) h = absurd (omega arith)
itoa-IsNumeral (pos n) h = record { digits = decimal-AreDigits n; ne_nil = decimal-ne-nil n }

range_string-bytes : (r : PortRange) → IsPortRange r → All IsRangeByte (range_string r)
unfolding range_string is_digit
range_string-bytes r h =
    let low = itoa-IsNumeral r.start h.low in
    let high = itoa-IsNumeral r.end (omega (arith, h.low, h.ordered)) in
    let lows = All-mono _ IsRangeByte (itoa r.start) digit-IsRangeByte low.digits in
    elim (Bool-cases (eqb_ℤ r.start r.end)) [
      | inl single ↦ rw single lows
      | inr wide ↦ rw wide (
          All-append IsRangeByte (itoa r.start) _ lows
            (refl, All-mono _ IsRangeByte (itoa r.end) digit-IsRangeByte high.digits))
    ]

ne-nil-eq : (s : Text) → s ≢ [] → (s == []) ≡ false
unfolding ◌==◌
ne-nil-eq [] h = absurd (h refl)
ne-nil-eq (c ∷ s) h = refl

append-ne-nil : (s t : Text) → s ≢ [] → (s ++ t) ≢ []
append-ne-nil [] t h = absurd (h refl)
append-ne-nil (c ∷ s) t h = λ e. cc

parse_part-single :
    (r : PortRange)
    → IsPortRange r
    → eqb_ℤ r.start r.end ≡ true
    → parse_part (itoa r.start) ≡ ok (some r)
unfolding parse_part
parse_part-single r h single =
    let low = itoa-IsNumeral r.start h.low in
    rw
      (
        ne-nil-eq (itoa r.start) low.ne_nil,
        contains_byte-lacks (itoa r.start) b'-'
            (All-mono _ _ (itoa r.start) digit-ne_dash low.digits),
        parse_port-itoa r.start h.low (omega (arith, h.ordered, h.high)),
      )
      (ap (λ e. ok (some (record { start = r.start; end = e })))
        (eq_of_parts r.start r.end (ground arith)))

parse_part-wide :
    (r : PortRange) → IsPortRange r → parse_part (itoa r.start ++ (b'-' ∷ itoa r.end)) ≡ ok (some r)
unfolding parse_part
parse_part-wide r h =
    let low = itoa-IsNumeral r.start h.low in
    rw
      (
        ne-nil-eq _ (append-ne-nil (itoa r.start) (b'-' ∷ itoa r.end) low.ne_nil),
        contains_byte-middle (itoa r.start) (itoa r.end) b'-',
        split2-append b'-' (itoa r.start) (itoa r.end)
            (All-mono _ _ (itoa r.start) digit-ne_dash low.digits),
        parse_port-itoa r.start h.low (omega (arith, h.ordered, h.high)),
        parse_port-itoa r.end (omega (arith, h.low, h.ordered)) h.high,
      )
      (ground (arith, h.ordered))

range_string-ne_nil : (r : PortRange) → IsPortRange r → range_string r ≢ []
unfolding range_string
range_string-ne_nil r h =
    let low = itoa-IsNumeral r.start h.low in
    elim (Bool-cases (eqb_ℤ r.start r.end)) [
      | inl single ↦ rw single low.ne_nil
      | inr wide ↦ rw wide (append-ne-nil (itoa r.start) _ low.ne_nil)
    ]

parse_part-range_string :
    (r : PortRange) → IsPortRange r → parse_part (trim_space (range_string r)) ≡ ok (some r)
unfolding range_string
parse_part-range_string r h =
    rw
      (trim_space-Solid (range_string r) (
        All-mono _ _ (range_string r) (λ c b. list_byte-solid c (IsRangeByte→IsListByte c b))
          (range_string-bytes r h)))
      elim (Bool-cases (eqb_ℤ r.start r.end)) [
        | inl single ↦ rw single (parse_part-single r h single)
        | inr wide ↦ rw wide (parse_part-wide r h)
      ]

parse_parts-range_strings :
    (rs : List PortRange) → All IsPortRange rs → parse_parts (map range_string rs) ≡ ok rs
unfolding parse_parts
parse_parts-range_strings [] h = refl
parse_parts-range_strings (r ∷ rs) h =
    rw (parse_part-range_string r h.0, parse_parts-range_strings rs h.1)

range_strings-bytes :
    (rs : List PortRange) → All IsPortRange rs → All (All IsRangeByte) (map range_string rs)
range_strings-bytes [] h = tt
range_strings-bytes (r ∷ rs) h = (range_string-bytes r h.0, range_strings-bytes rs h.1)

format-solid :
    (rs : List PortRange)
    → All IsPortRange rs
    → trim_space (format_port_ranges rs) ≡ format_port_ranges rs
unfolding format_port_ranges is_digit
format-solid rs h = trim_space-Solid _ (
    All-mono IsListByte _ (join b',' (map range_string rs)) list_byte-solid (
      join-All IsListByte b',' (map range_string rs) refl (
        All-mono (All IsRangeByte) (All IsListByte) (map range_string rs)
          (λ s. All-mono _ _ s IsRangeByte→IsListByte) (range_strings-bytes rs h))))

join-ne-nil : (sep : ℕ) (s : Text) (xs : List Text) → s ≢ [] → join sep (s ∷ xs) ≢ []
unfolding join
join-ne-nil sep s [] h = h
join-ne-nil sep s (y ∷ xs) h = append-ne-nil s _ h

format-ne_nil :
    (r : PortRange) (rs : List PortRange) → IsPortRange r → format_port_ranges (r ∷ rs) ≢ []
unfolding format_port_ranges
format-ne_nil r rs h = join-ne-nil b',' _ (map range_string rs) (range_string-ne_nil r h)

split-format :
    (r : PortRange) (rs : List PortRange)
    → All IsPortRange (r ∷ rs)
    → split b',' (format_port_ranges (r ∷ rs)) ≡ map range_string (r ∷ rs)
unfolding format_port_ranges
split-format r rs h = split-join b',' (range_string r) (map range_string rs) (
    All-mono (All IsRangeByte) (Lacks b',') (map range_string (r ∷ rs))
      (λ s. All-mono _ _ s range_byte-ne_comma) (range_strings-bytes (r ∷ rs) h))

parse-format_nil : parse_port_ranges (format_port_ranges []) ≡ ok []
unfolding parse_port_ranges format_port_ranges ◌==◌ trim_space join
parse-format_nil = refl

-- ParsePortRanges reads back what FormatPortRanges prints, for every list of ranges within
-- 1..65535.
pub parse-format :
    (rs : List PortRange) → All IsPortRange rs → parse_port_ranges (format_port_ranges rs) ≡ ok rs
unfolding parse_port_ranges
parse-format [] h = parse-format_nil
parse-format (r ∷ rs) h =
    rw
      (
        format-solid (r ∷ rs) h,
        ne-nil-eq (format_port_ranges (r ∷ rs)) (format-ne_nil r rs h.0),
        split-format r rs h,
      )
      (parse_parts-range_strings (r ∷ rs) h)
