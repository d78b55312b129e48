-- ===== src/Core/Port/Sound.antt =====
-- What a parsed list of port ranges guarantees.
use cosmo_nps.Base.{
  ◌≡◌, true, Option, none, some, List, [], ◌∷◌, ℤ, pos, ◌≤ℤ◌, arith, All, ok, Bool-cases, inl, inr,
  >>=-eq-ok, ◌⊎◌, ◌↔◌, subst, ok-injective,
}
use cosmo_nps.Text.{Text, ◌==◌}
use cosmo_nps.Text.Scan.{trim_space}
use cosmo_nps.Text.Split.{split, split2}
use cosmo_nps.Text.Decimal.{atoi}
use cosmo_nps.Core.Port.{
  PortRange, port_in_ranges, check_port, parse_port, parse_part, parse_parts, parse_port_ranges,
  cons_range,
}

-- 1 ≤ start ≤ end ≤ 65535
pub record IsPortRange (r : PortRange) : Type 0 where
  pub low : pos 1 ≤ℤ r.start
  pub ordered : r.start ≤ℤ r.end
  pub high : r.end ≤ℤ pos 65535

abbrev IsPort : ℤ → Type 0
IsPort p = (pos 1 ≤ℤ p) × (p ≤ℤ pos 65535)

check_port-IsPort : (s : Text) (o : Option ℤ) (p : ℤ) → check_port s o ≡ ok p → IsPort p
check_port-IsPort s none p h = cc
check_port-IsPort s (some q) p h = ground arith

pub parse_port-IsPort : (s : Text) (p : ℤ) → parse_port s ≡ ok p → IsPort p
unfolding parse_port
parse_port-IsPort s p h = check_port-IsPort s (atoi (trim_space s)) p h

abbrev Valid? : Option PortRange → Type 0
Valid? none = Unit
Valid? (some r) = IsPortRange r

parse_part-valid : (s : Text) (o : Option PortRange) → parse_part s ≡ ok o → Valid? o
unfolding parse_part
parse_part-valid s none h = tt
parse_part-valid s (some r) h = ground (
  arith,
  parse_port-IsPort (split2 b'-' s).0 r.start,
  parse_port-IsPort (split2 b'-' s).1 r.end,
  parse_port-IsPort s r.start,
)

cons_range-valid :
    (o : Option PortRange) (rs : List PortRange)
    → Valid? o
    → All IsPortRange rs
    → All IsPortRange (cons_range o rs)
cons_range-valid none rs h k = k
cons_range-valid (some r) rs h k = (h, k)

parse_parts-valid :
    (parts : List Text) (rs : List PortRange) → parse_parts parts ≡ ok rs → All IsPortRange rs
unfolding parse_parts
parse_parts-valid [] rs h = subst (All IsPortRange) (ok-injective h) tt
parse_parts-valid (part ∷ parts) rs h =
    let (o, parsed, h') = >>=-eq-ok (parse_part (trim_space part)) _ h in
    let (rest, parsed_rest, e) = >>=-eq-ok (parse_parts parts) _ h' in
    subst (All IsPortRange) (ok-injective e) (
      cons_range-valid o rest (parse_part-valid (trim_space part) o parsed)
        (parse_parts-valid parts rest parsed_rest))

-- Every range of a list that parses is non-empty and lies within 1..65535.
pub parse_port_ranges-valid :
    (input : Text) (rs : List PortRange) → parse_port_ranges input ≡ ok rs → All IsPortRange rs
unfolding parse_port_ranges
parse_port_ranges-valid input rs h = elim (Bool-cases (trim_space input == [])) [
  | inl blank ↦ subst (All IsPortRange) (ok-injective (rw blank at h)) tt
  | inr some_text ↦ parse_parts-valid (split b',' (trim_space input)) rs (rw some_text at h)
]

-- some range of the list holds the port
abbrev pub Within : ℤ → List PortRange → Type 0
Within p [] = ⊥
Within p (r ∷ rs) = ((r.start ≤ℤ p) × (p ≤ℤ r.end)) ⊎ Within p rs

-- A port passes the test against a list exactly when some range of the list holds it.
pub port_in_ranges_iff : (p : ℤ) (rs : List PortRange) → (port_in_ranges p rs ≡ true) ↔ Within p rs
unfolding port_in_ranges
port_in_ranges_iff p [] = (λ h. cc, λ h. absurd h)
port_in_ranges_iff p (r ∷ rs) =
    let ih = port_in_ranges_iff p rs in (λ h. ground (arith, ih.0), λ h. ground (arith, ih.1))
