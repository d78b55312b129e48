-- ===== src/Core/Port.antt =====
-- Port ranges (internal/core/types.go): parsing, printing and membership.
pub mod Sound
pub mod RoundTrip
use cosmo_nps.Base.{
  Bool, true, false, ◌&&◌, ◌||◌, Option, none, some, List, [], ◌∷◌, ◌++◌, map, if◌then◌else◌, ℤ,
  pos, ltb_ℤ, leb_ℤ, eqb_ℤ, Result, ok, err, ◌>>=◌, ◌>>◌, refuse,
}
use cosmo_nps.Text.{Text, str, ◌==◌}
use cosmo_nps.Text.Scan.{trim_space, contains_byte}
use cosmo_nps.Text.Split.{split, split2, join}
use cosmo_nps.Text.Decimal.{itoa, atoi}

pub record PortRange : Type 0 where
  pub start : ℤ
  pub end : ℤ

pub data PortError : Type 0 where
  invalid_port : Text → PortError
  out_of_range : ℤ → PortError
  invalid_range : Text → PortError

unfoldable pub range_contains : PortRange → ℤ → Bool
range_contains r port = leb_ℤ r.start port && leb_ℤ port r.end

unfoldable pub range_string : PortRange → Text
range_string r = if eqb_ℤ r.start r.end then itoa r.start else itoa r.start ++ (b'-' ∷ itoa r.end)

abbrev check_port : Text → Option ℤ → Result PortError ℤ
check_port input none = err (invalid_port input)
check_port input (some port) =
    if ltb_ℤ port (pos 1) || ltb_ℤ (pos 65535) port then err (out_of_range port) else ok port

unfoldable pub parse_port : Text → Result PortError ℤ
parse_port input = check_port input (atoi (trim_space input))

-- one part of the list; none where the loop goes on with the next part
parse_part : Text → Result PortError (Option PortRange)
unfolding parse_port
parse_part part =
    if part == []
    then ok none
    else if contains_byte part b'-'
    then (do
      let bounds = split2 b'-' part
      start ← parse_port bounds.0
      end ← parse_port bounds.1
      refuse (ltb_ℤ end start) (invalid_range part)
      ok (some (record { start = start; end = end })))
    else do port ← parse_port part; ok (some (record { start = port; end = port }))

abbrev cons_range : Option PortRange → List PortRange → List PortRange
cons_range none rs = rs
cons_range (some r) rs = r ∷ rs

parse_parts : List Text → Result PortError (List PortRange)
unfolding parse_part
parse_parts [] = ok []
parse_parts (part ∷ parts) =
    let rest = parse_parts parts in
    do r ← parse_part (trim_space part); rs ← rest; ok (cons_range r rs)

unfoldable pub parse_port_ranges : Text → Result PortError (List PortRange)
unfolding parse_parts
parse_port_ranges input =
    let trimmed = trim_space input in
    if trimmed == [] then ok [] else parse_parts (split b',' trimmed)

unfoldable pub format_port_ranges : List PortRange → Text
unfolding range_string
format_port_ranges ranges = join b',' (map range_string ranges)

-- portInRanges of internal/core/store.go
unfoldable pub port_in_ranges : ℤ → List PortRange → Bool
unfolding range_contains
port_in_ranges port [] = false
port_in_ranges port (r ∷ ranges) = range_contains r port || port_in_ranges port ranges
