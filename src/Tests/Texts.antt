-- ===== src/Tests/Texts.antt =====
-- Tests of the ports, the domains and the password hashes.
use cosmo_nps.Base.{List, ◌≡◌, refl, ◌↔◌, true, [], ◌∷◌, ok, All, arith}
use cosmo_nps.Text.{Text, str, ◌==◌}
use cosmo_nps.Text.Scan.{
  trim_space, contains_byte, before_any, has_prefix, has_suffix, to_lower, trim_prefix, trim_suffix,
}
use cosmo_nps.Text.Split.{split, split2}
use cosmo_nps.Text.Decimal.{atoi}
use cosmo_nps.Core.Port.{parse_port_ranges, format_port_ranges}
use cosmo_nps.Core.Port.Sound.{IsPortRange, parse_port_ranges-valid}
use cosmo_nps.Core.Port.RoundTrip.{parse-format}
use cosmo_nps.Core.Domain.{
  domain_in_pools, normalize_domains, accept_domain, normalize_domain, strip_domain,
  validate_domain,
}
use cosmo_nps.Core.Domain.Canonical.{IsCanonical, normalize_domains-IsCanonical}
use cosmo_nps.Core.Domain.Matching.{CoveredBy, domain_in_pools_iff}
use cosmo_nps.Text.Order.{sort_by}
use cosmo_nps.Core.Model.{User, role_user}
use cosmo_nps.Core.Clients.{nps_clients}
use cosmo_nps.Core.Clients.Numbered.{IsListing, export-IsListing}
use cosmo_nps.Tests.Data.{web_range, ssh_range, alice}

parse-format_example :
    parse_port_ranges (format_port_ranges (ssh_range ∷ web_range ∷ []))
    ≡ ok (ssh_range ∷ web_range ∷ [])
parse-format_example = parse-format (ssh_range ∷ web_range ∷ []) (
  record { low = omega arith; ordered = omega arith; high = omega arith },
  (record { low = omega arith; ordered = omega arith; high = omega arith }, tt),
)

parses_two : parse_port_ranges (str " 22, 8000-8010 ") ≡ ok (ssh_range ∷ web_range ∷ [])
unfolding parse_port_ranges ◌==◌ trim_space str split contains_byte atoi split2
parses_two = refl

parse_port_ranges-valid_example : All IsPortRange (ssh_range ∷ web_range ∷ [])
parse_port_ranges-valid_example =
    parse_port_ranges-valid (str " 22, 8000-8010 ") (ssh_range ∷ web_range ∷ []) parses_two

domain_in_pools_iff_example :
    (domain_in_pools (str "a.example.com") (str "*.example.com" ∷ []) ≡ true)
    ↔ CoveredBy (str "a.example.com") (str "*.example.com" ∷ [])
domain_in_pools_iff_example = domain_in_pools_iff (str "a.example.com") (str "*.example.com" ∷ [])

abbrev two_domains : List Text
two_domains = str "a.example.com" ∷ str "*.example.com" ∷ []

normalizes_two :
    normalize_domains
      (str "https://A.example.com/x" ∷ str " *.example.com. " ∷ str "a.example.com:80" ∷ [])
    ≡ ok two_domains
unfolding normalize_domains normalize_domain accept_domain ◌==◌ strip_domain trim_suffix str
    before_any trim_prefix trim_space to_lower has_prefix validate_domain split has_suffix
normalizes_two = refl

normalize_domains-IsCanonical_example : IsCanonical [] two_domains
normalize_domains-IsCanonical_example =
    normalize_domains-IsCanonical
      (str "https://A.example.com/x" ∷ str " *.example.com. " ∷ str "a.example.com:80" ∷ [])
      two_domains normalizes_two

abbrev keyed_alice : User
keyed_alice = record alice { nps_verify_key = str "key" }

export-IsListing_example :
    IsListing
      (λ u. u.role ≡ role_user)
      1
      (nps_clients (λ t. str "1984") 1 (sort_by (λ u. u.name) (keyed_alice ∷ alice ∷ [])))
export-IsListing_example =
    export-IsListing (λ t. str "1984") (λ u. u.role ≡ role_user) (keyed_alice ∷ alice ∷ [])
      (refl, (refl, tt))
