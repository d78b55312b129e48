-- ===== src/Core/Domain.antt =====
-- Domain pools (internal/core/types.go, and domainInPools of internal/core/store.go): normalising a
-- domain, parsing a pool, and matching a domain against wildcards.
pub mod Matching
pub mod Canonical
use cosmo_nps.Base.{
  ℕ, ◌+◌, ◌-◌, ◌*◌, Bool, true, false, not, ◌&&◌, ◌||◌, Option, none, some, List, [], ◌∷◌, ◌++◌,
  map, if◌then◌else◌, leb, ltb, nat_eq, length, Result, ok, err, ◌>>=◌, ◌>>◌, refuse,
}
use cosmo_nps.Text.{Text, str, ◌==◌}
use cosmo_nps.Text.Scan.{
  trim_space, to_lower, trim_prefix, trim_suffix, has_prefix, has_suffix, contains_byte, before_any,
}
use cosmo_nps.Text.Split.{split, join}
use cosmo_nps.Text.Decimal.{is_digit, value}

pub data Reason : Type 0 where
  too_long no_dot invalid_label edge_hyphen unsupported_character : Reason

pub data DomainError : Type 0 where
  invalid_domain : Text → Reason → DomainError
  stray_wildcard : Text → DomainError

-- a decimal field of an IPv4 address: at most 255, with no leading zero
is_octet : Text → Bool
is_octet [] = false
is_octet (c ∷ s) =
    (nat_eq (length s) 0 || not (nat_eq c b'0'))
    && elim (value 0 (c ∷ s)) [ none ↦ false | some n ↦ leb n 255 ]

are_octets : List Text → Bool
unfolding is_octet
are_octets [] = true
are_octets (s ∷ ss) = is_octet s && are_octets ss

-- net.ParseIP(domain) != nil for a text with no colon, so for the IPv4 form only
is_ip : Text → Bool
unfolding are_octets
is_ip domain = let fields = split b'.' domain in nat_eq (length fields) 4 && are_octets fields

is_label_byte : ℕ → Bool
is_label_byte c = (leb b'a' c && leb c b'z') || (leb b'0' c && leb c b'9') || nat_eq c b'-'

check_bytes : Text → Result Reason (Unit {0})
unfolding is_label_byte
check_bytes [] = ok tt
check_bytes (c ∷ s) =
    let rest = check_bytes s in if is_label_byte c then rest else err unsupported_character

check_label : Text → Result Reason (Unit {0})
unfolding check_bytes
check_label label = do
  refuse (label == [] || ltb 63 (length label)) invalid_label
  refuse (has_prefix label (str "-") || has_suffix label (str "-")) edge_hyphen
  check_bytes label

check_labels : List Text → Result Reason (Unit {0})
unfolding check_label
check_labels [] = ok tt
check_labels (label ∷ labels) = check_label label >> check_labels labels

unfoldable pub validate_domain : Text → Result Reason (Unit {0})
unfolding is_ip check_labels
validate_domain domain =
    if ltb 253 (length domain)
    then err too_long
    else if is_ip domain
    then ok tt
    else if ltb (length (split b'.' domain)) 2
    then err no_dot
    else check_labels (split b'.' domain)

-- the value on success, the wrapped error otherwise
abbrev wrapping : Text → Text → Result Reason (Unit {0}) → Result DomainError Text
wrapping input domain (ok _) = ok domain
wrapping input domain (err reason) = err (invalid_domain input reason)

-- the lines before the first test: lower case, trimmed, without scheme, path, port and final dot
unfoldable pub strip_domain : Text → Text
strip_domain input =
    let domain = trim_space (to_lower input) in
    let domain = trim_prefix domain (str "http://") in
    let domain = trim_prefix domain (str "https://") in
    let domain = before_any (str "/:") domain in trim_suffix domain (str ".")

-- the tests of NormalizeDomain on the stripped text
unfoldable pub accept_domain : Text → Text → Result DomainError Text
accept_domain input domain =
    if domain == []
    then ok []
    else if domain == str "*"
    then ok domain
    else if has_prefix domain (str "*.")
    then wrapping input domain (validate_domain (trim_prefix domain (str "*.")))
    else if contains_byte domain b'*'
    then err (stray_wildcard input)
    else wrapping input domain (validate_domain domain)

unfoldable pub normalize_domain : Text → Result DomainError Text
normalize_domain input = accept_domain input (strip_domain input)

unfoldable pub member : Text → List Text → Bool
member s [] = false
member s (t ∷ ts) = t == s || member s ts

-- the loop of NormalizeDomains and of ParseDomainPools, with the keys of `seen`
normalize_from : List Text → List Text → Result DomainError (List Text)
unfolding member
normalize_from seen [] = ok []
normalize_from seen (v ∷ vs) = do
  domain ← normalize_domain v
  let skip = domain == [] || member domain seen
  rest ← normalize_from (if skip then seen else domain ∷ seen) vs
  ok (if skip then rest else domain ∷ rest)

unfoldable pub normalize_domains : List Text → Result DomainError (List Text)
unfolding normalize_from
normalize_domains values = normalize_from [] values

unfoldable pub parse_domain_pools : Text → Result DomainError (List Text)
unfolding normalize_from
parse_domain_pools input =
    let trimmed = trim_space input in
    if trimmed == [] then ok [] else normalize_from [] (split b',' trimmed)

unfoldable pub format_domain_pools : List Text → Text
format_domain_pools domains = join b',' domains

-- one pool of domainInPools
pool_covers : Text → Text → Bool
pool_covers domain pool =
    pool == str "*"
    || pool == domain
    || (has_prefix pool (str "*.")
        && (let suffix = trim_prefix pool (str "*.") in
            not (domain == suffix) && has_suffix domain (b'.' ∷ suffix)))

unfoldable pub domain_in_pools : Text → List Text → Bool
unfolding pool_covers
domain_in_pools domain [] = false
domain_in_pools domain (pool ∷ pools) = pool_covers domain pool || domain_in_pools domain pools
