-- ===== src/Agent/Config.antt =====
-- The settings of the agent: its environment, and the lines of nps.conf that it replaces
-- (cmd/tunnel-agent/main.go).
use cosmo_nps.Base.{
  not, ◌||◌, Option, none, some, List, [], ◌∷◌, ◌++◌, if◌then◌else◌, ℤ, pos, ltb_ℤ,
}
use cosmo_nps.Text.{Text, str, ◌==◌}
use cosmo_nps.Text.Scan.{trim_space, has_prefix, contains_byte}
use cosmo_nps.Text.Split.{split, split2, join}
use cosmo_nps.Dict.{Dict, lookup}
use cosmo_nps.Core.Domain.{member}

-- `value` is what the environment holds, none where the variable is not set
unfoldable pub getenv : Option Text → Text → Text
getenv none fallback = fallback
getenv (some value) fallback = if value == [] then fallback else value

unfoldable pub getenv_allow_empty : Option Text → Text → Text
getenv_allow_empty none fallback = fallback
getenv_allow_empty (some value) fallback = value

-- `scanned` is what Sscanf reads with "%d"
unfoldable pub getenv_int : Option ℤ → ℤ → ℤ
getenv_int none fallback = fallback
getenv_int (some n) fallback = if ltb_ℤ (pos 0) n then n else fallback

-- the key of a line that sets one
unfoldable pub line_key : Text → Option Text
line_key line =
    let trimmed = trim_space line in
    if trimmed == [] || (has_prefix trimmed (str "#") || not (contains_byte trimmed b'='))
    then none
    else some (trim_space (split2 b'=' trimmed).0)

abbrev pub setting : Text → Text → Text
setting key value = key ++ (b'=' ∷ value)

-- the value for the line's key
abbrev pub replacement : Dict Text → Option Text → Option (Text × Text)
replacement replacements none = none
replacement replacements (some key) = elim (lookup key replacements) [
  | none ↦ none
  | some value ↦ some (key, value)
]

abbrev pub replaced : Text → Option (Text × Text) → Text
replaced line none = line
replaced line (some (key, value)) = setting key value

unfoldable pub replace_lines : Dict Text → List Text → List Text
replace_lines replacements [] = []
replace_lines replacements (line ∷ lines) =
    replaced line (replacement replacements (line_key line)) ∷ replace_lines replacements lines

-- the keys in `seen`
unfoldable pub seen_keys : Dict Text → List Text → List Text
seen_keys replacements [] = []
seen_keys replacements (line ∷ lines) =
    let rest = seen_keys replacements lines in
    elim (replacement replacements (line_key line)) [ none ↦ rest | some (key, _) ↦ key ∷ rest ]

unfoldable pub missing_lines : List Text → Dict Text → List Text
missing_lines seen [] = []
missing_lines seen ((key, value) ∷ more) =
    let rest = missing_lines seen more in if member key seen then rest else setting key value ∷ rest

unfoldable pub replace_nps_config : Text → Dict Text → Text
replace_nps_config conf replacements =
    let lines = split b'\n' conf in
    join b'\n' (
      replace_lines replacements lines ++ missing_lines (seen_keys replacements lines) replacements)
