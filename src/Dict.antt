-- ===== src/Dict.antt =====
-- Go's `map[string]V`: an association list with distinct keys. A write keeps the place of its key;
-- the order of the entries is the order of one iteration.
pub mod Laws
pub mod Members
use cosmo_nps.Base.{Option, none, some, List, [], ◌∷◌, if◌then◌else◌, map}
use cosmo_nps.Text.{Text, ◌==◌}

abbrev pub Dict {ℓ} : Type ℓ → Type ℓ
Dict V = List (Text × V)

module _ {ℓ} {V : Type ℓ} where
  -- v, ok := m[k]
  unfoldable pub lookup : Text → Dict V → Option V
  lookup key [] = none
  lookup key ((name, value) ∷ rest) = if name == key then some value else lookup key rest

  -- m[k] = v
  unfoldable pub insert : Text → V → Dict V → Dict V
  insert key new [] = (key, new) ∷ []
  insert key new ((name, value) ∷ rest) =
      let written = insert key new rest in
      if name == key then (name, new) ∷ rest else (name, value) ∷ written

  -- delete(m, k)
  unfoldable pub delete : Text → Dict V → Dict V
  delete key [] = []
  delete key ((name, value) ∷ rest) =
      let left = delete key rest in if name == key then left else (name, value) ∷ left

  abbrev pub values : Dict V → List V
  values = map (λ e. e.1)
