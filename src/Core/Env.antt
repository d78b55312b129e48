-- ===== src/Core/Env.antt =====
-- What an operation takes from outside: the clock, random bytes, SHA-256 and the file system.
use cosmo_nps.Base.{ℕ, Option, none, some, List, ℤ}
use cosmo_nps.Text.{Text}
use cosmo_nps.Text.Hex.{hex_encode}
use cosmo_nps.Text.Decimal.{itoa}
use cosmo_nps.Core.Model.{Time, Database}

-- The database file. Its JSON text is not modelled: a saved file holds the database itself.
pub data File : Type 0 where
  absent unreadable blank garbled : File
  saved : Database → File

-- One call's view of the outside. `random i` is what the i-th `rand.Read` of the call's source gives,
-- none if it fails; `nanos i` is the clock that replaces it. `write` is none where the save succeeds,
-- and otherwise the file that the failed save leaves.
pub record Env : Type 0 where
  pub now : Time
  pub random : ℕ → Option (List ℕ)
  pub nanos : ℕ → ℤ
  pub sha256 : List ℕ → List ℕ
  pub write : Option File

-- randomSecret()
unfoldable pub random_secret : Env → ℕ → Text
random_secret env i = elim (env.random i) [
  | some bytes ↦ hex_encode bytes
  | none ↦ itoa (env.nanos i)
]
