-- ===== src/Core/Secret.antt =====
-- Password hashes (internal/core/store.go: hashPassword, verifyPassword, passwordDigest).
pub mod RoundTrip
use cosmo_nps.Base.{
  ℕ, zero, suc, Bool, true, false, not, ◌&&◌, Option, none, some, List, [], ◌∷◌, ◌++◌, ℤ, pos,
  negsuc, if◌then◌else◌,
}
use cosmo_nps.Text.{Text, str, ◌==◌}
use cosmo_nps.Text.Split.{split, join}
use cosmo_nps.Text.Decimal.{itoa, atoi}
use cosmo_nps.Text.Hex.{hex_encode, hex_decode}
use cosmo_nps.Core.Env.{Env, random_secret}
use cosmo_nps.Core.Model.{User}

rounds : Env → ℕ → List ℕ → List ℕ
rounds env zero buf = buf
rounds env (suc n) buf = rounds env n (env.sha256 buf)

-- a count of rounds below one makes none
unfoldable pub password_digest : Env → Text → Text → ℤ → List ℕ
unfolding rounds
password_digest env password salt (pos n) = rounds env n (password ++ (b':' ∷ salt))
password_digest env password salt (negsuc n) = password ++ (b':' ∷ salt)

abbrev pub iterations : ℤ
iterations = pos 100000

-- `draw` is the number of the call's random secret that becomes the salt
unfoldable pub hash_password : Env → ℕ → Text → Text
hash_password env draw password =
    let salt = random_secret env draw in
    join b':' (
      str "sha256"
      ∷ itoa iterations
      ∷ salt
      ∷ hex_encode (password_digest env password salt iterations)
      ∷ [])

-- the comparison behind the parse of the iterations and of the digest
check_digest : Env → Text → Text → Option ℤ → Option (List ℕ) → Bool
check_digest env password salt (some (pos (suc n))) (some expected) =
    expected == password_digest env password salt (pos (suc n))
check_digest env password salt _ _ = false

check_parts : Env → Text → List Text → Bool
unfolding check_digest
check_parts env password (scheme ∷ rounds ∷ salt ∷ digest ∷ []) =
    scheme == str "sha256" && check_digest env password salt (atoi rounds) (hex_decode digest)
check_parts env password _ = false

unfoldable pub verify_password : Env → User → Text → Bool
unfolding check_parts
verify_password env u password =
    if not (u.password_hash == [])
    then check_parts env password (split b':' u.password_hash)
    else not (u.password == []) && u.password == password
