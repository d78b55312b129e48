-- ===== src/Core/Secret/RoundTrip.antt =====
-- A hashed password is accepted again.
use cosmo_nps.Base.{
  ℕ, zero, suc, ◌≡◌, ◌≢◌, refl, true, false, Option, none, some, List, [], ◌∷◌, ℤ, pos, negsuc,
  All-mono, arith, ◌∙◌, ap,
}
use cosmo_nps.Text.{Text, str, ◌==◌, eq_refl}
use cosmo_nps.Text.Split.{split, join, split-join, Lacks}
use cosmo_nps.Text.Decimal.{itoa, decimal, atoi-itoa, is_digit, decimal-AreDigits}
use cosmo_nps.Text.Hex.{hex_encode, hex_encode-Lacks, hex_decode-hex_encode, AreBytes}
use cosmo_nps.Core.Env.{Env, random_secret}
use cosmo_nps.Core.Model.{User}
use cosmo_nps.Core.Secret.{
  rounds, password_digest, iterations, hash_password, check_digest, verify_password,
}

digit-ne_colon : (c : ℕ) → is_digit c ≡ true → c ≢ b':'
unfolding is_digit
digit-ne_colon c h = ground arith

itoa-Lacks : (n : ℤ) → Lacks b':' (itoa n)
unfolding itoa
itoa-Lacks (pos n) = All-mono _ _ (decimal n) digit-ne_colon (decimal-AreDigits n)
itoa-Lacks (negsuc n) =
    (omega arith, All-mono _ _ (decimal (suc n)) digit-ne_colon (decimal-AreDigits (suc n)))

-- A random secret holds no colon, so the hash has four fields.
pub random_secret-Lacks : (env : Env) (i : ℕ) → Lacks b':' (random_secret env i)
unfolding random_secret
random_secret-Lacks env i = go (env.random i)
  where
    go :
        (o : Option (List ℕ))
        → Lacks b':' (elim o [ some bytes ↦ hex_encode bytes | none ↦ itoa (env.nanos i) ])
    go none = itoa-Lacks (env.nanos i)
    go (some bytes) = hex_encode-Lacks bytes

scheme-Lacks : Lacks b':' (str "sha256")
unfolding str
scheme-Lacks = omega arith

abbrev fields : Env → ℕ → Text → List Text
fields env draw password =
    str "sha256"
    ∷ itoa iterations
    ∷ random_secret env draw
    ∷ hex_encode (password_digest env password (random_secret env draw) iterations)
    ∷ []

split-hash_password :
    (env : Env) (draw : ℕ) (password : Text)
    → split b':' (hash_password env draw password) ≡ fields env draw password
unfolding hash_password
split-hash_password env draw password = split-join b':' (str "sha256") _ (
  scheme-Lacks,
  (itoa-Lacks iterations, (random_secret-Lacks env draw, (hex_encode-Lacks _, tt))),
)

module _ (env : Env) (sums : (bs : List ℕ) → AreBytes (env.sha256 bs)) where
  rounds-AreBytes : (n : ℕ) (buf : List ℕ) → AreBytes (rounds env (suc n) buf)
  unfolding rounds
  rounds-AreBytes zero buf = sums buf
  rounds-AreBytes (suc n) buf = rounds-AreBytes n (env.sha256 buf)

  password_digest-AreBytes :
      (password salt : Text) (n : ℕ) → AreBytes (password_digest env password salt (pos (suc n)))
  unfolding password_digest
  password_digest-AreBytes password salt n = rounds-AreBytes n _

rounds-same :
    (env env' : Env) (n : ℕ) (buf : List ℕ)
    → env'.sha256 ≡ env.sha256
    → rounds env' n buf ≡ rounds env n buf
unfolding rounds
rounds-same env env' zero buf e = refl
rounds-same env env' (suc n) buf e =
    rounds-same env env' n (env'.sha256 buf) e ∙ ap (λ f. rounds env n (f buf)) e

password_digest-same :
    (env env' : Env) (password salt : Text) (n : ℤ)
    → env'.sha256 ≡ env.sha256
    → password_digest env' password salt n ≡ password_digest env password salt n
unfolding password_digest
password_digest-same env env' password salt (pos n) e = rounds-same env env' n _ e
password_digest-same env env' password salt (negsuc n) e = refl

hash_password-ne_nil :
    (env : Env) (draw : ℕ) (password : Text) → (hash_password env draw password == []) ≡ false
unfolding hash_password join str ◌==◌
hash_password-ne_nil env draw password = refl

check_digest-some :
    (env : Env) (password salt : Text) (n : ℕ) (expected : List ℕ)
    → check_digest env password salt (some (pos (suc n))) (some expected)
      ≡ (expected == password_digest env password salt (pos (suc n)))
unfolding check_digest
check_digest-some env password salt n expected = refl

-- A user's stored hash accepts exactly the passwords that have the digest of the hashed one under
-- its salt, if SHA-256 returns bytes and is the same function both times.
pub verify-hash_password :
    (env env' : Env) (draw : ℕ) (password given : Text) (u : User)
    → ((bs : List ℕ) → AreBytes (env.sha256 bs))
    → env'.sha256 ≡ env.sha256
    → u.password_hash ≡ hash_password env draw password
    → verify_password env' u given ≡ (
        password_digest env password (random_secret env draw) iterations
        == password_digest env given (random_secret env draw) iterations)
unfolding verify_password
verify-hash_password env env' draw password given u sums same e =
    rw
      (
        e,
        hash_password-ne_nil env draw password,
        split-hash_password env draw password,
        eq_refl (str "sha256"),
        atoi-itoa 100000 (omega arith),
        hex_decode-hex_encode _
            (password_digest-AreBytes env sums password (random_secret env draw) 99999),
      )
      (ap (λ d. password_digest env password (random_secret env draw) iterations == d)
        (password_digest-same env env' given (random_secret env draw) iterations same))

-- So the password that was hashed is accepted.
pub verify-hash_password_self :
    (env env' : Env) (draw : ℕ) (password : Text) (u : User)
    → ((bs : List ℕ) → AreBytes (env.sha256 bs))
    → env'.sha256 ≡ env.sha256
    → u.password_hash ≡ hash_password env draw password
    → verify_password env' u password ≡ true
verify-hash_password_self env env' draw password u sums same e =
    verify-hash_password env env' draw password password u sums same e ∙ eq_refl _
