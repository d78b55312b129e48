-- ===== src/Base/Members.antt =====
-- Members of lists, and the sublist that a test keeps.
use mathlib.Core.List.{Memᴰ}
use mathlib.Core.List.Memᴰ
use mathlib.Core.Path.{◌≡◌, refl, sym, ap, ◌∙◌}
use mathlib.Core.Logic.{◌↔◌, inl, inr}
use mathlib.Core.Bool.{Bool, true, false, ◌||◌}
use mathlib.Core.List.{List, [], ◌∷◌}
use native.Mathlib.Omega.{arith}
use cosmo_nps.Base.Tests.{if◌then◌else◌, Bool-cases, or-true}

module _ {ℓ} {A : Type ℓ} where
  unfoldable pub keep : (A → Bool) → List A → List A
  keep test [] = []
  keep test (x ∷ xs) = let rest = keep test xs in if test x then x ∷ rest else rest

  keep_sound :
      (test : A → Bool) (xs : List A) (x : A) → Memᴰ x (keep test xs) → Memᴰ x xs × (test x ≡ true)
  unfolding keep
  keep_sound test [] x at = elim at [ ]
  keep_sound test (y ∷ xs) x at = elim (Bool-cases (test y)) [
    | inr out ↦
        let (there, ok) = keep_sound test xs x (rw (out, keep) at at) in (Memᴰ.tail there, ok)
    | inl in_ ↦ elim (Memᴰ.cases_cons (rw (in_, keep) at at)) [
      | inl same ↦ (Memᴰ.head same, ap test same ∙ in_)
      | inr rest ↦ let (there, ok) = keep_sound test xs x rest in (Memᴰ.tail there, ok)
    ]
  ]

  keep_complete :
      (test : A → Bool) (xs : List A) (x : A) → Memᴰ x xs → test x ≡ true → Memᴰ x (keep test xs)
  unfolding keep
  keep_complete test [] x at t = elim at [ ]
  keep_complete test (y ∷ xs) x (Memᴰ.head same) t = rw (sym (ap test same) ∙ t) (Memᴰ.head same)
  keep_complete test (y ∷ xs) x (Memᴰ.tail at) t = elim (Bool-cases (test y)) [
    | inl in_ ↦ rw in_ (Memᴰ.tail (keep_complete test xs x at t))
    | inr out ↦ rw out (keep_complete test xs x at t)
  ]

  pub mem-keep :
      (test : A → Bool) (xs : List A) (x : A)
      → Memᴰ x (keep test xs) ↔ (Memᴰ x xs × (test x ≡ true))
  mem-keep test xs x = (keep_sound test xs x, λ h. keep_complete test xs x h.0 h.1)

  -- a test that asks for some member
  unfoldable pub any : (A → Bool) → List A → Bool
  any test [] = false
  any test (x ∷ xs) = test x || any test xs

  any_sound :
      (test : A → Bool) (xs : List A) → any test xs ≡ true → (x : A) × Memᴰ x xs × (test x ≡ true)
  unfolding any
  any_sound test [] h = cc
  any_sound test (x ∷ xs) h = elim (or-true (test x) (any test xs) h) [
    | inl here ↦ (x, Memᴰ.head refl, here)
    | inr there ↦ let (y, at, t) = any_sound test xs there in (y, Memᴰ.tail at, t)
  ]

  any_complete :
      (test : A → Bool) (xs : List A) (x : A) → Memᴰ x xs → test x ≡ true → any test xs ≡ true
  unfolding any
  any_complete test [] x at t = elim at [ ]
  any_complete test (y ∷ xs) x (Memᴰ.head same) t = rw (sym (ap test same) ∙ t) refl
  any_complete test (y ∷ xs) x (Memᴰ.tail at) t =
      let rest : any test xs ≡ true = any_complete test xs x at t in ground arith

  pub any_iff :
      (test : A → Bool) (xs : List A)
      → (any test xs ≡ true) ↔ ((x : A) × Memᴰ x xs × (test x ≡ true))
  any_iff test xs = (any_sound test xs, λ h. any_complete test xs h.0 h.1 h.2)
