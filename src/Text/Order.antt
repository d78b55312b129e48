-- ===== src/Text/Order.antt =====
-- `strings.Compare` and `slices.SortFunc` by a text key. The sort of the model inserts; the keys of
-- the lists that the program sorts are distinct, so every sort gives this list.
use mathlib.Core.List.{Perm}
use mathlib.Core.List.Perm
use mathlib.Core.List.Memᴰ
use cosmo_nps.Base.{
  ◌≡◌, refl, Bool, true, false, ◌&&◌, ◌||◌, List, [], ◌∷◌, arith, ltb, nat_eq, if◌then◌else◌, All,
  Bool-cases, inl, inr, All-mono, Memᴰ, ◌↔◌,
}
use cosmo_nps.Text.{Text}

-- strings.Compare(s, t) <= 0
unfoldable pub text_leb : Text → Text → Bool
text_leb [] t = true
text_leb (c ∷ s) [] = false
text_leb (c ∷ s) (d ∷ t) = ltb c d || (nat_eq c d && text_leb s t)

text_leb_total : (s t : Text) → text_leb s t ≡ false → text_leb t s ≡ true
unfolding text_leb
text_leb_total [] t h = cc
text_leb_total (c ∷ s) [] h = refl
text_leb_total (c ∷ s) (d ∷ t) h = ground (arith, text_leb_total s t)

text_leb_trans : (s t u : Text) → text_leb s t ≡ true → text_leb t u ≡ true → text_leb s u ≡ true
unfolding text_leb
text_leb_trans [] t u h k = refl
text_leb_trans (c ∷ s) [] u h k = cc
text_leb_trans (c ∷ s) (d ∷ t) [] h k = cc
text_leb_trans (c ∷ s) (d ∷ t) (e ∷ u) h k = ground (arith, text_leb_trans s t u)

module _ {ℓ} {A : Type ℓ} (key : A → Text) where
  unfoldable pub insert_by : A → List A → List A
  insert_by x [] = x ∷ []
  insert_by x (y ∷ ys) =
      let rest = insert_by x ys in if text_leb (key x) (key y) then x ∷ y ∷ ys else y ∷ rest

  unfoldable pub sort_by : List A → List A
  unfolding insert_by
  sort_by [] = []
  sort_by (x ∷ xs) = insert_by x (sort_by xs)

  -- keys rise along the list
  abbrev pub IsSorted : List A → Type 0
  IsSorted [] = Unit
  IsSorted (x ∷ xs) = All (λ y. text_leb (key x) (key y) ≡ true) xs × IsSorted xs

  insert_by-perm : (x : A) (xs : List A) → Perm (x ∷ xs) (insert_by x xs)
  unfolding insert_by
  insert_by-perm x [] = Perm.refl _
  insert_by-perm x (y ∷ ys) = elim (Bool-cases (text_leb (key x) (key y))) [
    | inl le ↦ rw le (Perm.refl _)
    | inr gt ↦ rw gt (Perm.trans (Perm.swap y x ys) (Perm.cons y (insert_by-perm x ys)))
  ]

  -- Sorting rearranges the list.
  pub sort_by-perm : (xs : List A) → Perm xs (sort_by xs)
  unfolding sort_by
  sort_by-perm [] = Perm.refl _
  sort_by-perm (x ∷ xs) = Perm.trans (Perm.cons x (sort_by-perm xs)) (insert_by-perm x (sort_by xs))

  insert_by-below :
      (a : Text) (x : A) (xs : List A)
      → text_leb a (key x) ≡ true
      → All (λ y. text_leb a (key y) ≡ true) xs
      → All (λ y. text_leb a (key y) ≡ true) (insert_by x xs)
  unfolding insert_by
  insert_by-below a x [] h k = (h, tt)
  insert_by-below a x (y ∷ ys) h k = elim (Bool-cases (text_leb (key x) (key y))) [
    | inl le ↦ rw le (h, k)
    | inr gt ↦ rw gt (k.0, insert_by-below a x ys h k.1)
  ]

  insert_by-IsSorted : (x : A) (xs : List A) → IsSorted xs → IsSorted (insert_by x xs)
  unfolding insert_by
  insert_by-IsSorted x [] h = (tt, tt)
  insert_by-IsSorted x (y ∷ ys) h = elim (Bool-cases (text_leb (key x) (key y))) [
    | inl le ↦ rw le ((le, All-mono _ _ ys (λ z. text_leb_trans (key x) (key y) (key z) le) h.0), h)
    | inr gt ↦
        rw gt
          (insert_by-below (key y) x ys (text_leb_total _ _ gt) h.0, insert_by-IsSorted x ys h.1)
  ]

  -- The keys of a sorted list rise.
  pub sort_by-IsSorted : (xs : List A) → IsSorted (sort_by xs)
  unfolding sort_by
  sort_by-IsSorted [] = tt
  sort_by-IsSorted (x ∷ xs) = insert_by-IsSorted x (sort_by xs) (sort_by-IsSorted xs)

  insert_by-All : (P : A → Type 0) (x : A) (xs : List A) → P x → All P xs → All P (insert_by x xs)
  unfolding insert_by
  insert_by-All P x [] p h = (p, tt)
  insert_by-All P x (y ∷ ys) p h = elim (Bool-cases (text_leb (key x) (key y))) [
    | inl le ↦ rw le (p, h)
    | inr gt ↦ rw gt (h.0, insert_by-All P x ys p h.1)
  ]

  pub sort_by-All : (P : A → Type 0) (xs : List A) → All P xs → All P (sort_by xs)
  unfolding sort_by
  sort_by-All P [] h = tt
  sort_by-All P (x ∷ xs) h = insert_by-All P x (sort_by xs) h.0 (sort_by-All P xs h.1)

  insert_by-members : (x y : A) (xs : List A) → Memᴰ y (insert_by x xs) → Memᴰ y (x ∷ xs)
  unfolding insert_by
  insert_by-members x y [] at = at
  insert_by-members x y (z ∷ xs) at = elim (Bool-cases (text_leb (key x) (key z))) [
    | inl le ↦ rw (le, insert_by) at at
    | inr gt ↦ elim (Memᴰ.cases_cons (rw (gt, insert_by) at at)) [
      | inl same ↦ Memᴰ.tail (Memᴰ.head same)
      | inr rest ↦ elim (Memᴰ.cases_cons (insert_by-members x y xs rest)) [
        | inl new ↦ Memᴰ.head new
        | inr old ↦ Memᴰ.tail (Memᴰ.tail old)
      ]
    ]
  ]

  members-insert_by : (x y : A) (xs : List A) → Memᴰ y (x ∷ xs) → Memᴰ y (insert_by x xs)
  unfolding insert_by
  members-insert_by x y [] at = at
  members-insert_by x y (z ∷ xs) at = elim (Bool-cases (text_leb (key x) (key z))) [
    | inl le ↦ rw le at
    | inr gt ↦ rw gt (elim (Memᴰ.cases_cons at) [
      | inl new ↦ Memᴰ.tail (members-insert_by x y xs (Memᴰ.head new))
      | inr old ↦ elim (Memᴰ.cases_cons old) [
        | inl same ↦ Memᴰ.head same
        | inr rest ↦ Memᴰ.tail (members-insert_by x y xs (Memᴰ.tail rest))
      ]
    ])
  ]

  sort_by-members : (y : A) (xs : List A) → Memᴰ y (sort_by xs) → Memᴰ y xs
  unfolding sort_by
  sort_by-members y [] at = at
  sort_by-members y (x ∷ xs) at = elim (Memᴰ.cases_cons (insert_by-members x y (sort_by xs) at)) [
    | inl same ↦ Memᴰ.head same
    | inr rest ↦ Memᴰ.tail (sort_by-members y xs rest)
  ]

  members-sort_by : (y : A) (xs : List A) → Memᴰ y xs → Memᴰ y (sort_by xs)
  unfolding sort_by
  members-sort_by y [] at = at
  members-sort_by y (x ∷ xs) (Memᴰ.head same) = members-insert_by x y (sort_by xs) (Memᴰ.head same)
  members-sort_by y (x ∷ xs) (Memᴰ.tail at) =
      members-insert_by x y (sort_by xs) (Memᴰ.tail (members-sort_by y xs at))

  -- Sorting keeps the members.
  pub mem-sort_by : (y : A) (xs : List A) → Memᴰ y (sort_by xs) ↔ Memᴰ y xs
  mem-sort_by y xs = (sort_by-members y xs, members-sort_by y xs)
