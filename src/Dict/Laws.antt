-- ===== src/Dict/Laws.antt =====
-- What is read after a write or a deletion, and predicates on all entries.
use mathlib.Core.Path.{subst₂}
use cosmo_nps.Base.{
  ◌⊎◌, ◌≡◌, ◌≢◌, refl, none, some, [], ◌∷◌, if◌then◌else◌, arith, Bool-cases, inl, inr,
}
use cosmo_nps.Text.{Text, ◌==◌, eq_iff, eq_refl}
use cosmo_nps.Dict.{Dict, lookup, insert, delete}

module _ {ℓ} {V : Type ℓ} where
  pub lookup-insert :
      (key asked : Text) (new : V) (m : Dict V)
      → lookup asked (insert key new m) ≡ (if key == asked then some new else lookup asked m)
  unfolding insert lookup
  lookup-insert key asked new [] = refl
  lookup-insert key asked new ((name, _) ∷ rest) = ground (
    arith,
    lookup-insert key asked new rest,
    eq_iff name key,
    eq_iff name asked,
    eq_iff key asked,
  )

  pub lookup-delete :
      (k j : Text) (m : Dict V) → lookup j (delete k m) ≡ (if k == j then none else lookup j m)
  unfolding lookup delete
  lookup-delete k j [] = ground arith
  lookup-delete k j ((i, w) ∷ m) =
      ground (arith, eq_iff k j, eq_iff i k, eq_iff i j, lookup-delete k j m)

module _ {ℓ κ} {V : Type ℓ} (P : Text → V → Type κ) where
  -- every entry satisfies `P`
  abbrev pub Entries : Dict V → Type κ
  Entries [] = Unit
  Entries ((k, v) ∷ m) = P k v × Entries m

  pub Entries-lookup : (k : Text) (v : V) (m : Dict V) → Entries m → lookup k m ≡ some v → P k v
  unfolding lookup
  Entries-lookup k v [] h e = cc
  Entries-lookup k v ((j, w) ∷ m) h e = elim (Bool-cases (j == k)) [
    | inl same ↦ let q : w ≡ v = ground arith in subst₂ P ((eq_iff j k).0 same) q h.0
    | inr other ↦ Entries-lookup k v m h.1 (ground arith)
  ]

  pub Entries-insert : (k : Text) (v : V) (m : Dict V) → P k v → Entries m → Entries (insert k v m)
  unfolding insert
  Entries-insert k v [] p h = (p, tt)
  Entries-insert k v ((j, w) ∷ m) p h = elim (Bool-cases (j == k)) [
    | inl same ↦ rw same (rw ((eq_iff j k).0 same) p, h.1)
    | inr other ↦ rw other (h.0, Entries-insert k v m p h.1)
  ]

  pub Entries-delete : (k : Text) (m : Dict V) → Entries m → Entries (delete k m)
  unfolding delete
  Entries-delete k [] h = tt
  Entries-delete k ((j, w) ∷ m) h = elim (Bool-cases (j == k)) [
    | inl same ↦ rw same (Entries-delete k m h.1)
    | inr other ↦ rw other (h.0, Entries-delete k m h.1)
  ]

module _ {ℓ} {V : Type ℓ} where
  -- the key does not occur
  abbrev pub Fresh : Text → Dict V → Type 0
  Fresh k [] = Unit
  Fresh k ((j, _) ∷ m) = (j ≢ k) × Fresh k m

  -- no key occurs twice, as in every Go map
  abbrev pub Distinct : Dict V → Type 0
  Distinct [] = Unit
  Distinct ((k, _) ∷ m) = Fresh k m × Distinct m

  pub lookup-Fresh : (k : Text) (m : Dict V) → Fresh k m → lookup k m ≡ none
  unfolding lookup
  lookup-Fresh k [] h = refl
  lookup-Fresh k ((j, w) ∷ m) h = ground (arith, eq_iff j k, lookup-Fresh k m h.1)

  Fresh-insert : (k j : Text) (v : V) (m : Dict V) → j ≢ k → Fresh k m → Fresh k (insert j v m)
  unfolding insert
  Fresh-insert k j v [] ne h = (ne, tt)
  Fresh-insert k j v ((i, w) ∷ m) ne h = elim (Bool-cases (i == j)) [
    | inl same ↦ rw same h
    | inr other ↦ rw other (h.0, Fresh-insert k j v m ne h.1)
  ]

  pub insert-Distinct : (k : Text) (v : V) (m : Dict V) → Distinct m → Distinct (insert k v m)
  unfolding insert
  insert-Distinct k v [] h = (tt, tt)
  insert-Distinct k v ((j, w) ∷ m) h = elim (Bool-cases (j == k)) [
    | inl same ↦ rw same h
    | inr other ↦
        rw other
          (Fresh-insert j k v m (λ e. ground (arith, eq_iff j k)) h.0, insert-Distinct k v m h.1)
  ]

  Fresh-delete : (k j : Text) (m : Dict V) → Fresh k m → Fresh k (delete j m)
  unfolding delete
  Fresh-delete k j [] h = tt
  Fresh-delete k j ((i, w) ∷ m) h = elim (Bool-cases (i == j)) [
    | inl same ↦ rw same (Fresh-delete k j m h.1)
    | inr other ↦ rw other (h.0, Fresh-delete k j m h.1)
  ]

  pub delete-Distinct : (k : Text) (m : Dict V) → Distinct m → Distinct (delete k m)
  unfolding delete
  delete-Distinct k [] h = tt
  delete-Distinct k ((j, w) ∷ m) h = elim (Bool-cases (j == k)) [
    | inl same ↦ rw same (delete-Distinct k m h.1)
    | inr other ↦ rw other (Fresh-delete j k m h.0, delete-Distinct k m h.1)
  ]

  -- what is stored after a write is the new value at its key or an old value at another
  pub lookup-insert-cases :
      (k j : Text) (v w : V) (m : Dict V)
      → lookup j (insert k v m) ≡ some w
      → ((k ≡ j) × (v ≡ w)) ⊎ ((k ≢ j) × (lookup j m ≡ some w))
  lookup-insert-cases k j v w m h = elim (Bool-cases (k == j)) [
    | inl same ↦ inl ((eq_iff k j).0 same, ground (arith, lookup-insert k j v m))
    | inr other ↦ inr (λ e. ground (arith, eq_iff k j), rw (lookup-insert k j v m, other) at h)
  ]

  -- a write keeps every key
  pub lookup-insert-some :
      (k j : Text) (v w : V) (m : Dict V)
      → lookup j m ≡ some w
      → (w' : V) × (lookup j (insert k v m) ≡ some w')
  lookup-insert-some k j v w m h = elim (Bool-cases (k == j)) [
    | inl same ↦ (v, ground (arith, lookup-insert k j v m))
    | inr other ↦ (w, ground (arith, lookup-insert k j v m))
  ]

  pub lookup-delete-some :
      (k j : Text) (w : V) (m : Dict V) → lookup j (delete k m) ≡ some w → lookup j m ≡ some w
  lookup-delete-some k j w m h = ground (arith, lookup-delete k j m)

  pub lookup-delete_ne : (k j : Text) (m : Dict V) → k ≢ j → lookup j (delete k m) ≡ lookup j m
  lookup-delete_ne k j m ne = ground (arith, lookup-delete k j m, eq_iff k j)

module _ {ℓ κ} {V : Type ℓ} (P : Text → V → Type κ) where
  -- what holds of everything that is found holds of every entry
  pub lookup-Entries :
      (m : Dict V) → Distinct m → ((k : Text) (v : V) → lookup k m ≡ some v → P k v) → Entries P m
  unfolding lookup
  lookup-Entries [] d h = tt
  lookup-Entries ((j, w) ∷ m) d h = (
    h j w (rw eq_refl refl),
    lookup-Entries m d.1 λ k v found. h k v (ground (arith, eq_iff j k, lookup-Fresh j m d.0)),
  )
