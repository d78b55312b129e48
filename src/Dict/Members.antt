-- ===== src/Dict/Members.antt =====
-- The entries of a map with distinct keys are its lookups.
use cosmo_nps.Base.{◌≡◌, ◌↔◌, refl, sym, ap, ◌∙◌, false, some, [], ◌∷◌, Memᴰ, inl, inr, Bool-cases}
use cosmo_nps.Text.{Text, ◌==◌, eq_iff}
use cosmo_nps.Dict.{Dict, lookup}
use cosmo_nps.Dict.Laws.{Fresh, Distinct}

module _ {ℓ} {V : Type ℓ} where
  found-member : (k : Text) (v : V) (m : Dict V) → lookup k m ≡ some v → Memᴰ (k, v) m
  unfolding lookup
  found-member k v [] h = cc
  found-member k v ((j, w) ∷ m) h = elim (Bool-cases (j == k)) [
    | inl same ↦
        let is : w ≡ v = cc (rw (same, lookup) at h) in
        Memᴰ.head (rw ((eq_iff j k).0 same, is) refl)
    | inr other ↦ Memᴰ.tail (found-member k v m (rw (other, lookup) at h))
  ]

  Fresh-member : (j k : Text) (v : V) (m : Dict V) → Fresh j m → Memᴰ (k, v) m → (j == k) ≡ false
  Fresh-member j k v [] f at = elim at [ ]
  Fresh-member j k v ((i, w) ∷ m) f (Memᴰ.head same) =
      let is : k ≡ i = ap (λ (e : Text × V). e.0) same in
      elim (Bool-cases (j == k)) [
        | inl here ↦ absurd (f.0 (sym is ∙ sym ((eq_iff j k).0 here)))
        | inr other ↦ other
      ]
  Fresh-member j k v ((i, w) ∷ m) f (Memᴰ.tail at) = Fresh-member j k v m f.1 at

  member-found : (k : Text) (v : V) (m : Dict V) → Distinct m → Memᴰ (k, v) m → lookup k m ≡ some v
  unfolding lookup
  member-found k v [] d at = elim at [ ]
  member-found k v ((j, w) ∷ m) d (Memᴰ.head same) =
      rw ((eq_iff j k).1 (ap (λ (e : Text × V). e.0) (sym same)))
        (ap (λ (e : Text × V). some e.1) (sym same))
  member-found k v ((j, w) ∷ m) d (Memᴰ.tail at) =
      rw (Fresh-member j k v m d.0 at) (member-found k v m d.1 at)

  pub mem-lookup :
      (k : Text) (v : V) (m : Dict V) → Distinct m → Memᴰ (k, v) m ↔ (lookup k m ≡ some v)
  mem-lookup k v m d = (member-found k v m d, found-member k v m)
