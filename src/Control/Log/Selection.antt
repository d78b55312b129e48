-- ===== src/Control/Log/Selection.antt =====
-- What `list` of the log buffer answers.
use mathlib.Core.List.{reverse, reverse_aux, reverse-append, reverse-reverse}
use cosmo_nps.Base.{
  ◌≡◌, refl, sym, ap, ◌∙◌, ℕ, zero, suc, ◌+◌, ◌-◌, ◌≤◌, List, [], ◌∷◌, ◌++◌, arith, inl, inr, Bool,
  Bool-cases, length, take, drop, length-drop, ltb, if◌then◌else◌, ℤ, pos, negsuc, keep,
}
use cosmo_nps.Text.{Text}
use cosmo_nps.Text.Scan.{to_lower, trim_space}
use cosmo_nps.Control.Log.{LogEntry, LogBuffer, is_hit, newest, effective_limit, list}

-- the last entries of a list
abbrev pub last {ℓ} : {A : Type ℓ} → ℕ → List A → List A
last n xs = drop (length xs - n) xs

module _ {A : Type 0} where
  take_all : (n : ℕ) (xs : List A) → length xs ≤ n → take n xs ≡ xs
  take_all zero [] h = refl
  take_all zero (x ∷ xs) h = absurd (omega arith)
  take_all (suc n) [] h = refl
  take_all (suc n) (x ∷ xs) h = ap (λ ys. x ∷ ys) (take_all n xs (omega arith))

  take_front : (xs ys : List A) → take (length xs) (xs ++ ys) ≡ xs
  take_front [] ys = refl
  take_front (x ∷ xs) ys = ap (λ zs. x ∷ zs) (take_front xs ys)

  cut_join : (n : ℕ) (xs : List A) → take n xs ++ drop n xs ≡ xs
  cut_join zero xs = refl
  cut_join (suc n) [] = refl
  cut_join (suc n) (x ∷ xs) = ap (λ ys. x ∷ ys) (cut_join n xs)

  length-reverse_aux : (xs acc : List A) → length (reverse_aux xs acc) ≡ length xs + length acc
  length-reverse_aux [] acc = omega arith
  length-reverse_aux (x ∷ xs) acc = omega (arith, length-reverse_aux xs (x ∷ acc))

  length-reverse : (xs : List A) → length (reverse xs) ≡ length xs
  length-reverse xs = omega (arith, length-reverse_aux xs [])

  last_all : (n : ℕ) (xs : List A) → length xs ≤ n → last n xs ≡ xs
  last_all n xs h = let none_cut : length xs - n ≡ 0 = omega arith in ap (λ k. drop k xs) none_cut

  -- the first of the reversed list are the last of the list
  take-reverse : (n : ℕ) (xs : List A) → n ≤ length xs → take n (reverse xs) ≡ reverse (last n xs)
  take-reverse n xs h =
      let k = length xs - n in
      let back = reverse (drop k xs) in
      let front = reverse (take k xs) in
      let cut : reverse xs ≡ back ++ front =
        ap reverse (sym (cut_join k xs)) ∙ reverse-append (take k xs) (drop k xs) in
      let size : length back ≡ n = omega (arith, length-reverse (drop k xs), length-drop k xs) in
      ap (take n) cut ∙ ap (λ m. take m (back ++ front)) (sym size) ∙ take_front back front

  reverse-take-reverse : (n : ℕ) (xs : List A) → reverse (take n (reverse xs)) ≡ last n xs
  reverse-take-reverse n xs = elim (Bool-cases (ltb (length xs) n)) [
    | inl long ↦
        let short : length xs ≤ n = ground arith in
        ap reverse (take_all n (reverse xs) (omega (arith, length-reverse xs)))
        ∙ reverse-reverse xs
        ∙ sym (last_all n xs short)
    | inr cut ↦ ap reverse (take-reverse n xs (ground arith)) ∙ reverse-reverse (last n xs)
  ]

  append-nil : (xs : List A) → xs ≡ xs ++ []
  append-nil [] = refl
  append-nil (x ∷ xs) = ap (λ ys. x ∷ ys) (append-nil xs)

  keep-append :
      (test : A → Bool) (xs ys : List A) → keep test (xs ++ ys) ≡ keep test xs ++ keep test ys
  unfolding keep
  keep-append test [] ys = refl
  keep-append test (x ∷ xs) ys = elim (Bool-cases (test x)) [
    | inl in_ ↦ rw in_ (ap (λ zs. x ∷ zs) (keep-append test xs ys))
    | inr out ↦ rw out (keep-append test xs ys)
  ]

  keep-reverse : (test : A → Bool) (xs : List A) → keep test (reverse xs) ≡ reverse (keep test xs)
  unfolding keep
  keep-reverse test [] = refl
  keep-reverse test (x ∷ xs) =
      ap (keep test) (reverse-append (x ∷ []) xs)
      ∙ keep-append test (reverse xs) (x ∷ [])
      ∙ ap (λ ys. ys ++ keep test (x ∷ [])) (keep-reverse test xs)
      ∙ elim (Bool-cases (test x)) [
        | inl in_ ↦ rw in_ (sym (reverse-append (x ∷ []) (keep test xs)))
        | inr out ↦ rw out (sym (append-nil (reverse (keep test xs))))
      ]

  length-keep : (test : A → Bool) (xs : List A) → length (keep test xs) ≤ length xs
  unfolding keep
  length-keep test [] = omega arith
  length-keep test (x ∷ xs) = ground (arith, length-keep test xs)

newest_lem :
    (n : ℕ) (query : Text) (es : List LogEntry)
    → newest n query es ≡ take n (keep (is_hit query) es)
unfolding newest keep
newest_lem zero query [] = refl
newest_lem (suc n) query [] = refl
newest_lem zero query (e ∷ es) = refl
newest_lem (suc n) query (e ∷ es) = elim (Bool-cases (is_hit query e)) [
  | inl hit ↦ rw hit (ap (λ xs. e ∷ xs) (newest_lem n query es))
  | inr miss ↦ rw miss (newest_lem (suc n) query es)
]

-- the entries whose message or stream holds the trimmed query in any letter case
abbrev pub hits : Text → LogBuffer → List LogEntry
hits query b = keep (is_hit (to_lower (trim_space query))) b.entries

list-last :
    (limit : ℤ) (query : Text) (b : LogBuffer)
    → list limit query b ≡ last (effective_limit b.max limit) (hits query b)
unfolding list
list-last limit query b =
    let q = to_lower (trim_space query) in
    let n = effective_limit b.max limit in
    ap reverse
      (newest_lem n q (reverse b.entries) ∙ ap (take n) (keep-reverse (is_hit q) b.entries))
    ∙ reverse-take-reverse n (hits query b)

-- Of a buffer within its size, `list` with a positive limit answers the last hits of the query, as many as
-- the limit says, or all where there are fewer, in the order of the buffer. With no positive limit it answers
-- all of them.
pub list_lem :
    (n : ℕ) (query : Text) (b : LogBuffer)
    → length b.entries ≤ b.max
    → (list (pos (suc n)) query b ≡ last (suc n) (hits query b))
      × (list (pos 0) query b ≡ hits query b)
      × (list (negsuc n) query b ≡ hits query b)
list_lem n query b h =
    let size = length-keep (is_hit (to_lower (trim_space query))) b.entries in
    let fits : length (hits query b) ≤ b.max = omega arith in
    let all = last_all b.max (hits query b) fits in
    (
      elim (Bool-cases (ltb b.max (suc n))) [
        | inl over ↦
            list-last (pos (suc n)) query b
            ∙ ap (λ (t : Bool). last (if t then b.max else suc n) (hits query b)) over
            ∙ all
            ∙ sym (last_all (suc n) (hits query b) (ground arith))
        | inr under ↦
            list-last (pos (suc n)) query b
            ∙ ap (λ (t : Bool). last (if t then b.max else suc n) (hits query b)) under
      ],
      list-last (pos 0) query b ∙ all,
      list-last (negsuc n) query b ∙ all,
    )
