-- ===== src/FlatMap/Lookup.antt =====
-- include/cpph/container/flat_map.hxx: the operations in one walk along the vector.
use cppheaders.Prelude.{
  ℕ, zero, suc, ◌≤◌, ◌<◌, ◌≡◌, refl, ap, sym, ◌∙◌, Bool, true, false, not, ◌&&◌, Option, none, some,
  List, [], ◌∷◌, arith, ltb, ◌==◌, if◌then◌else◌, length, get_elem?, get_elem?-eq-none, ==_iff,
  Bool-cases, inl, inr,
}
use cppheaders.FlatMap.{lower_bound, is_before, find, at, insert_at, erase_at, try_emplace, erase}

module _ {ℓ} {V : Type ℓ} where
  -- What stands under a key.
  unfoldable pub lookup : List (ℕ × V) → ℕ → Option V
  lookup [] key = none
  lookup ((k, v) ∷ rest) key =
      if ltb k key then lookup rest key else if ltb key k then none else some v

  unfoldable pub put : List (ℕ × V) → ℕ → V → List (ℕ × V)
  put [] key w = (key, w) ∷ []
  put ((k, v) ∷ rest) key w =
      let later = put rest key w in
      if ltb k key
      then (k, v) ∷ later
      else if ltb key k
      then (key, w) ∷ (k, v) ∷ rest
      else (k, v) ∷ rest

  unfoldable pub remove : List (ℕ × V) → ℕ → List (ℕ × V)
  remove [] key = []
  remove ((k, v) ∷ rest) key =
      let later = remove rest key in
      if ltb k key then (k, v) ∷ later else if ltb key k then (k, v) ∷ rest else rest

  -- What an element at the lower bound of a key says about the key.
  abbrev pub value_for : ℕ → Option (ℕ × V) → Option V
  value_for key none = none
  value_for key (some (k, v)) = if ltb key k then none else some v

  lookup-value_for :
      (xs : List (ℕ × V)) (key : ℕ)
      → value_for key (get_elem? xs (lower_bound xs key)) ≡ lookup xs key
  unfolding lookup lower_bound
  lookup-value_for [] key = refl
  lookup-value_for ((k, v) ∷ rest) key = elim (Bool-cases (ltb k key)) [
    | inl less ↦ rw less (lookup-value_for rest key)
    | inr not_less ↦ rw not_less refl
  ]

  lower_bound-le : (xs : List (ℕ × V)) (key : ℕ) → lower_bound xs key ≤ length xs
  unfolding lower_bound
  lower_bound-le [] key = omega arith
  lower_bound-le ((k, v) ∷ rest) key = ground (arith, lower_bound-le rest key)

  get_elem?-inside :
      (xs : List (ℕ × V)) (i : ℕ) → i < length xs → (e : ℕ × V) × (get_elem? xs i ≡ some e)
  get_elem?-inside [] i lt = absurd (omega arith)
  get_elem?-inside (x ∷ xs) zero lt = (x, refl)
  get_elem?-inside (x ∷ xs) (suc i) lt = get_elem?-inside xs i (omega arith)

  at-value_for :
      (xs : List (ℕ × V)) (key : ℕ) → at xs key ≡ value_for key (get_elem? xs (lower_bound xs key))
  unfolding at find
  at-value_for xs key =
      let i = lower_bound xs key in
      elim (Bool-cases (i == length xs)) [
        | inl last ↦
            let e : i ≡ length xs = (==_iff i (length xs)).0 last in
            rw (find, last)
              (rw last (sym (ap (value_for key) (get_elem?-eq-none xs i (omega (arith, e))))))
        | inr inside ↦
            let ne : i < length xs = ground (arith, lower_bound-le xs key) in
            let (el, found) = get_elem?-inside xs i ne in
            let self : (length xs == length xs) ≡ true = ground arith in
            elim (Bool-cases (ltb key el.0)) [
              | inl above ↦ rw (find, inside, found, above, self) refl
              | inr same ↦ rw (find, inside, found, same) (rw (inside, found) refl)
            ]
      ]

  -- `at` finds what stands under a key.
  pub at-eq-lookup : (xs : List (ℕ × V)) (key : ℕ) → at xs key ≡ lookup xs key
  at-eq-lookup xs key = at-value_for xs key ∙ lookup-value_for xs key

  -- Whether the element at the lower bound has the key.
  unfoldable pub present : List (ℕ × V) → ℕ → Bool
  present xs key =
      let i = lower_bound xs key in not (i == length xs) && not (is_before key (get_elem? xs i))

  present-tail :
      (k key : ℕ) (v : V) (rest : List (ℕ × V))
      → ltb k key ≡ true
      → present ((k, v) ∷ rest) key ≡ present rest key
  unfolding present lower_bound
  present-tail k key v rest less =
      let one : (suc (lower_bound rest key) == suc (length rest))
          ≡ (lower_bound rest key == length rest) =
        ground arith in
      rw (less, one) refl

  put-present : (xs : List (ℕ × V)) (key : ℕ) (w : V) → present xs key ≡ true → put xs key w ≡ xs
  unfolding put present lower_bound
  put-present [] key w h = ground (arith, h)
  put-present ((k, v) ∷ rest) key w h = elim (Bool-cases (ltb k key)) [
    | inl less ↦
        rw less (
          ap (λ ys. (k, v) ∷ ys)
            (put-present rest key w (sym (present-tail k key v rest less) ∙ h)))
    | inr not_less ↦
        let same : ltb key k ≡ false = ground (arith, h, not_less) in rw (not_less, same) refl
  ]

  put-absent :
      (xs : List (ℕ × V)) (key : ℕ) (w : V)
      → present xs key ≡ false
      → put xs key w ≡ insert_at (lower_bound xs key) (key, w) xs
  unfolding put present lower_bound insert_at
  put-absent [] key w h = refl
  put-absent ((k, v) ∷ rest) key w h = elim (Bool-cases (ltb k key)) [
    | inl less ↦
        rw less (
          ap (λ ys. (k, v) ∷ ys) (put-absent rest key w (sym (present-tail k key v rest less) ∙ h)))
    | inr not_less ↦
        let above : ltb key k ≡ true = ground (arith, h, not_less) in rw (not_less, above) refl
  ]

  -- `try_emplace` puts a new element in its place, and leaves an element that has the key.
  pub try_emplace-eq-put :
      (xs : List (ℕ × V)) (key : ℕ) (w : V)
      → ((try_emplace xs key w).0 ≡ put xs key w)
        × ((try_emplace xs key w).2 ≡ not (present xs key))
  unfolding try_emplace present
  try_emplace-eq-put xs key w = elim (Bool-cases (present xs key)) [
    | inl there ↦ (rw there (sym (put-present xs key w there)), rw there refl)
    | inr missing ↦ (rw missing (sym (put-absent xs key w missing)), rw missing refl)
  ]

  remove-present :
      (xs : List (ℕ × V)) (key : ℕ)
      → present xs key ≡ true
      → remove xs key ≡ erase_at (lower_bound xs key) xs
  unfolding remove present lower_bound erase_at
  remove-present [] key h = ground (arith, h)
  remove-present ((k, v) ∷ rest) key h = elim (Bool-cases (ltb k key)) [
    | inl less ↦ rw less (
        ap (λ ys. (k, v) ∷ ys) (remove-present rest key (sym (present-tail k key v rest less) ∙ h)))
    | inr not_less ↦
        let same : ltb key k ≡ false = ground (arith, h, not_less) in rw (not_less, same) refl
  ]

  remove-absent : (xs : List (ℕ × V)) (key : ℕ) → present xs key ≡ false → remove xs key ≡ xs
  unfolding remove present lower_bound
  remove-absent [] key h = refl
  remove-absent ((k, v) ∷ rest) key h = elim (Bool-cases (ltb k key)) [
    | inl less ↦
        rw less (
          ap (λ ys. (k, v) ∷ ys)
            (remove-absent rest key (sym (present-tail k key v rest less) ∙ h)))
    | inr not_less ↦
        let above : ltb key k ≡ true = ground (arith, h, not_less) in rw (not_less, above) refl
  ]

  find-present :
      (xs : List (ℕ × V)) (key : ℕ)
      → present xs key ≡ true
      → (find xs key ≡ lower_bound xs key) × ((find xs key == length xs) ≡ false)
  unfolding find present
  find-present xs key h = (ground (arith, h), ground (arith, h))

  find-absent :
      (xs : List (ℕ × V)) (key : ℕ) → present xs key ≡ false → (find xs key == length xs) ≡ true
  unfolding find present
  find-absent xs key h = ground (arith, h)

  -- `erase` takes out the element that has the key, and counts it.
  pub erase-eq-remove :
      (xs : List (ℕ × V)) (key : ℕ)
      → erase xs key ≡ (remove xs key, if present xs key then 1 else 0)
  unfolding erase
  erase-eq-remove xs key = elim (Bool-cases (present xs key)) [
    | inl there ↦
        let (place, inside) = find-present xs key there in
        rw (inside, there)
          (ap (λ ys. (ys, 1)) (ap (λ i. erase_at i xs) place ∙ sym (remove-present xs key there)))
    | inr missing ↦
        rw (find-absent xs key missing, missing)
          (ap (λ ys. (ys, 0)) (sym (remove-absent xs key missing)))
  ]
