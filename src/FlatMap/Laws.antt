-- ===== src/FlatMap/Laws.antt =====
-- include/cpph/container/flat_map.hxx: `flat_map` as a finite map, and the order of its keys.
use cppheaders.Prelude.{
  ℕ, suc, ◌≤◌, ◌<◌, ◌≡◌, ◌≢◌, refl, ap, sym, ◌∙◌, true, false, Option, none, some, List, [], ◌∷◌,
  arith, ltb, ◌==◌, if◌then◌else◌, Bool-cases, inl, inr, subst, ltb→lt, ==_iff,
}
use cppheaders.FlatMap.{at, try_emplace, erase}
use cppheaders.FlatMap.Lookup.{
  lookup, put, remove, at-eq-lookup, try_emplace-eq-put, erase-eq-remove,
}

module _ {ℓ} {V : Type ℓ} where
  -- The keys are in order from a bound on, each once.
  unfoldable pub Above : ℕ → List (ℕ × V) → Type 0
  Above low [] = Unit {0}
  Above low ((k, v) ∷ rest) = (low ≤ k) × Above (suc k) rest

  -- The keys of the vector are in order, each once.
  abbrev pub Sorted : List (ℕ × V) → Type 0
  Sorted = Above 0

  -- The value that stands under a key, or another.
  abbrev pub or_else : V → Option V → Option V
  or_else w none = some w
  or_else w (some v) = some v

  Above-le : (low high : ℕ) (xs : List (ℕ × V)) → low ≤ high → Above high xs → Above low xs
  unfolding Above
  Above-le low high [] le h = tt
  Above-le low high ((k, v) ∷ rest) le (first, later) = (omega arith, later)

  lookup-below :
      (low : ℕ) (xs : List (ℕ × V)) (key : ℕ) → Above low xs → key < low → lookup xs key ≡ none
  unfolding Above lookup
  lookup-below low [] key h lt = refl
  lookup-below low ((k, v) ∷ rest) key (first, later) lt = ground arith

  lookup-put_self :
      (xs : List (ℕ × V)) (key : ℕ) (w : V) → lookup (put xs key w) key ≡ or_else w (lookup xs key)
  unfolding lookup put
  lookup-put_self [] key w = ground arith
  lookup-put_self ((k, v) ∷ rest) key w = elim (Bool-cases (ltb k key)) [
    | inl less ↦ rw less (rw less (lookup-put_self rest key w))
    | inr not_less ↦ elim (Bool-cases (ltb key k)) [
      | inl above ↦
          let self : ltb key key ≡ false = ground arith in rw (not_less, above) (rw self refl)
      | inr same ↦ rw (not_less, same) (rw (not_less, same) refl)
    ]
  ]

  lookup-put_ne :
      (xs : List (ℕ × V)) (key other : ℕ) (w : V)
      → other ≢ key
      → lookup (put xs key w) other ≡ lookup xs other
  unfolding lookup put
  lookup-put_ne [] key other w ne = elim (Bool-cases (ltb key other)) [
    | inl less ↦ rw less refl
    | inr not_less ↦ let above : ltb other key ≡ true = ground arith in rw (not_less, above) refl
  ]
  lookup-put_ne ((k, v) ∷ rest) key other w ne = elim (Bool-cases (ltb k key)) [
    | inl less ↦ elim (Bool-cases (ltb k other)) [
      | inl on ↦ rw (less, on) (lookup-put_ne rest key other w ne)
      | inr stop ↦ rw less (rw stop refl)
    ]
    | inr not_less ↦ elim (Bool-cases (ltb key k)) [
      | inl above ↦ elim (Bool-cases (ltb key other)) [
        | inl on ↦ rw (not_less, above) (rw on refl)
        | inr stop ↦
            let below : ltb other key ≡ true = ground arith in
            let past : ltb k other ≡ false = ground arith in
            let under : ltb other k ≡ true = ground arith in
            rw (not_less, above) (rw (stop, below, past, under) refl)
      ]
      | inr same ↦ rw (not_less, same) refl
    ]
  ]

  put-Above :
      (low : ℕ) (xs : List (ℕ × V)) (key : ℕ) (w : V)
      → low ≤ key
      → Above low xs
      → Above low (put xs key w)
  unfolding put Above
  put-Above low [] key w le h = (le, tt)
  put-Above low ((k, v) ∷ rest) key w le (first, later) = elim (Bool-cases (ltb k key)) [
    | inl less ↦ rw less (first, put-Above (suc k) rest key w (ltb→lt k key less) later)
    | inr not_less ↦ elim (Bool-cases (ltb key k)) [
      | inl above ↦ rw (not_less, above) (le, (ltb→lt key k above, later))
      | inr same ↦ rw (not_less, same) (first, later)
    ]
  ]

  remove-Above : (low : ℕ) (xs : List (ℕ × V)) (key : ℕ) → Above low xs → Above low (remove xs key)
  unfolding remove Above
  remove-Above low [] key h = tt
  remove-Above low ((k, v) ∷ rest) key (first, later) = elim (Bool-cases (ltb k key)) [
    | inl less ↦ rw less (first, remove-Above (suc k) rest key later)
    | inr not_less ↦ elim (Bool-cases (ltb key k)) [
      | inl above ↦ rw (not_less, above) (first, later)
      | inr same ↦ rw (not_less, same) (Above-le low (suc k) rest (omega arith) later)
    ]
  ]

  lookup-remove_self :
      (low : ℕ) (xs : List (ℕ × V)) (key : ℕ) → Above low xs → lookup (remove xs key) key ≡ none
  unfolding lookup remove Above
  lookup-remove_self low [] key h = refl
  lookup-remove_self low ((k, v) ∷ rest) key (first, later) = elim (Bool-cases (ltb k key)) [
    | inl less ↦ rw less (rw less (lookup-remove_self (suc k) rest key later))
    | inr not_less ↦ elim (Bool-cases (ltb key k)) [
      | inl above ↦ rw (not_less, above) (rw (not_less, above) refl)
      | inr same ↦ rw (not_less, same) (lookup-below (suc k) rest key later (ground arith))
    ]
  ]

  lookup-remove_ne :
      (low : ℕ) (xs : List (ℕ × V)) (key other : ℕ)
      → Above low xs
      → other ≢ key
      → lookup (remove xs key) other ≡ lookup xs other
  unfolding lookup remove Above
  lookup-remove_ne low [] key other h ne = refl
  lookup-remove_ne low ((k, v) ∷ rest) key other (first, later) ne = elim (Bool-cases (ltb k key)) [
    | inl less ↦ elim (Bool-cases (ltb k other)) [
      | inl on ↦ rw (less, on) (lookup-remove_ne (suc k) rest key other later ne)
      | inr stop ↦ rw less (rw stop refl)
    ]
    | inr not_less ↦ elim (Bool-cases (ltb key k)) [
      | inl above ↦ rw (not_less, above) refl
      | inr same ↦ elim (Bool-cases (ltb k other)) [
        | inl on ↦ rw (not_less, same) (rw on refl)
        | inr stop ↦
            let below : ltb other k ≡ true = ground arith in
            rw (not_less, same)
              (rw (stop, below) (lookup-below (suc k) rest other later (ground arith)))
      ]
    ]
  ]

  -- After `try_emplace` in a vector in order, the key has the value that it had, or else the new one,
  -- and any other key has what it had.
  pub try_emplace-at :
      (xs : List (ℕ × V)) (key other : ℕ) (w : V)
      → Sorted xs
      → at (try_emplace xs key w).0 other
        ≡ (if other == key then or_else w (at xs key) else at xs other)
  try_emplace-at xs key other w h =
      at-eq-lookup (try_emplace xs key w).0 other
      ∙ ap (λ ys. lookup ys other) (try_emplace-eq-put xs key w).0
      ∙ elim (Bool-cases (other == key)) [
        | inl same ↦
            let e : other ≡ key = (==_iff other key).0 same in
            rw same (
              ap (lookup (put xs key w)) e
              ∙ lookup-put_self xs key w
              ∙ ap (or_else w) (sym (at-eq-lookup xs key)))
        | inr apart ↦
            rw apart
              (lookup-put_ne xs key other w (λ e. ground arith) ∙ sym (at-eq-lookup xs other))
      ]

  -- After `erase` of a key in a vector in order, nothing stands under the key, and any other key has
  -- what it had.
  pub erase-at :
      (xs : List (ℕ × V)) (key other : ℕ)
      → Sorted xs
      → at (erase xs key).0 other ≡ (if other == key then none else at xs other)
  erase-at xs key other h =
      at-eq-lookup (erase xs key).0 other
      ∙ ap (λ r. lookup r.0 other) (erase-eq-remove xs key)
      ∙ elim (Bool-cases (other == key)) [
        | inl same ↦
            let e : other ≡ key = (==_iff other key).0 same in
            rw same (ap (lookup (remove xs key)) e ∙ lookup-remove_self 0 xs key h)
        | inr apart ↦
            rw apart
              (lookup-remove_ne 0 xs key other h (λ e. ground arith) ∙ sym (at-eq-lookup xs other))
      ]

  -- `try_emplace` and `erase` leave a vector in order, each key once, where it was.
  pub operations-Sorted :
      (xs : List (ℕ × V)) (key : ℕ) (w : V)
      → Sorted xs
      → Sorted (try_emplace xs key w).0 × Sorted (erase xs key).0
  operations-Sorted xs key w h = (
    subst Sorted (sym (try_emplace-eq-put xs key w).0) (put-Above 0 xs key w (omega arith) h),
    subst Sorted (sym (ap (λ r. r.0) (erase-eq-remove xs key))) (remove-Above 0 xs key h),
  )
