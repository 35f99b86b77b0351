-- ===== src/FlatMap/Set.antt =====
-- include/cpph/container/flat_map.hxx: `flat_set` of numbers, which `std::less` orders.
use cppheaders.Prelude.{
  ℕ, zero, suc, ◌<◌, ◌≡◌, refl, ap, ◌∙◌, Bool, true, false, ◌||◌, Option, none, some, List, [], ◌∷◌,
  arith, ltb, ◌==◌, if◌then◌else◌, length, get_elem?, set, Bool-cases, inl, inr,
}
use cppheaders.FlatMap.{insert_at, erase_at}

-- `lower_bound`: the first position whose value is not less than `val`.
unfoldable pub set_lower_bound : List ℕ → ℕ → ℕ
set_lower_bound [] val = 0
set_lower_bound (x ∷ xs) val = if ltb x val then suc (set_lower_bound xs val) else 0

-- `Comparator{}(*iter, val) || Comparator{}(val, *iter)`
abbrev pub differs : ℕ → Option ℕ → Bool
differs val none = false
differs val (some x) = ltb x val || ltb val x

unfoldable pub set_insert : List ℕ → ℕ → List ℕ
unfolding set_lower_bound
set_insert xs val =
    let i = set_lower_bound xs val in
    if (i == length xs) || differs val (get_elem? xs i) then insert_at i val xs else set xs i val

-- `find`: the iterator where the values differ, and `end()` where they do not.
unfoldable pub set_find : List ℕ → ℕ → ℕ
unfolding set_lower_bound
set_find xs val =
    let i = set_lower_bound xs val in
    if (i == length xs) || differs val (get_elem? xs i) then i else length xs

-- `erase(ValTy const&)`
unfoldable pub set_erase : List ℕ → ℕ → List ℕ × ℕ
unfolding set_find
set_erase xs val = let i = set_find xs val in if i == length xs then (xs, 0) else (erase_at i xs, 1)

-- `set_insert` in one walk
insert_walk : List ℕ → ℕ → List ℕ
insert_walk [] val = val ∷ []
insert_walk (x ∷ xs) val =
    let later = insert_walk xs val in
    if ltb x val then x ∷ later else if ltb val x then val ∷ x ∷ xs else val ∷ xs

insert_walk-eq : (xs : List ℕ) (val : ℕ) → set_insert xs val ≡ insert_walk xs val
unfolding set_insert insert_walk set_lower_bound insert_at
insert_walk-eq [] val = refl
insert_walk-eq (x ∷ xs) val = elim (Bool-cases (ltb x val)) [
  | inl less ↦
      let i = set_lower_bound xs val in
      let one : (suc i == suc (length xs)) ≡ (i == length xs) = ground arith in
      elim (Bool-cases ((i == length xs) || differs val (get_elem? xs i))) [
        | inl new ↦
            let rest : insert_at i val xs ≡ insert_walk xs val =
              rw⁻¹ (insert_walk-eq xs val) (rw new refl) in
            rw (less, one, new) (ap (λ ys. x ∷ ys) rest)
        | inr old ↦
            let rest : set xs i val ≡ insert_walk xs val =
              rw⁻¹ (insert_walk-eq xs val) (rw old refl) in
            rw (less, one, old) (ap (λ ys. x ∷ ys) rest)
      ]
  | inr not_less ↦
      let first : (0 == suc (length xs)) ≡ false = ground arith in
      elim (Bool-cases (ltb val x)) [
        | inl above ↦ rw (not_less, above, first) (rw not_less refl)
        | inr same ↦ rw (not_less, same, first) (rw not_less refl)
      ]
]

inserted :
    (xs : List ℕ) (val : ℕ)
    → get_elem? (insert_walk xs val) (set_lower_bound (insert_walk xs val) val) ≡ some val
unfolding insert_walk set_lower_bound
inserted [] val = let self : ltb val val ≡ false = ground arith in rw self refl
inserted (x ∷ xs) val =
    let self : ltb val val ≡ false = ground arith in
    elim (Bool-cases (ltb x val)) [
      | inl less ↦ rw less (rw less (inserted xs val))
      | inr not_less ↦ elim (Bool-cases (ltb val x)) [
        | inl above ↦ rw (not_less, above) (rw self refl)
        | inr same ↦ rw (not_less, same) (rw self refl)
      ]
    ]

get_elem?-some-lt : (xs : List ℕ) (i v : ℕ) → get_elem? xs i ≡ some v → i < length xs
get_elem?-some-lt [] i v h = ground arith
get_elem?-some-lt (x ∷ xs) zero v h = omega arith
get_elem?-some-lt (x ∷ xs) (suc i) v h = omega (arith, get_elem?-some-lt xs i v h)

-- A value that stands at its lower bound is not found, and so not erased.
erase_kept :
    (xs : List ℕ) (val : ℕ)
    → get_elem? xs (set_lower_bound xs val) ≡ some val
    → set_erase xs val ≡ (xs, 0)
unfolding set_erase set_find
erase_kept xs val h =
    let inside : (set_lower_bound xs val == length xs) ≡ false =
      ground (arith, get_elem?-some-lt xs (set_lower_bound xs val) val h) in
    let self : ltb val val ≡ false = ground arith in
    let end : (length xs == length xs) ≡ true = ground arith in rw (inside, h, self) (rw end refl)

-- `erase` of a value right after it was inserted reports that nothing was erased, and changes
-- nothing.
pub set_erase-set_insert :
    (xs : List ℕ) (val : ℕ) → set_erase (set_insert xs val) val ≡ (set_insert xs val, 0)
set_erase-set_insert xs val =
    erase_kept (set_insert xs val) val
      (ap (λ ys. get_elem? ys (set_lower_bound ys val)) (insert_walk-eq xs val) ∙ inserted xs val)

-- `erase` of a value below the one that stands at its lower bound erases the one that stands
-- there, and counts it.
pub set_erase_other :
    (xs : List ℕ) (val x : ℕ)
    → get_elem? xs (set_lower_bound xs val) ≡ some x
    → val < x
    → set_erase xs val ≡ (erase_at (set_lower_bound xs val) xs, 1)
unfolding set_erase set_find
set_erase_other xs val x h below =
    let inside : (set_lower_bound xs val == length xs) ≡ false =
      ground (arith, get_elem?-some-lt xs (set_lower_bound xs val) x h) in
    let off : (ltb x val || ltb val x) ≡ true = ground arith in rw (inside, h, off) (rw inside refl)
